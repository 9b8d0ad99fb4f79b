-- ===== src/Bench/Fill/Sequential/Readback.antt =====
-- `fillseq` as a whole, `DoWrite` of integration/tools/db_bench_tool.cc: that it ends, how much it
-- writes, and that `DB_MASTER::Get` then finds every key.
use kvaccel.Base.{
  ℕ, zero, suc, ◌+◌, ◌*◌, ◌/◌, ◌%◌, ◌≤◌, ◌<◌, ◌^◌, ◌≡◌, refl, ◌∙◌, ap, subst, true, false, some,
  List, [], ltb, leb, ◌==◌, if◌then◌else◌, arith,
}
use Prim.Native.Nat.{min}
use native.Mathlib.Nat.{suc-mul, div-add-mod', mod-lt, div-le_self}
use kvaccel.Base.Bytes.{Bytes}
use kvaccel.Rocks.{ok, IsStore, is_ok}
use kvaccel.Master.{Env, State}
use kvaccel.Master.Write.{get, is_high}
use kvaccel.Bench.{Tools, going, exits, generate_key_from_int, fill_field}
use kvaccel.Bench.Keys.{fill_field-generated}
use kvaccel.Bench.Duration.{Duration, start, done, step_of_self, done-untimed}
use kvaccel.Bench.Numbers.{key_generator}
use kvaccel.Bench.Values.{RandomGenerator}
use kvaccel.Bench.Fill.{Flags, Inputs, BatchOp, is_unique, is_valid, Locals}
use kvaccel.Bench.Fill.Entry.{write_entry, put_entry, complete}
use kvaccel.Bench.Fill.Loop.{
  write_entries, select, write_batch, write_loop, do_write, fresh_locals, num_ops, is_sequential,
  test_duration, num_per_key_gen,
}
use kvaccel.Bench.Fill.Sequential.{
  IsPlain, IsFilled, Accepts, taken, choose-plain, complete-plain, IsFilled-put_entry,
}

module _ (e : Env) (t : Tools) (f : Flags) (x : Inputs) where
  abbrev L : Type 0
  L = Locals e t

  abbrev Room : ℕ → Type 0
  Room n = n ≤ 2 ^ (8 * min f.spec.key_size 8)

  module _ (store : IsStore e.main) (accepts : Accepts e t f x) (p : IsPlain f) where
    write_entry-IsFilled :
        (n : ℕ) (s : L)
        → n < 2 ^ (8 * min f.spec.key_size 8)
        → IsFilled e t f x n s
        → (s' : L) × (write_entry e t f x s ≡ going s') × IsFilled e t f x (n + 1) s'
    unfolding write_entry
    write_entry-IsFilled n s small i =
        let key = fill_field f.spec.key_size n in
        (
          put_entry e t f x key (taken e t f x s),
          ap (complete e t f x) (choose-plain e t f x s p i.mode)
              ∙ complete-plain e t f x (taken e t f x s) s.key_gen.next_ p
              ∙ ap (λ k. going (put_entry e t f x (fill_field f.spec.key_size k) (taken e t f x s)))
                  i.taken_up_to,
          IsFilled-put_entry e t f x n s store accepts small i,
        )

    write_entries-IsFilled :
        (b n : ℕ) (s : L)
        → Room (n + b)
        → IsFilled e t f x n s
        → (s' : L) × (write_entries e t f x b s ≡ going s') × IsFilled e t f x (n + b) s'
    unfolding write_entries
    write_entries-IsFilled zero n s room i =
        (s, refl, subst (λ k. IsFilled e t f x k s) (omega arith) i)
    write_entries-IsFilled (suc b) n s room i =
        let (s₁, first, i₁) = write_entry-IsFilled n s (omega (arith, room)) i in
        let (s₂, rest, i₂) = write_entries-IsFilled b (n + 1) s₁ (omega (arith, room)) i₁ in
        let sum : n + 1 + b ≡ n + suc b = omega arith in
        (s₂, rw (first, rest) refl, subst (λ k. IsFilled e t f x k s₂) sum i₂)

    -- The batch and the clock do not matter.
    IsFilled-idle :
        (n reads : ℕ) (batch : List BatchOp) (s : L)
        → IsFilled e t f x n s
        → IsFilled e t f x n (record s { batch = batch; clock_reads = reads })
    IsFilled-idle n reads batch s i = record {
      unstalled = i.unstalled;
      calm = i.calm;
      mode = i.mode;
      taken_up_to = i.taken_up_to;
      written = i.written;
      last = i.last;
      stored = i.stored;
    }

    select-plain : (s : L) → leb s.next_seq_db_at s.num_written ≡ false → select e t f x s ≡ going s
    unfolding select
    select-plain s more =
        ap
          (λ m.
            if is_sequential m
            then (if leb s.next_seq_db_at s.num_written
                then exits (record s { next_seq_db_at = s.next_seq_db_at + num_ops f })
                else going s)
            else going (record s { rand = (t.next s.rand).1 }))
          p.in_order
        ∙ rw more refl

    write_batch-IsFilled :
        (n : ℕ) (s : L)
        → Room (n + f.entries_per_batch)
        → n < num_ops f
        → IsFilled e t f x n s
        → (s' : L) × (write_batch e t f x s ≡ going s')
          × IsFilled e t f x (n + f.entries_per_batch) s'
    unfolding write_batch
    write_batch-IsFilled n s room less i =
        let (s', done, i') =
          write_entries-IsFilled f.entries_per_batch n (record s { batch = [] }) room
            (IsFilled-idle n s.clock_reads [] s i) in
        let more : leb s.next_seq_db_at s.num_written ≡ false =
          ground (arith, less, i.last, i.written) in
        (s', rw (select-plain s more) done, i')

    -- How the loop tests whether it goes on.
    tested :
        (d : Duration) (s : L)
        → d.max_seconds ≡ 0
        → 0 < f.entries_per_batch
        → done f.granularity f.entries_per_batch (x.clock s.clock_reads) d ≡ (
          ltb d.max_ops (d.ops + f.entries_per_batch),
          record d { ops = d.ops + f.entries_per_batch },
        )
    tested d s untimed batches =
        done-untimed f.granularity f.entries_per_batch (x.clock s.clock_reads) d untimed
        ∙ ap (λ n. (ltb d.max_ops (d.ops + n), record d { ops = d.ops + n }))
            (step_of_self f.entries_per_batch batches)

    -- With `m` batches to go.
    write_loop-IsFilled :
        (m fuel n : ℕ) (d : Duration) (s : L)
        → 0 < f.num
        → 0 < f.entries_per_batch
        → Room (num_ops f)
        → d.max_seconds ≡ 0
        → d.max_ops ≡ num_ops f
        → d.ops ≡ n
        → n + m * f.entries_per_batch ≤ num_ops f
        → num_ops f < n + m * f.entries_per_batch + f.entries_per_batch
        → m < fuel
        → IsFilled e t f x n s
        → (s' : L) × (write_loop e t f x fuel d s ≡ some (going s'))
          × IsFilled e t f x (n + m * f.entries_per_batch) s'
    unfolding write_loop
    write_loop-IsFilled m zero n d s some_keys batches room untimed top at fits full enough i =
        absurd (omega arith)
    write_loop-IsFilled zero (suc fuel) n d s some_keys batches room untimed top at fits full enough
          i =
        let over : ltb d.max_ops (d.ops + f.entries_per_batch) ≡ true =
          ground (arith, top, at, full) in
        let alive : (num_per_key_gen f == 0) ≡ false = ground (arith, some_keys) in
        (
          s,
          rw (tested d s untimed batches, alive, over) refl,
          subst (λ k. IsFilled e t f x k s) (omega arith) i,
        )
    write_loop-IsFilled (suc m) (suc fuel) n d s some_keys batches room untimed top at fits full
          enough i =
        let b = f.entries_per_batch in
        let step : suc m * b ≡ b + m * b = suc-mul m b ∙ omega arith in
        let going_on : ltb d.max_ops (d.ops + b) ≡ false = ground (arith, top, at, fits, step) in
        let alive : (num_per_key_gen f == 0) ≡ false = ground (arith, some_keys) in
        let s₀ : L = record s { clock_reads = s.clock_reads + 1 } in
        let (s₁, batch, i₁) =
          write_batch-IsFilled n s₀ (omega (arith, room, fits, step))
            (omega (arith, batches, fits, step))
            (IsFilled-idle n (s.clock_reads + 1) s.batch s i) in
        let (s₂, rest, i₂) =
          write_loop-IsFilled m fuel (n + b) (record d { ops = d.ops + b }) s₁ some_keys batches
            room untimed top (omega (arith, at)) (omega (arith, fits, step))
            (omega (arith, full, step)) (omega arith) i₁ in
        (
          s₂,
          rw (tested d s untimed batches, alive, going_on, batch) rest,
          subst (λ k. IsFilled e t f x k s₂) (omega (arith, step)) i₂,
        )

    fresh_locals-IsFilled :
        (master : State e) (rand : t.Random) (gen : RandomGenerator)
        → master.kache_flag ≡ 0
        → is_high master.monitor_l0_status ≡ false
        → IsFilled e t f x 0 (fresh_locals e t f x master rand gen)
    unfolding fresh_locals key_generator
    fresh_locals-IsFilled master rand gen unstalled calm = record {
      unstalled = unstalled;
      calm = calm;
      mode = ap (λ m. (key_generator x.shuffle m (num_per_key_gen f)).mode) p.in_order;
      taken_up_to = ap (λ m. (key_generator x.shuffle m (num_per_key_gen f)).next_) p.in_order;
      written = refl;
      last = refl;
      stored = λ i less. absurd (omega arith);
    }

    is_valid-plain : is_valid f ≡ true
    unfolding is_valid
    is_valid-plain =
        let ordered : is_unique f.write_mode ≡ false = ap is_unique p.in_order in
        ground (arith, ordered, p.no_jobs)

    get-filled :
        (n i num : ℕ) (s : L) (k value : Bytes)
        → IsFilled e t f x n s
        → i < n
        → generate_key_from_int f.spec i num ≡ some k
        → (get e s.master k value).0 ≡ ok
    unfolding get
    get-filled n i num s k value filled less made =
        let key : fill_field f.spec.key_size i ≡ k =
          fill_field-generated f.spec i num k p.no_keys p.no_prefix made in
        let there : is_ok (e.main.get s.master.main k).0 ≡ true =
          subst (λ k. is_ok (e.main.get s.master.main k).0 ≡ true) key (filled.stored i less) in
        ground (arith, filled.unstalled, there)

    -- The whole fill.
    pub do_write-IsFilled :
        (fuel : ℕ) (master : State e) (rand : t.Random) (gen : RandomGenerator)
        → 0 < f.num
        → 0 < f.entries_per_batch
        → num_ops f ≤ 2 ^ (8 * min f.spec.key_size 8)
        → num_ops f < fuel
        → master.kache_flag ≡ 0
        → is_high master.monitor_l0_status ≡ false
        → (s : L) × (do_write e t f x fuel master rand gen ≡ some (going s))
          × IsFilled e t f x (num_ops f / f.entries_per_batch * f.entries_per_batch) s
    unfolding do_write start
    do_write-IsFilled fuel master rand gen some_keys batches room enough unstalled calm =
        let b = f.entries_per_batch in
        let m = num_ops f / b in
        let parts : m * b + num_ops f % b ≡ num_ops f = div-add-mod' (num_ops f) b in
        let small : num_ops f % b < b = mod-lt (num_ops f) batches in
        let d = start (test_duration f.write_mode f.duration) (num_ops f) (num_ops f) (x.clock 0) in
        let untimed : test_duration f.write_mode f.duration ≡ 0 =
          ap (λ w. test_duration w f.duration) p.in_order in
        let (s, ran, i) =
          write_loop-IsFilled m fuel 0 d (fresh_locals e t f x master rand gen) some_keys batches
            room untimed refl refl (omega (arith, parts)) (omega (arith, parts, small))
            (omega (arith, enough, div-le_self (num_ops f) b))
            (fresh_locals-IsFilled master rand gen unstalled calm) in
        (s, rw is_valid-plain ran, subst (λ k. IsFilled e t f x k s) (omega arith) i)

    -- A plain `fillseq` whose numbers fit into the keys, with at least one key and in batches that
    -- are not empty, on a master that is calm, whose Dev-LSM is empty and whose Main-LSM is a
    -- store that takes every write: with fuel above the number of operations it ends without an
    -- error, it has written as many entries as whole batches go into that number, and `Get` finds
    -- the key of each of them.
    pub get-do_write :
        (fuel i : ℕ) (k value : Bytes) (master : State e) (rand : t.Random) (gen : RandomGenerator)
        → 0 < f.num
        → 0 < f.entries_per_batch
        → num_ops f ≤ 2 ^ (8 * min f.spec.key_size 8)
        → num_ops f < fuel
        → master.kache_flag ≡ 0
        → is_high master.monitor_l0_status ≡ false
        → i < num_ops f / f.entries_per_batch * f.entries_per_batch
        → generate_key_from_int f.spec i f.flags_num ≡ some k
        → (s : L) × (do_write e t f x fuel master rand gen ≡ some (going s))
          × (s.num_written ≡ num_ops f / f.entries_per_batch * f.entries_per_batch)
          × ((get e s.master k value).0 ≡ ok)
    get-do_write fuel i k value master rand gen some_keys batches room enough unstalled calm less
          made =
        let (s, ran, filled) =
          do_write-IsFilled fuel master rand gen some_keys batches room enough unstalled calm in
        (s, ran, filled.written, get-filled _ i f.flags_num s k value filled less made)
