-- ===== src/Bench/Background/Ends.antt =====
-- When `BGWriter` of integration/tools/db_bench_tool.cc ends, without range deletions and over a
-- Main-LSM that takes every write.
use kvaccel.Base.{
  ℕ, zero, suc, ◌+◌, ◌%◌, ◌^◌, ◌≤◌, ◌<◌, ◌≡◌, ◌≢◌, refl, ◌∙◌, true, false, some, none, [], Bool,
  none, ◌==◌, inl, inr, arith, Bool-cases,
}
use kvaccel.Base.Bytes.{Bytes}
use kvaccel.Rocks.{ok}
use kvaccel.Master.{Env, State}
use kvaccel.Master.Write.{put, is_high}
use kvaccel.Master.Coherence.{put-calm, put-stalled}
use kvaccel.Bench.{Tools, going, random_key}
use kvaccel.Bench.Keys.{generate-plain}
use kvaccel.Bench.Values.{RandomGenerator}
use kvaccel.Bench.Background.{
  Flags, PlainDb, Locals, is_tombstone_due, write_tombstone, write_key, others_finished, stops,
  begin_pass, background_round, background_loop, bg_writer,
}

-- The Main-LSM takes every write; there are keys, all generated and without a prefix; no range
-- deletions.
pub record IsSteady (e : Env) (f : Flags) : Type 0 where
  pub accepts : (s : e.main.State) (k v : Bytes) → (e.main.put s k v).0 ≡ ok
  pub some_keys : f.num ≢ 0
  pub no_keys : f.spec.keys ≡ []
  pub no_prefix : f.spec.keys_per_prefix ≡ 0
  pub no_tombstones : f.writes_per_range_tombstone ≡ 0

module _ (e : Env) (t : Tools) (d : PlainDb) (f : Flags) (steady : IsSteady e f) where
  abbrev L : Type 0
  L = Locals e t d

  put-accepted : (s : State e) (k v : Bytes) → (put e s k v).0 ≡ ok
  put-accepted s k v = elim (Bool-cases (is_high s.monitor_l0_status)) [
    | inl high ↦ rw (put-stalled e s k v high) refl
    | inr calm ↦ rw (put-calm e s k v calm) (steady.accepts s.main k v)
  ]

  -- One more write.
  record Follows (s s' : L) : Type 0 where
    written : s'.written ≡ (s.written + 1) % 2 ^ 32
    passes : s'.passes ≡ s.passes

  write_key-Follows :
      (s : L) (key : Bytes) → (s' : L) × (write_key e t d f s key ≡ going s') × Follows s s'
  unfolding write_key write_tombstone is_tombstone_due
  write_key-Follows s key =
      rw (put-accepted s.master key _, steady.no_tombstones)
        (_, refl, record { written = refl; passes = refl })

  random_key-made : (number : ℕ) → (key : Bytes) × (random_key f.spec f.num number ≡ some key)
  unfolding random_key
  random_key-made number = elim (Bool-cases (f.num == 0)) [
    | inl zero_keys ↦ absurd (steady.some_keys (ground (arith, zero_keys)))
    | inr there ↦
        rw there (_, generate-plain f.spec (number % f.num) f.num steady.no_keys steady.no_prefix)
  ]

  round-Follows : (s : L) → (s' : L) × (background_round e t d f s ≡ going s') × Follows s s'
  unfolding background_round
  round-Follows s =
      let (number, rand) = t.next s.rand in
      let (key, made) = random_key-made number in
      let (s', went, after) = write_key-Follows (record s { rand = rand }) key in
      rw made (s', went, record { written = after.written; passes = after.passes })

  module _ (shared : ℕ → ℕ × ℕ) where
    -- A pass that does not leave the loop.
    pass-Follows :
        (fuel : ℕ) (s : L)
        → stops f (shared s.passes) s.written ≡ false
        → (s' : L) × (background_loop e t d f shared (suc fuel) s
            ≡ background_loop e t d f shared fuel s')
          × (s'.written ≡ (s.written + 1) % 2 ^ 32)
          × (s'.passes ≡ s.passes + 1)
    unfolding background_loop begin_pass
    pass-Follows fuel s stays =
        let (s', went, after) = round-Follows (begin_pass e t d f (shared s.passes) s) in
        (s', rw (stays, went) refl, after.written, after.passes)

    -- The test of a pass that lies no passes ahead.
    stops-now :
        (s : L) (b : Bool)
        → s.written < 2 ^ 32
        → stops f (shared (s.passes + 0)) ((s.written + 0) % 2 ^ 32) ≡ b
        → stops f (shared s.passes) s.written ≡ b
    stops-now s b small test =
        let no_more : (s.written + 0) % 2 ^ 32 ≡ s.written = omega (arith, small) in
        let same_pass : s.passes + 0 ≡ s.passes = omega arith in rw (no_more, same_pass) at test

    -- The loop is left in the first pass whose test says so.
    loop-written :
        (n fuel : ℕ) (s : L)
        → n < fuel
        → s.written < 2 ^ 32
        → ((i : ℕ) → i < n → stops f (shared (s.passes + i)) ((s.written + i) % 2 ^ 32) ≡ false)
        → stops f (shared (s.passes + n)) ((s.written + n) % 2 ^ 32) ≡ true
        → (s' : L) × (background_loop e t d f shared fuel s ≡ some (going s'))
          × (s'.written ≡ (s.written + n) % 2 ^ 32)
    unfolding background_loop
    loop-written n zero s enough small before over = absurd (omega (arith, enough))
    loop-written zero (suc fuel) s enough small before over =
        rw (stops-now s true small over) (_, refl, omega (arith, small))
    loop-written (suc n) (suc fuel) s enough small before over =
        let (s₁, went, written, passes) =
          pass-Follows fuel s (stops-now s false small (before 0 (omega arith))) in
        let next_written : (i : ℕ) → (s₁.written + i) % 2 ^ 32 ≡ (s.written + suc i) % 2 ^ 32 =
          λ i. omega (arith, written) in
        let next_pass : (i : ℕ) → s₁.passes + i ≡ s.passes + suc i = λ i. omega (arith, passes) in
        let (s', ended, count) =
          loop-written n fuel s₁ (omega (arith, enough)) (omega (arith, written))
            (λ i less. rw (next_written i, next_pass i) (before (suc i) (omega (arith, less))))
            (rw (next_written n, next_pass n) over) in
        (s', went ∙ ended, count ∙ next_written n)

    -- A loop in which no pass ever says so does not end.
    loop-never :
        (fuel : ℕ) (s : L)
        → s.written < 2 ^ 32
        → ((seen : ℕ × ℕ) (w : ℕ) → w < 2 ^ 32 → stops f seen w ≡ false)
        → background_loop e t d f shared fuel s ≡ none
    unfolding background_loop
    loop-never zero s small stays = refl
    loop-never (suc fuel) s small stays =
        let (s₁, went, written, passes) =
          pass-Follows fuel s (stays (shared s.passes) s.written small) in
        went ∙ loop-never fuel s₁ (omega (arith, written)) stays

    finish-stays :
        f.finish_after_writes ≡ true
        → f.writes < 2 ^ 32
        → (i : ℕ) → i < f.writes
        → stops f (shared (0 + i)) ((0 + i) % 2 ^ 32) ≡ false
    unfolding stops
    finish-stays finish small i less = rw finish (ground (arith, small, less))

    finish-over :
        f.finish_after_writes ≡ true
        → f.writes < 2 ^ 32
        → stops f (shared (0 + f.writes)) ((0 + f.writes) % 2 ^ 32) ≡ true
    unfolding stops
    finish-over finish small = rw finish (ground (arith, small))

    -- With `--finish_after_writes`, at least one key, no existing keys, no prefixes and no range
    -- deletions, over a Main-LSM that takes every write, whether it stalls or not: with fuel above
    -- the number of writes, which is below 2^32, the writer ends without an error and has written
    -- exactly that many entries, whatever it reads of the two counters of the other threads in
    -- each of its rounds.
    pub bg_writer-finishing :
        (fuel : ℕ) (master : State e) (db : d.Db) (rand : t.Random) (gen : RandomGenerator)
        → f.finish_after_writes ≡ true
        → f.writes < 2 ^ 32
        → f.writes < fuel
        → (s : L) × (bg_writer e t d f shared fuel master db rand gen ≡ some (going s))
          × (s.written ≡ f.writes)
    unfolding bg_writer
    bg_writer-finishing fuel master db rand gen finish small enough =
        let (s, ended, count) =
          loop-written f.writes fuel _ enough (omega arith) (finish-stays finish small)
            (finish-over finish small) in
        (s, ended, omega (arith, count, small))

    -- Without `--finish_after_writes`, with at least one key, no existing keys, no prefixes and no
    -- range deletions, over a Main-LSM that takes every write: if the n-th pass is the first (from
    -- 0 on) that sees all other threads done, then with fuel above n the writer ends there without
    -- an error, with n written entries, counted modulo 2^32.
    bg_writer-abandoning :
        (n fuel : ℕ) (master : State e) (db : d.Db) (rand : t.Random) (gen : RandomGenerator)
        → f.finish_after_writes ≡ false
        → ((i : ℕ) → i < n → others_finished (shared i) ≡ false)
        → others_finished (shared n) ≡ true
        → n < fuel
        → (s : L) × (bg_writer e t d f shared fuel master db rand gen ≡ some (going s))
          × (s.written ≡ n % 2 ^ 32)
    unfolding bg_writer stops
    bg_writer-abandoning n fuel master db rand gen abandon busy alone enough =
        let same : (i : ℕ) → 0 + i ≡ i = λ i. omega arith in
        let (s, ended, count) =
          loop-written n fuel _ enough (omega arith)
            (λ i less. rw (same i, abandon, busy i less) refl) (rw (same n, abandon, alone) refl) in
        (s, ended, rw (same n) at count)

    -- With `--finish_after_writes` and 2^32 writes or more, the other conditions as for fewer
    -- writes, the writer never ends: its count of 32 bits does not reach that number.
    pub bg_writer-endless :
        (fuel : ℕ) (master : State e) (db : d.Db) (rand : t.Random) (gen : RandomGenerator)
        → f.finish_after_writes ≡ true
        → 2 ^ 32 ≤ f.writes
        → bg_writer e t d f shared fuel master db rand gen ≡ none
    unfolding bg_writer stops
    bg_writer-endless fuel master db rand gen finish large =
        loop-never fuel _ (omega arith) (λ seen w small. rw finish (ground (arith, large, small)))
