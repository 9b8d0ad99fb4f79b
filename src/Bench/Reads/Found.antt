-- ===== src/Bench/Reads/Found.antt =====
-- What `ReadRandom` of integration/tools/db_bench_tool.cc finds in a store that was filled.
use kvaccel.Base.{
  ℕ, zero, suc, ◌+◌, ◌<◌, ◌≡◌, refl, ◌∙◌, subst, inl, inr, Bool-cases, ◌&&◌, true, false, some, [],
  ltb, ◌==◌, arith,
}
use native.Mathlib.Nat.{mod-lt}
use kvaccel.Base.Bytes.{Bytes}
use kvaccel.Rocks.{ok, is_ok}
use kvaccel.Master.{Env, State}
use kvaccel.Master.Write.{get}
use kvaccel.Bench.{Tools, going, fill_field}
use kvaccel.Bench.Keys.{generate-plain}
use kvaccel.Bench.Duration.{Duration, start, done-one}
use kvaccel.Bench.Reads.{
  Flags, Locals, get_random_key, choose_key, read_key, read_round, read_loop, read_random,
}

-- The flags of plain random reads.
pub record IsPlain (f : Flags) : Type 0 where
  pub no_keys : f.spec.keys ≡ []
  pub no_prefix : f.spec.keys_per_prefix ≡ 0
  pub no_stride : f.multiread_stride ≡ 0
  pub untimed : f.duration ≡ 0
  pub some_keys : 0 < f.num

module _ (e : Env) (t : Tools) (f : Flags) where
  abbrev L : Type 0
  L = Locals e t f

  -- Everything that was read so far was found, and so is all that can be asked for.
  pub record IsAllFound (n : ℕ) (s : L) : Type 0 where
    pub unstalled : s.master.kache_flag ≡ 0
    pub read : s.read ≡ n
    pub found : s.found ≡ n
    pub stored :
        (i : ℕ)
        → i < f.num
        → is_ok (e.main.get s.master.main (fill_field f.spec.key_size i)).0 ≡ true

  get-found :
      (m : State e) (key value : Bytes)
      → m.kache_flag ≡ 0
      → is_ok (e.main.get m.main key).0 ≡ true
      → ((get e m key value).0 ≡ ok)
        × ((get e m key value).2.main ≡ m.main)
        × ((get e m key value).2.kache_flag ≡ 0)
  unfolding get
  get-found m key value unstalled there = rw (unstalled, there) (refl, refl, refl)

  module _ (p : IsPlain f) where
    get_random_key-lt : (number : ℕ) → get_random_key f number < f.num
    unfolding get_random_key
    get_random_key-lt number = elim (Bool-cases f.exponential) [
      | inl skewed ↦ rw skewed (mod-lt _ p.some_keys)
      | inr even ↦ rw even (mod-lt number p.some_keys)
    ]

    choose_key-plain :
        (s : L)
        → choose_key e t f s
          ≡ record s { rand = (t.next s.rand).1; key_rand = get_random_key f (t.next s.rand).0 }
    unfolding choose_key
    choose_key-plain s =
        let strided : (ltb 1 f.entries_per_batch && ltb 0 f.multiread_stride) ≡ false =
          ground (arith, p.no_stride) in
        rw strided refl

    IsAllFound-read_key :
        (n v : ℕ) (s : L)
        → v < f.num
        → IsAllFound n s
        → IsAllFound (n + 1) (read_key e t f (fill_field f.spec.key_size v) s)
    unfolding read_key
    IsAllFound-read_key n v s less i =
        let key = fill_field f.spec.key_size v in
        let (found, main, flag) = get-found s.master key [] i.unstalled (i.stored v less) in
        record {
          unstalled = flag;
          read = omega (arith, i.read);
          found = rw found (omega (arith, i.found));
          stored = λ j less'. rw main (i.stored j less');
        }

    IsAllFound-read_round :
        (n : ℕ) (s : L)
        → IsAllFound n s
        → (s' : L) × (read_round e t f s ≡ going s') × IsAllFound (n + 1) s'
    unfolding read_round
    IsAllFound-read_round n s i =
        let r = (t.next s.rand).1 in
        let v = get_random_key f (t.next r).0 in
        let s₁ : L = record s { rand = (t.next r).1; key_rand = v } in
        let i₁ : IsAllFound n s₁ = record {
          unstalled = i.unstalled;
          read = i.read;
          found = i.found;
          stored = i.stored;
        } in
        let some_keys : (f.num == 0) ≡ false = ground (arith, p.some_keys) in
        (
          read_key e t f (fill_field f.spec.key_size v) s₁,
          rw
              (
                choose_key-plain (record s { rand = r }),
                some_keys,
                generate-plain f.spec v f.num p.no_keys p.no_prefix,
              )
              refl,
          IsAllFound-read_key n v s₁ (get_random_key-lt (t.next r).0) i₁,
        )

    module _ (clock : ℕ → ℕ) where
      -- With `m` rounds to go.
      read_loop-found :
          (m fuel n : ℕ) (d : Duration) (s : L)
          → d.max_seconds ≡ 0
          → d.ops + m ≡ d.max_ops
          → m < fuel
          → IsAllFound n s
          → (s' : L) × (read_loop e t f clock fuel d s ≡ some (going s')) × IsAllFound (n + m) s'
      unfolding read_loop
      read_loop-found m zero n d s untimed left enough i = absurd (omega arith)
      read_loop-found zero (suc fuel) n d s untimed left enough i =
          let over : ltb d.max_ops (d.ops + 1) ≡ true = ground (arith, left) in
          (
            s,
            rw (done-one f.granularity (clock s.clock_reads) d untimed, over) refl,
            subst (λ k. IsAllFound k s) (omega arith) i,
          )
      read_loop-found (suc m) (suc fuel) n d s untimed left enough i =
          let more : ltb d.max_ops (d.ops + 1) ≡ false = ground (arith, left) in
          let i₀ : IsAllFound n (record s { clock_reads = s.clock_reads + 1 }) = record {
            unstalled = i.unstalled;
            read = i.read;
            found = i.found;
            stored = i.stored;
          } in
          let (s₁, round, i₁) = IsAllFound-read_round n _ i₀ in
          let (s₂, rest, i₂) =
            read_loop-found m fuel (n + 1) (record d { ops = d.ops + 1 }) s₁ untimed
              (omega (arith, left)) (omega arith) i₁ in
          (
            s₂,
            rw (done-one f.granularity (clock s.clock_reads) d untimed, more, round) rest,
            subst (λ k. IsAllFound k s₂) (omega arith) i₂,
          )

      -- Plain random reads without a time limit, on a master whose Dev-LSM is empty and whose
      -- Main-LSM holds the key of every number below `--num`: with fuel above the number of reads
      -- they end without an error, and all of them are done and find their keys.
      pub found-read_random :
          (fuel : ℕ) (master : State e) (rand : t.Random)
          → f.reads < fuel
          → master.kache_flag ≡ 0
          → ((i : ℕ)
              → i < f.num
              → is_ok (e.main.get master.main (fill_field f.spec.key_size i)).0 ≡ true)
          → (s : L) × (read_random e t f clock fuel master rand ≡ some (going s))
            × (s.read ≡ f.reads)
            × (s.found ≡ f.reads)
      unfolding read_random start
      found-read_random fuel master rand enough unstalled stored =
          let (s, ran, i) =
            read_loop-found f.reads fuel 0 (start f.duration f.reads 0 (clock 0)) _ p.untimed
              (omega arith) enough
              (record { unstalled = unstalled; read = refl; found = refl; stored = stored }) in
          (s, ran, i.read ∙ omega arith, i.found ∙ omega arith)
