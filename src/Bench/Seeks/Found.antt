-- ===== src/Bench/Seeks/Found.antt =====
-- What `SeekRandom` of integration/tools/db_bench_tool.cc finds in a store that was filled.
use kvaccel.Base.{
  ℕ, zero, suc, ◌+◌, ◌%◌, ◌<◌, ◌≡◌, refl, ◌∙◌, subst, true, false, some, [], ltb, ◌==◌, arith,
}
use native.Mathlib.Nat.{mod-lt}
use kvaccel.Base.Bytes.{Bytes, bytes_eq_refl}
use kvaccel.Rocks.{MainLsm, is_ok}
use kvaccel.Master.{Env, State}
use kvaccel.Master.Iterate.{iterator_reset, iterator_seek, iterator_compare, iterator_destroy}
use kvaccel.Bench.{Tools, going, fill_field, generate_key_for_seek}
use kvaccel.Bench.Keys.{generate-plain}
use kvaccel.Bench.Duration.{Duration, start, done-one}
use kvaccel.Bench.Seeks.{
  Flags, Locals, seek_key, read_nexts, seek_once, seek_round, seek_loop, seek_random,
}

-- What RocksDB documents of `Seek` on a new iterator: it stands on the key that it sought, where
-- that key is there.
pub record IsSeekable (m : MainLsm) : Type 0 where
  pub seek-there :
      (s : m.State) (k : Bytes)
      → is_ok (m.get s k).0 ≡ true
      → (m.valid (m.seek (m.new_iterator s) k) ≡ true) × (m.key (m.seek (m.new_iterator s) k) ≡ k)

-- The flags of plain seeks.
pub record IsPlain (f : Flags) : Type 0 where
  pub no_keys : f.spec.keys ≡ []
  pub no_prefix : f.spec.keys_per_prefix ≡ 0
  pub untimed : f.duration ≡ 0
  pub some_keys : 0 < f.num
  pub no_missing : f.seek_missing_prefix ≡ false
  pub no_nexts : f.seek_nexts ≡ 0
  pub no_tailing : f.use_tailing_iterator ≡ false

module _ (e : Env) (t : Tools) (f : Flags) where
  abbrev L : Type 0
  L = Locals e t

  -- Everything that was sought so far was found, and so is all that can be asked for.
  pub record IsAllFound (n : ℕ) (s : L) : Type 0 where
    pub unstalled : s.master.kache_flag ≡ 0
    pub read : s.read ≡ n
    pub found : s.found ≡ n
    pub stored :
        (i : ℕ)
        → i < f.num
        → is_ok (e.main.get s.master.main (fill_field f.spec.key_size i)).0 ≡ true

  compare-seek :
      (m : State e) (k : Bytes)
      → IsSeekable e.main
      → m.kache_flag ≡ 0
      → is_ok (e.main.get m.main k).0 ≡ true
      → (let r = iterator_reset e m in
          let i = iterator_seek e r.0 r.1 k in (iterator_compare e i.0 i.1 k ≡ true) × (i.1 ≡ m))
  unfolding iterator_reset iterator_seek iterator_compare
  compare-seek m k seekable unstalled there =
      let (valid, same) = seekable.seek-there m.main k there in
      rw (unstalled, valid, same, bytes_eq_refl k) (refl, refl)

  module _ (seekable : IsSeekable e.main) (p : IsPlain f) where
    IsAllFound-seek_once :
        (n v : ℕ) (s : L)
        → v < f.num
        → IsAllFound n s
        → (s' : L) × (seek_once e t f s (fill_field f.spec.key_size v) ≡ going s')
          × IsAllFound (n + 1) s'
    unfolding seek_once read_nexts
    IsAllFound-seek_once n v s less i =
        let (found, same) =
          compare-seek s.master (fill_field f.spec.key_size v) seekable i.unstalled
            (i.stored v less) in
        rw (p.no_tailing, p.no_nexts, found, same)
          (
            _,
            refl,
            record {
              unstalled = i.unstalled;
              read = omega (arith, i.read);
              found = omega (arith, i.found);
              stored = i.stored;
            },
          )

    seek_key-plain :
        (number : ℕ) → seek_key f number ≡ some (fill_field f.spec.key_size (number % f.num))
    unfolding seek_key generate_key_for_seek
    seek_key-plain number =
        let some_keys : (f.num == 0) ≡ false = ground (arith, p.some_keys) in
        rw (some_keys, p.no_missing)
          (generate-plain f.spec (number % f.num) f.num p.no_keys p.no_prefix)

    IsAllFound-seek_round :
        (n : ℕ) (s : L)
        → IsAllFound n s
        → (s' : L) × (seek_round e t f s ≡ going s') × IsAllFound (n + 1) s'
    unfolding seek_round
    IsAllFound-seek_round n s i =
        let (number, rand) = t.next s.rand in
        rw (seek_key-plain number) (
          IsAllFound-seek_once n (number % f.num) (record s { rand = rand })
            (mod-lt number p.some_keys)
            (record { unstalled = i.unstalled; read = i.read; found = i.found; stored = i.stored }))

    module _ (clock : ℕ → ℕ) where
      -- With `m` rounds to go.
      seek_loop-found :
          (m fuel n : ℕ) (d : Duration) (s : L)
          → d.max_seconds ≡ 0
          → d.ops + m ≡ d.max_ops
          → m < fuel
          → IsAllFound n s
          → (s' : L) × (seek_loop e t f clock fuel d s ≡ some (going s')) × IsAllFound (n + m) s'
      unfolding seek_loop
      seek_loop-found m zero n d s untimed left enough i = absurd (omega arith)
      seek_loop-found zero (suc fuel) n d s untimed left enough i =
          let over : ltb d.max_ops (d.ops + 1) ≡ true = ground (arith, left) in
          (
            s,
            rw (done-one f.granularity (clock s.clock_reads) d untimed, over) refl,
            subst (λ k. IsAllFound k s) (omega arith) i,
          )
      seek_loop-found (suc m) (suc fuel) n d s untimed left enough i =
          let more : ltb d.max_ops (d.ops + 1) ≡ false = ground (arith, left) in
          let (s₁, round, i₁) =
            IsAllFound-seek_round n (record s { clock_reads = s.clock_reads + 1 })
              (record {
                unstalled = i.unstalled;
                read = i.read;
                found = i.found;
                stored = i.stored;
              }) in
          let (s₂, rest, i₂) =
            seek_loop-found m fuel (n + 1) (record d { ops = d.ops + 1 }) s₁ untimed
              (omega (arith, left)) (omega arith) i₁ in
          (
            s₂,
            rw (done-one f.granularity (clock s.clock_reads) d untimed, more, round) rest,
            subst (λ k. IsAllFound k s₂) (omega arith) i₂,
          )

      -- Plain random seeks without a time limit, on a master whose Dev-LSM is empty and whose
      -- Main-LSM holds the key of every number below `--num`: with fuel above the number of seeks
      -- they end without an error, and all of them are done and find their keys.
      pub found-seek_random :
          (fuel : ℕ) (master : State e) (rand : t.Random)
          → f.reads < fuel
          → master.kache_flag ≡ 0
          → ((i : ℕ)
              → i < f.num
              → is_ok (e.main.get master.main (fill_field f.spec.key_size i)).0 ≡ true)
          → (s : L) × (seek_random e t f clock fuel master rand ≡ some (going s))
            × (s.read ≡ f.reads)
            × (s.found ≡ f.reads)
      unfolding seek_random start
      found-seek_random fuel master rand enough unstalled stored =
          let fresh : L = record {
            master = master;
            rand = rand;
            read = 0;
            found = 0;
            bytes = 0;
            clock_reads = 1;
          } in
          let (s, ran, i) =
            seek_loop-found f.reads fuel 0 (start f.duration f.reads 0 (clock 0)) fresh p.untimed
              (omega arith) enough
              (record { unstalled = unstalled; read = refl; found = refl; stored = stored }) in
          (
            record s { master = iterator_destroy e s.master },
            rw ran refl,
            i.read ∙ omega arith,
            i.found ∙ omega arith,
          )
