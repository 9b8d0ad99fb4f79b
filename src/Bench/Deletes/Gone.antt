-- ===== src/Bench/Deletes/Gone.antt =====
-- What `deleteseq` of integration/tools/db_bench_tool.cc leaves of its keys.
use kvaccel.Base.{
  ℕ, zero, suc, ◌+◌, ◌*◌, ◌/◌, ◌<◌, ◌≤◌, ◌≡◌, refl, ◌∙◌, ap, true, false, Option, some, none, List,
  [], ◌∷◌, ltb, ◌==◌, arith, inl, inr, Bool-cases,
}
use native.Mathlib.Nat.{suc-mul, div-add-mod', mod-lt, div-le_self}
use kvaccel.Base.Bytes.{Bytes, bytes_eq, bytes_eq_refl}
use kvaccel.Rocks.{Status, ok, not_found}
use kvaccel.Bench.{Tools, going, fill_field}
use kvaccel.Bench.Keys.{generate-plain}
use kvaccel.Bench.Duration.{Duration, start, done, done-untimed, step_of_self}
use kvaccel.Bench.Many.{BatchDb, IsBatchDb, replayed}
use kvaccel.Bench.Deletes.{Flags, Locals, fill_batch, delete_round, delete_loop, do_delete}

-- The keys are generated, and there is an entry in a batch.
pub record IsPlain (f : Flags) : Type 0 where
  pub no_keys : f.spec.keys ≡ []
  pub no_prefix : f.spec.keys_per_prefix ≡ 0
  pub some_entries : 0 < f.entries_per_batch

module _ (t : Tools) (b : BatchDb) (f : Flags) where
  abbrev L : Type 0
  L = Locals t b f

  abbrev gone : Status × Bytes
  gone = (not_found, [])

  -- The deletes of the keys of `n` numbers from `k` on.
  abbrev deletes : ℕ → ℕ → List (Bytes × Option Bytes)
  deletes zero k = []
  deletes (suc n) k = (fill_field f.spec.key_size k, none) ∷ deletes n (k + 1)

  -- What a new snapshot shows.
  abbrev pub read_back : b.Db → Bytes → Status × Bytes
  read_back d k = b.get (b.get_snapshot d).1 (b.get_snapshot d).0 k

  replayed-gone : (n k : ℕ) (key : Bytes) → replayed (deletes n k) key gone ≡ gone
  replayed-gone zero k key = refl
  replayed-gone (suc n) k key = elim (Bool-cases (bytes_eq (fill_field f.spec.key_size k) key)) [
    | inl here ↦ rw (here, replayed) (replayed-gone n (k + 1) key)
    | inr other ↦ rw (other, replayed) (replayed-gone n (k + 1) key)
  ]

  -- A key whose number is among them is gone.
  replayed-deletes :
      (n k w : ℕ) (a : Status × Bytes)
      → k ≤ w
      → w < k + n
      → replayed (deletes n k) (fill_field f.spec.key_size w) a ≡ gone
  replayed-deletes zero k w a least most = absurd (omega arith)
  replayed-deletes (suc n) k w a least most = elim (Bool-cases (k == w)) [
    | inl same ↦
        let k_is_w : k ≡ w = ground (arith, same) in
        let here : bytes_eq (fill_field f.spec.key_size k) (fill_field f.spec.key_size w) ≡ true =
          rw k_is_w (bytes_eq_refl (fill_field f.spec.key_size w)) in
        rw (here, replayed) (replayed-gone n (k + 1) (fill_field f.spec.key_size w))
    | inr other ↦ replayed-deletes n (k + 1) w _ (ground (arith, other)) (omega arith)
  ]

  module _ (p : IsPlain f) (store : IsBatchDb b)
      (takes : (d : b.Db) (ops : List (Bytes × Option Bytes)) → (b.write d ops).0 ≡ ok) where
    fill_batch-deletes :
        (n k : ℕ) (rand : t.Random) → fill_batch t b f true n k rand ≡ (some (deletes n k), rand)
    unfolding fill_batch
    fill_batch-deletes zero k rand = refl
    fill_batch-deletes (suc n) k rand =
        rw (generate-plain f.spec k f.num p.no_keys p.no_prefix, fill_batch-deletes n (k + 1) rand)
          refl

    -- The keys of all numbers below are gone.
    AreGone : ℕ → b.Db → Type 0
    AreGone n d = (w : ℕ) → w < n → read_back d (fill_field f.spec.key_size w) ≡ gone

    AreGone-write : (n k : ℕ) (d : b.Db) → AreGone k d → AreGone (k + n) (b.write d (deletes n k)).1
    unfolding AreGone
    AreGone-write n k d before w less =
        store.get-write d (deletes n k) (fill_field f.spec.key_size w) (takes d (deletes n k))
        ∙ elim (Bool-cases (ltb w k)) [
          | inl old ↦
              ap (replayed (deletes n k) (fill_field f.spec.key_size w))
                (before w (ground (arith, old)))
              ∙ replayed-gone n k (fill_field f.spec.key_size w)
          | inr new ↦ replayed-deletes n k w _ (ground (arith, new)) less
        ]

    delete_round-AreGone :
        (s : L)
        → AreGone s.i s.db
        → (s' : L) × (delete_round t b f true s ≡ going s')
          × (s'.i ≡ s.i + f.entries_per_batch)
          × AreGone s'.i s'.db
    unfolding delete_round
    delete_round-AreGone s before =
        rw (fill_batch-deletes f.entries_per_batch s.i (t.next s.rand).1, takes)
          (_, refl, refl, AreGone-write f.entries_per_batch s.i s.db before)

    done-batch :
        (now : ℕ) (d : Duration)
        → d.max_seconds ≡ 0
        → done f.granularity f.entries_per_batch now d ≡ (
          ltb d.max_ops (d.ops + f.entries_per_batch),
          record d { ops = d.ops + f.entries_per_batch },
        )
    done-batch now d untimed =
        done-untimed f.granularity f.entries_per_batch now d untimed
        ∙ ap (λ n. (ltb d.max_ops (d.ops + n), record d { ops = d.ops + n }))
            (step_of_self f.entries_per_batch p.some_entries)

    module _ (clock : ℕ → ℕ) where
      -- With `n` rounds to go.
      delete_loop-AreGone :
          (n fuel : ℕ) (d : Duration) (s : L)
          → d.max_seconds ≡ 0
          → d.ops + n * f.entries_per_batch ≤ d.max_ops
          → d.max_ops < d.ops + n * f.entries_per_batch + f.entries_per_batch
          → n < fuel
          → AreGone s.i s.db
          → (s' : L) × (delete_loop t b f clock true fuel d s ≡ some (going s'))
            × (s'.i ≡ s.i + n * f.entries_per_batch)
            × AreGone s'.i s'.db
      unfolding delete_loop
      delete_loop-AreGone n zero d s untimed fits full enough before = absurd (omega arith)
      delete_loop-AreGone zero (suc fuel) d s untimed fits full enough before =
          let over : ltb d.max_ops (d.ops + f.entries_per_batch) ≡ true = ground (arith, full) in
          (s, rw (done-batch (clock s.clock_reads) d untimed, over) refl, omega arith, before)
      delete_loop-AreGone (suc n) (suc fuel) d s untimed fits full enough before =
          let parts = suc-mul n f.entries_per_batch in
          let more : ltb d.max_ops (d.ops + f.entries_per_batch) ≡ false =
            ground (arith, parts, fits) in
          let (s₁, round, count, gone₁) =
            delete_round-AreGone (record s { clock_reads = s.clock_reads + 1 }) before in
          let (s₂, rest, counted, gone₂) =
            delete_loop-AreGone n fuel (record d { ops = d.ops + f.entries_per_batch }) s₁ untimed
              (omega (arith, parts, fits)) (omega (arith, parts, full)) (omega arith) gone₁ in
          (
            s₂,
            rw (done-batch (clock s.clock_reads) d untimed, more, round) rest,
            omega (arith, count, counted, parts),
            gone₂,
          )

      -- Over a database as RocksDB documents it that takes every batch, with keys that are
      -- generated without a prefix and batches that are not empty, `deleteseq` ends on any fuel
      -- above `--deletes` without an error, and the key of every number that whole batches cover
      -- reads as NotFound afterwards.
      pub read_back-do_delete :
          (fuel w : ℕ) (db : b.Db) (rand : t.Random)
          → f.deletes < fuel
          → w < f.deletes / f.entries_per_batch * f.entries_per_batch
          → (s : L) × (do_delete t b f clock true fuel db rand ≡ some (going s))
            × (read_back s.db (fill_field f.spec.key_size w) ≡ (not_found, []))
      unfolding do_delete start AreGone
      read_back-do_delete fuel w db rand enough covered =
          let rounds = f.deletes / f.entries_per_batch in
          let parts = div-add-mod' f.deletes f.entries_per_batch in
          let small = mod-lt f.deletes p.some_entries in
          let (s, ran, count, are_gone) =
            delete_loop-AreGone rounds fuel (start 0 f.deletes 0 (clock 0)) _ refl
              (omega (arith, parts)) (omega (arith, parts, small))
              (omega (arith, enough, div-le_self f.deletes f.entries_per_batch))
              (λ v none_below. absurd (omega (arith, none_below))) in
          (s, ran, are_gone w (omega (arith, count, covered)))
