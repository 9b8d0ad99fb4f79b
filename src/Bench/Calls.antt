-- ===== src/Bench/Calls.antt =====
-- Which calls of `DB_MASTER` the rounds of the workloads of integration/tools/db_bench_tool.cc make:
-- here those of `ReadRandom` and `ReadRandomWriteRandom`.
pub mod Seeks
pub mod Background
pub mod Fill
pub mod Graph
use kvaccel.Base.{ℕ, ◌≡◌, subst, inl, inr, Bool-cases, if◌then◌else◌, ltb, arith, ◌==◌, none, []}
use kvaccel.Base.Bytes.{Bytes}
use kvaccel.Rocks.{is_ok}
use kvaccel.Master.{Env, State}
use kvaccel.Master.Write.{put}
use kvaccel.Master.Rollback.{Cursor}
use kvaccel.Master.Steps.{Step, Run}
use kvaccel.Bench.{Tools, going, Leaves, Leaves-given, generate_key_from_int}
use kvaccel.Bench.Values.{generate_sized}
use kvaccel.Bench.Mixed
use kvaccel.Bench.Mixed.{mixed_round, refill, one_op, read_one, write_one}
use kvaccel.Bench.Mixed.Ratio.{before_op, mixed_round-Leaves}
use kvaccel.Bench.Reads
use kvaccel.Bench.Reads.{read_round, read_key, choose_key}

module _ (e : Env) (c : Cursor) where
  -- The calls of the master that lead from one state to another; no round of a rollback.
  abbrev pub Calls : State e → State e → Type 0
  Calls m m' = Run e m c m' c

  pub one : {m m' : State e} → Step e m c m' c → Calls m m'
  one step = Run.and_then step (Run.stop _ c)

module _ (e : Env) (t : Tools) (c : Cursor) where
  choose_key-master :
      (g : Reads.Flags) (s : Reads.Locals e t g) → (choose_key e t g s).master ≡ s.master
  unfolding choose_key
  choose_key-master g s = ground arith

  pub read_round-Calls :
      (g : Reads.Flags) (s : Reads.Locals e t g)
      → Leaves (λ s'. Calls e c s.master s'.master) (read_round e t g s)
  unfolding read_round read_key
  read_round-Calls g s =
      let s₁ : Reads.Locals e t g = choose_key e t g (record s { rand = (t.next s.rand).1 }) in
      Leaves-given (λ s'. Calls e c s.master s'.master)
        (if g.num == 0 then none else generate_key_from_int g.spec s₁.key_rand g.num)
        (λ key. going (read_key e t g key s₁))
        (λ key.
          subst (λ m. Calls e c m (read_key e t g key s₁).master)
            (choose_key-master g (record s { rand = (t.next s.rand).1 }))
            (one e c (Step.read s₁.master c key [])))

  write_one-Calls :
      (f : Mixed.Flags) (s : Mixed.Locals e t) (key : Bytes)
      → Leaves (λ s'. Calls e c s.master s'.master) (write_one e t f s key)
  unfolding write_one
  write_one-Calls f s key =
      let value = (generate_sized f.sizes (t.drawn s.writes_done) s.gen).0 in
      let write : Calls e c s.master (put e s.master key value).1 =
        one e c (Step.write s.master c key value) in
      elim (Bool-cases (is_ok (put e s.master key value).0)) [
        | inl done ↦ rw done write
        | inr refused ↦ rw refused write
      ]

  one_op-Calls :
      (f : Mixed.Flags) (s : Mixed.Locals e t) (key : Bytes)
      → Leaves (λ s'. Calls e c s.master s'.master) (one_op e t f s key)
  unfolding one_op read_one
  one_op-Calls f s key = elim (Bool-cases (ltb 0 s.get_weight)) [
    | inl gets_left ↦ rw gets_left (one e c (Step.read s.master c key s.value))
    | inr gone ↦ rw gone (elim (Bool-cases (ltb 0 s.put_weight)) [
      | inl puts_left ↦ rw puts_left (write_one-Calls f s key)
      | inr none_left ↦ rw none_left (Run.stop s.master c)
    ])
  ]

  master-refill : (p : ℕ) (s : Mixed.Locals e t) → (refill e t p s).master ≡ s.master
  unfolding refill
  master-refill p s = ground arith

  pub mixed_round-Calls :
      (f : Mixed.Flags) (s : Mixed.Locals e t)
      → Leaves (λ s'. Calls e c s.master s'.master) (mixed_round e t f s)
  mixed_round-Calls f s =
      let s₁ : Mixed.Locals e t = record s { rand = (t.next (t.next s.rand).1).1 } in
      mixed_round-Leaves e t (λ s'. Calls e c s.master s'.master) f s
        (λ key.
          subst (λ m. Leaves (λ s'. Calls e c m s'.master) (one_op e t f (before_op e t f s) key))
            (master-refill f.readwritepercent s₁) (one_op-Calls f (before_op e t f s) key))
