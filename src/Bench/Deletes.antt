-- ===== src/Bench/Deletes.antt =====
-- `DoDelete` of integration/tools/db_bench_tool.cc (`deleteseq`, `deleterandom`), over `db_.db` and
-- without timestamps.
pub mod Gone
use kvaccel.Base.{
  ℕ, zero, suc, ◌+◌, ◌%◌, Bool, true, false, Option, some, none, List, [], ◌∷◌, ◌==◌, if◌then◌else◌,
}
use kvaccel.Base.Bytes.{Bytes}
use kvaccel.Rocks.{is_ok}
use kvaccel.Bench.{
  KeySpec, Tools, Outcome, going, exits, given, loop_on, random_key, generate_key_from_int,
}
use kvaccel.Bench.Duration.{Duration, start, done}
use kvaccel.Bench.Many.{BatchDb}

-- `num` is `FLAGS_num`.
pub record Flags : Type 0 where
  pub spec : KeySpec
  pub num : ℕ
  pub deletes : ℕ
  pub duration : ℕ
  pub granularity : ℕ
  pub entries_per_batch : ℕ

module _ (t : Tools) (b : BatchDb) (f : Flags) where
  open t use {Random, next}
  open b use {Db, write}

  pub record Locals : Type 0 where
    pub db : Db
    pub rand : Random
    pub i : ℕ
    pub clock_reads : ℕ

  abbrev pub Ops : Type 0
  Ops = List (Bytes × Option Bytes)

  abbrev with_delete : Option Bytes → Option Ops × Random → Option Ops × Random
  with_delete none (ops, rand) = (none, rand)
  with_delete (some key) (none, rand) = (none, rand)
  with_delete (some key) (some ops, rand) = (some ((key, none) ∷ ops), rand)

  -- The inner loop, with so many entries to go, from the number `k` on if the keys are in order.
  unfoldable pub fill_batch : Bool → ℕ → ℕ → Random → Option Ops × Random
  fill_batch seq zero k rand = (some [], rand)
  fill_batch seq (suc n) k rand =
      let (number, rand') = next rand in
      let in_order =
        with_delete (generate_key_from_int f.spec k f.num) (fill_batch seq n (k + 1) rand) in
      let random = with_delete (random_key f.spec f.num number) (fill_batch seq n (k + 1) rand') in
      if seq then in_order else random

  -- The body of the loop; `SelectDB` takes a number of its own.
  unfoldable pub delete_round : Bool → Locals → Outcome Locals
  unfolding fill_batch
  delete_round seq s =
      let (batch, rand) = fill_batch seq f.entries_per_batch s.i (next s.rand).1 in
      given batch (λ ops.
        let (status, db) = write s.db ops in
        let s' : Locals = record s { db = db; rand = rand } in
        if is_ok status then going (record s' { i = s.i + f.entries_per_batch }) else exits s')

  module _ (clock : ℕ → ℕ) where
    unfoldable pub delete_loop : Bool → ℕ → Duration → Locals → Option (Outcome Locals)
    unfolding delete_round
    delete_loop seq zero d s = none
    delete_loop seq (suc fuel) d s =
        let (over, d') = done f.granularity f.entries_per_batch (clock s.clock_reads) d in
        let s' : Locals = record s { clock_reads = s.clock_reads + 1 } in
        let rest = loop_on (delete_round seq s') (delete_loop seq fuel d') in
        if over then some (going s) else rest

    unfoldable pub do_delete : Bool → ℕ → Db → Random → Option (Outcome Locals)
    unfolding delete_loop
    do_delete seq fuel db rand =
        let duration = if seq then 0 else f.duration in
        delete_loop seq fuel (start duration f.deletes 0 (clock 0))
          (record { db = db; rand = rand; i = 0; clock_reads = 1 })
