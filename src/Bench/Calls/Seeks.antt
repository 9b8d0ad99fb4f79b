-- ===== src/Bench/Calls/Seeks.antt =====
-- Which calls of `DB_MASTER` a round of `SeekRandom` of integration/tools/db_bench_tool.cc makes.
use kvaccel.Base.{ℕ, zero, suc, ◌+◌, ◌==◌, ◌&&◌, not, inl, inr, Bool-cases, length, if◌then◌else◌}
use kvaccel.Base.Bytes.{Bytes}
use kvaccel.Master.{Env, State}
use kvaccel.Master.Iterate.{
  iterator_reset, iterator_seek, iterator_compare, iterator_key, iterator_value,
}
use kvaccel.Master.Rollback.{Cursor}
use kvaccel.Master.Steps.{Step, Run, joined}
use kvaccel.Bench.{Tools, Outcome, going, exits, undefined, Leaves, Leaves-given}
use kvaccel.Bench.Calls.{Calls, one}
use kvaccel.Bench.Seeks
use kvaccel.Bench.Seeks.{advance, read_nexts, seek_once, seek_round, seek_key}

module _ (e : Env) (t : Tools) (c : Cursor) where
  open e.main use {Iter}

  advance-Calls :
      (f : Seeks.Flags) (it : Iter) (s : Seeks.Locals e t)
      → Calls e c s.master (advance e t f it s).1.master
  unfolding advance
  advance-Calls f it s = elim (Bool-cases f.reverse_iterator) [
    | inl back ↦ rw back (Run.stop s.master c)
    | inr on ↦ rw on (one e c (Step.next s.master c it))
  ]

  -- More calls before what a round leaves.
  Leaves-after :
      {a b : State e} (o : Outcome (Seeks.Locals e t))
      → Calls e c a b
      → Leaves (λ s'. Calls e c b s'.master) o
      → Leaves (λ s'. Calls e c a s'.master) o
  Leaves-after (going s) first rest = joined e first rest
  Leaves-after (exits s) first rest = joined e first rest
  Leaves-after undefined first rest = tt

  read_nexts-Calls :
      (f : Seeks.Flags) (n : ℕ) (it : Iter) (s : Seeks.Locals e t)
      → Leaves (λ s'. Calls e c s.master s'.master) (read_nexts e t f n it s)
  unfolding read_nexts
  read_nexts-Calls f zero it s = Run.stop s.master c
  read_nexts-Calls f (suc n) it s =
      let value = iterator_value e it s.master in
      let key = iterator_key e it s.master in
      let s₁ : Seeks.Locals e t = record s { bytes = s.bytes + (length key + length value) } in
      let (it', s₂) = advance e t f it s₁ in
      elim (Bool-cases (s.master.iter_location == 0 && not (e.main.valid it))) [
        | inl asks ↦ rw asks tt
        | inr fine ↦ rw fine (
            Leaves-after (read_nexts e t f n it' s₂) (advance-Calls f it s₁)
              (read_nexts-Calls f n it' s₂))
      ]

  seek_once-Calls :
      (f : Seeks.Flags) (s : Seeks.Locals e t) (key : Bytes)
      → Leaves (λ s'. Calls e c s.master s'.master) (seek_once e t f s key)
  unfolding seek_once
  seek_once-Calls f s key =
      let (fresh, m) = iterator_reset e s.master in
      let (it, m') = iterator_seek e fresh m key in
      let s₁ : Seeks.Locals e t = record s {
        master = m';
        read = s.read + 1;
        found = if iterator_compare e it m' key then s.found + 1 else s.found;
      } in
      let begun : Calls e c s.master m' =
        Run.and_then (Step.new_iter s.master c) (one e c (Step.seek m c fresh key)) in
      elim (Bool-cases f.use_tailing_iterator) [
        | inl tailing ↦ rw tailing tt
        | inr plain ↦ rw plain (
            Leaves-after (read_nexts e t f f.seek_nexts it s₁) begun
              (read_nexts-Calls f f.seek_nexts it s₁))
      ]

  pub seek_round-Calls :
      (f : Seeks.Flags) (s : Seeks.Locals e t)
      → Leaves (λ s'. Calls e c s.master s'.master) (seek_round e t f s)
  unfolding seek_round
  seek_round-Calls f s =
      let (number, rand) = t.next s.rand in
      Leaves-given (λ s'. Calls e c s.master s'.master) (seek_key f number)
        (seek_once e t f (record s { rand = rand }))
        (λ key. seek_once-Calls f (record s { rand = rand }) key)
