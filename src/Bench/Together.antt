-- ===== src/Bench/Together.antt =====
-- The workloads of integration/tools/db_bench_tool.cc in several threads over one `DB_MASTER`, as in
-- `ReadWhileWriting` and `SeekRandomWhileWriting`: rounds of their loops in any order, and between
-- them whatever else the master does. A round is one step here, though its calls may mix with others.
use kvaccel.Base.{◌≡◌, subst}
use kvaccel.Master.{Env, State}
use kvaccel.Master.Rollback.{Cursor}
use kvaccel.Master.Steps.{Step, Run, joined, IsSound, Run-IsSound}
use kvaccel.Bench.{Tools, going, Leaves}
use kvaccel.Bench.Mixed
use kvaccel.Bench.Mixed.{mixed_round}
use kvaccel.Bench.Reads
use kvaccel.Bench.Reads.{read_round}
use kvaccel.Bench.Seeks
use kvaccel.Bench.Seeks.{seek_round}
use kvaccel.Bench.Background
use kvaccel.Bench.Background.{PlainDb, background_round}
use kvaccel.Bench.Calls.{Calls, read_round-Calls, mixed_round-Calls}
use kvaccel.Bench.Graph
use kvaccel.Bench.Graph.{SeekDb, graph_round}
use kvaccel.Bench.Calls.Graph.{graph_round-Calls}
use kvaccel.Bench.Calls.Fill.{write_entry-Calls}
use kvaccel.Bench.Fill
use kvaccel.Bench.Fill.{Inputs}
use kvaccel.Bench.Fill.Entry.{write_entry}
use kvaccel.Bench.Calls.Seeks.{seek_round-Calls}
use kvaccel.Bench.Calls.Background.{background_round-Calls}

module _ (e : Env) (t : Tools) (d : PlainDb) (q : SeekDb) where
  -- A round of one of the threads, with whatever flags and local variables, or a step of the
  -- master's other users.
  pub data Move : State e → Cursor → State e → Cursor → Type 0 where
    reads :
        (g : Reads.Flags) (s s' : Reads.Locals e t g) (c : Cursor)
        → read_round e t g s ≡ going s'
        → Move s.master c s'.master c
    mixes :
        (f : Mixed.Flags) (s s' : Mixed.Locals e t) (c : Cursor)
        → mixed_round e t f s ≡ going s'
        → Move s.master c s'.master c
    seeks :
        (f : Seeks.Flags) (s s' : Seeks.Locals e t) (c : Cursor)
        → seek_round e t f s ≡ going s'
        → Move s.master c s'.master c
    writes :
        (f : Background.Flags) (s s' : Background.Locals e t d) (c : Cursor)
        → background_round e t d f s ≡ going s'
        → Move s.master c s'.master c
    fills :
        (f : Fill.Flags) (x : Inputs) (s s' : Fill.Locals e t) (c : Cursor)
        → write_entry e t f x s ≡ going s'
        → Move s.master c s'.master c
    graphs :
        (f : Graph.Flags) (s s' : Graph.Locals e t q) (c : Cursor)
        → graph_round e t q f s ≡ going s'
        → Move s.master c s'.master c
    others : {m m' : State e} {c c' : Cursor} → Step e m c m' c' → Move m c m' c'

  -- Any number of them.
  pub data Moves : State e → Cursor → State e → Cursor → Type 0 where
    nothing : (m : State e) (c : Cursor) → Moves m c m c
    more :
        {m₁ m₂ m₃ : State e} {c₁ c₂ c₃ : Cursor}
        → Moves m₁ c₁ m₂ c₂
        → Move m₂ c₂ m₃ c₃
        → Moves m₁ c₁ m₃ c₃

  Move-Run : {m m' : State e} {c c' : Cursor} → Move m c m' c' → Run e m c m' c'
  Move-Run (Move.reads g s s' c went) =
      subst (Leaves (λ s'. Calls e c s.master s'.master)) went (read_round-Calls e t c g s)
  Move-Run (Move.mixes f s s' c went) =
      subst (Leaves (λ s'. Calls e c s.master s'.master)) went (mixed_round-Calls e t c f s)
  Move-Run (Move.seeks f s s' c went) =
      subst (Leaves (λ s'. Calls e c s.master s'.master)) went (seek_round-Calls e t c f s)
  Move-Run (Move.writes f s s' c went) =
      subst (Leaves (λ s'. Calls e c s.master s'.master)) went (background_round-Calls e t c d f s)
  Move-Run (Move.fills f x s s' c went) =
      subst (Leaves (λ s'. Calls e c s.master s'.master)) went (write_entry-Calls e t f x c s)
  Move-Run (Move.graphs f s s' c went) =
      subst (Leaves (λ s'. Calls e c s.master s'.master)) went (graph_round-Calls e t c q f s)
  Move-Run (Move.others step) = Run.and_then step (Run.stop _ _)

  -- However rounds of `ReadRandom`, `ReadRandomWriteRandom`, `SeekRandom`, `MixGraph` and
  -- `BGWriter` and entries of `DoWrite`, with whatever flags and local variables, alternate with
  -- one another and with the steps of the master's other users: what they do to the master is a
  -- run of its calls and of the rounds of its rollback.
  pub Moves-Run : {m m' : State e} {c c' : Cursor} → Moves m c m' c' → Run e m c m' c'
  Moves-Run (Moves.nothing m c) = Run.stop m c
  Moves-Run (Moves.more before move) = joined e (Moves-Run before) (Move-Run move)

  -- However rounds of `ReadRandom`, `ReadRandomWriteRandom`, `SeekRandom`, `MixGraph` and
  -- `BGWriter` and entries of `DoWrite`, with whatever flags and local variables, alternate with
  -- one another and with the steps of the master's other users: a sound master stays sound.
  Moves-IsSound : {m m' : State e} {c c' : Cursor} → Moves m c m' c' → IsSound e m → IsSound e m'
  Moves-IsSound moves i = Run-IsSound e (Moves-Run moves) i
