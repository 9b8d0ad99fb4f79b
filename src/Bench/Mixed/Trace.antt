-- ===== src/Bench/Mixed/Trace.antt =====
-- `ReadRandomWriteRandom` of integration/tools/db_bench_tool.cc as a whole: any number of its rounds,
-- and what they leave of the master, while its other callers and threads go on.
use kvaccel.Base.{◌+◌, ◌*◌, ◌/◌, ◌%◌, ◌≤◌, ◌<◌, ◌≡◌, subst, arith}
use Prim.Native.Nat.{min}
use kvaccel.Master.{Env, State}
use kvaccel.Master.Rollback.{Cursor}
use kvaccel.Master.Steps.{Step, Run, IsSound, Run-IsSound}
use kvaccel.Bench.{going, Leaves, Tools}
use kvaccel.Bench.Mixed.{Flags, Locals, mixed_round}
use kvaccel.Bench.Calls.{Calls, mixed_round-Calls}
use kvaccel.Bench.Mixed.Ratio.{IsBalanced, divided, mixed_round-IsBalanced}

module _ (e : Env) (t : Tools) where
  -- Rounds of the workload, between which the master's other callers and threads take steps.
  pub data Trace (f : Flags) (s₀ : Locals e t) : Locals e t → Cursor → Type 0 where
    begins :
        (c : Cursor)
        → s₀.reads_done ≡ 0
        → s₀.writes_done ≡ 0
        → s₀.get_weight ≡ 0
        → s₀.put_weight ≡ 0
        → Trace f s₀ s₀ c
    goes :
        {s s' : Locals e t} {c : Cursor}
        → Trace f s₀ s c
        → mixed_round e t f s ≡ going s'
        → Trace f s₀ s' c
    others :
        {s : Locals e t} {c c' : Cursor} {m : State e}
        → Trace f s₀ s c
        → Step e s.master c m c'
        → Trace f s₀ (record s { master = m }) c'

  Trace-IsBalanced :
      (f : Flags) (s₀ s : Locals e t) (c : Cursor)
      → f.readwritepercent ≤ 100
      → Trace f s₀ s c
      → IsBalanced e t f.readwritepercent s
  Trace-IsBalanced f s₀ s c small (Trace.begins _ reads writes gets puts) = record {
    batches = 0;
    reads = omega (arith, reads, gets);
    all = omega (arith, reads, writes, gets, puts);
    gets = omega (arith, gets);
    puts = omega (arith, puts, small);
    first = λ h. absurd (omega (arith, h, gets));
  }
  Trace-IsBalanced f s₀ s c small (Trace.goes {s = s₁} before went) =
      subst (Leaves (IsBalanced e t f.readwritepercent)) went
        (mixed_round-IsBalanced e t f s₁ small (Trace-IsBalanced f s₀ s₁ c small before))
  Trace-IsBalanced f s₀ s c small (Trace.others {s = s₁} {c = c₁} before step) =
      let b = Trace-IsBalanced f s₀ s₁ c₁ small before in
      record {
        batches = b.batches;
        reads = b.reads;
        all = b.all;
        gets = b.gets;
        puts = b.puts;
        first = b.first;
      }

  -- However the rounds of `ReadRandomWriteRandom` and the steps of the master's other users
  -- alternate, from counters at 0: of all the operations done, every whole hundred has
  -- `readwritepercent` reads (which is below 100), and what is left over are reads first.
  pub reads_done-Trace :
      (f : Flags) (s₀ s : Locals e t) (c : Cursor)
      → f.readwritepercent < 100
      → Trace f s₀ s c
      → s.reads_done
        ≡ (s.reads_done + s.writes_done) / 100 * f.readwritepercent
          + min ((s.reads_done + s.writes_done) % 100) f.readwritepercent
  reads_done-Trace f s₀ s c small trace =
      let b = Trace-IsBalanced f s₀ s c (omega (arith, small)) trace in
      divided b.batches f.readwritepercent s.reads_done s.writes_done s.get_weight s.put_weight
        small b.reads b.all b.gets b.puts b.first

  -- However the rounds of `ReadRandomWriteRandom` and the steps of the master's other users
  -- alternate, a workload that begins on a sound master leaves it sound.
  pub Trace-IsSound :
      (f : Flags) (s₀ s : Locals e t) (c : Cursor)
      → IsSound e s₀.master
      → Trace f s₀ s c
      → IsSound e s.master
  Trace-IsSound f s₀ s c i (Trace.begins _ reads writes gets puts) = i
  Trace-IsSound f s₀ s c i (Trace.goes {s = s₁} before went) =
      Run-IsSound e
        (subst (Leaves (λ s'. Calls e c s₁.master s'.master)) went (mixed_round-Calls e t c f s₁))
        (Trace-IsSound f s₀ s₁ c i before)
  Trace-IsSound f s₀ s c i (Trace.others {s = s₁} {c = c₁} before step) =
      Run-IsSound e (Run.and_then step (Run.stop _ _)) (Trace-IsSound f s₀ s₁ c₁ i before)
