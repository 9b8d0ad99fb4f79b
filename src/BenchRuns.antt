-- ===== src/BenchRuns.antt =====
-- The theorems on the benchmark's threads and workloads, applied to small runs.
use kvaccel.Base.{◌+◌, ◌/◌, ◌%◌, ◌*◌, ◌≡◌, refl, true, false, [], ◌∷◌, arith}
use kvaccel.Master.Write.{get}
use kvaccel.Master.Rollback.{fresh_cursor}
use Prim.Native.Nat.{min}
use kvaccel.Toy.{toy, stalled}
use kvaccel.BenchExamples.{counting}
use kvaccel.Bench.{
  KeySpec, Outcome, going, exits, undefined, random_key, generate_key_from_int, fill_field,
}
use kvaccel.Bench.Values.{RandomGenerator, fixed}
use kvaccel.Bench.Mixed
use kvaccel.Bench.Mixed.{mixed_round, refill, one_op, read_one}
use kvaccel.Bench.Mixed.Trace.{Trace, reads_done-Trace}
use kvaccel.Bench.Threads
use kvaccel.Bench.Threads.{SharedState, running, asleep, woken, finished, merging, shared_of, Steps}
use kvaccel.Bench.Threads.Protocol.{next-Step}

-- Two threads. `RunBenchmark` goes to sleep at once and is woken by the second, and then lets both
-- go on; the first of them runs.
abbrev both_wait : SharedState
both_wait = record {
  total = 2;
  num_initialized = 2;
  num_done = 0;
  start = false;
  phases = woken ∷ asleep ∷ [];
  coordinator = Threads.gathering;
  sleeps = false;
}

to_both_wait : Steps (shared_of 2) both_wait
unfolding shared_of Threads.initialize Threads.release
to_both_wait =
    Steps.then_step
      (Steps.then_step (Steps.then_step (Steps.none_yet _) (Threads.Step.gathers _ refl refl))
        (Threads.Step.thread_initializes _ 0 refl))
      (Threads.Step.thread_initializes _ 1 refl)

abbrev one_runs : SharedState
one_runs = record both_wait {
  start = true;
  phases = running ∷ woken ∷ [];
  coordinator = Threads.collecting;
  sleeps = true;
}

to_one_runs : Steps (shared_of 2) one_runs
unfolding Threads.release Threads.collect
to_one_runs =
    Steps.then_step (Steps.then_step to_both_wait (Threads.Step.gathers _ refl refl))
      (Threads.Step.thread_wakes _ 0 refl)

next-Step_example : (t : SharedState) × Threads.Step one_runs t
next-Step_example = next-Step 2 one_runs to_one_runs (λ e. cc)

-- The state that a round leaves.
abbrev pub state_of : {A : Type 0} → Outcome A → A → A
state_of (going s) before = s
state_of (exits s) before = s
state_of undefined before = before

abbrev pub four_bytes : KeySpec
four_bytes = record { key_size = 4; prefix_size = 0; keys_per_prefix = 0; keys = [] }

abbrev pub values : RandomGenerator
values = record { data_ = 1 ∷ 2 ∷ 3 ∷ 4 ∷ []; pos_ = 0 }

abbrev mixed_flags : Mixed.Flags
mixed_flags = record { spec = four_bytes; num = 10; readwritepercent = 90; sizes = fixed 2 }

abbrev mixed_start : Mixed.Locals toy counting
mixed_start = record {
  master = stalled;
  rand = 0;
  gen = values;
  value = [];
  found = 0;
  get_weight = 0;
  put_weight = 0;
  reads_done = 0;
  writes_done = 0;
}

abbrev mixed_next : Mixed.Locals toy counting
mixed_next = state_of (mixed_round toy counting mixed_flags mixed_start) mixed_start

one_round : Trace toy counting mixed_flags mixed_start mixed_next fresh_cursor
unfolding mixed_round refill one_op read_one get random_key generate_key_from_int fill_field
one_round = Trace.goes (Trace.begins fresh_cursor refl refl refl refl) refl

reads_done-Trace_example :
    mixed_next.reads_done
    ≡ (mixed_next.reads_done + mixed_next.writes_done) / 100 * 90
      + min ((mixed_next.reads_done + mixed_next.writes_done) % 100) 90
reads_done-Trace_example =
    reads_done-Trace toy counting mixed_flags mixed_start mixed_next fresh_cursor (omega arith)
      one_round
