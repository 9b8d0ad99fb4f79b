-- ===== src/Bench/Threads.antt =====
-- `SharedState`, `ThreadBody` and `RunBenchmark` of integration/tools/db_bench_tool.cc: how the threads
-- of one benchmark start together and are waited for. A step is what happens under `shared.mu`.
pub mod Counts
pub mod Counted
pub mod Kept
pub mod Protocol
use kvaccel.Base.{
  ℕ, zero, suc, ◌+◌, ◌≡◌, Bool, true, false, Option, some, List, [], ◌∷◌, get_elem?, set, replicate,
  map, ltb, leb, if◌then◌else◌,
}

-- "Each thread goes through the following states": started, waiting for the others, running the
-- benchmark's method, done. One that waits sleeps on the condition variable, or is woken and has
-- to look at `start` again.
pub data Phase : Type 0 where
  initializing asleep woken running finished : Phase

-- Where `RunBenchmark` is: in its first loop, in its second, behind both.
pub data Coordinator : Type 0 where
  gathering collecting merging : Coordinator

pub record SharedState : Type 0 where
  pub total : ℕ
  pub num_initialized : ℕ
  pub num_done : ℕ
  pub start : Bool
  pub phases : List Phase
  pub coordinator : Coordinator
  -- `RunBenchmark` sleeps on the condition variable.
  pub sleeps : Bool

-- `RunBenchmark` when it has started its `n` threads.
unfoldable pub shared_of : ℕ → SharedState
shared_of n = record {
  total = n;
  num_initialized = 0;
  num_done = 0;
  start = false;
  phases = replicate n initializing;
  coordinator = gathering;
  sleeps = false;
}

abbrev pub wake : Phase → Phase
wake initializing = initializing
wake asleep = woken
wake woken = woken
wake running = running
wake finished = finished

-- `cv.SignalAll()`: all that sleep are woken.
abbrev pub signal_all : SharedState → SharedState
signal_all s = record s { phases = map wake s.phases; sleeps = false }

-- `while (!shared->start) shared->cv.Wait()`, until it sleeps or is through.
abbrev pub wait_for_start : ℕ → SharedState → SharedState
wait_for_start i s = record s { phases = set s.phases i (if s.start then running else asleep) }

-- `shared->num_initialized++`, the signal of the last thread, and the wait.
unfoldable pub initialize : ℕ → SharedState → SharedState
initialize i s =
    let counted = record s { num_initialized = s.num_initialized + 1 } in
    wait_for_start i (if leb s.total (s.num_initialized + 1) then signal_all counted else counted)

-- `shared->num_done++`, and the signal of the last thread.
unfoldable pub finish : ℕ → SharedState → SharedState
finish i s =
    let counted = record s { num_done = s.num_done + 1; phases = set s.phases i finished } in
    if leb s.total (s.num_done + 1) then signal_all counted else counted

-- `while (shared.num_done < n) shared.cv.Wait()`, until it sleeps or is through.
unfoldable pub collect : SharedState → SharedState
collect s =
    if ltb s.num_done s.total
    then record s { coordinator = collecting; sleeps = true }
    else record s { coordinator = merging; sleeps = false }

-- `while (shared.num_initialized < n) shared.cv.Wait()`, and what follows without giving up the
-- mutex: `start`, the signal, and the second loop.
unfoldable pub release : SharedState → SharedState
unfolding collect
release s =
    if ltb s.num_initialized s.total
    then record s { sleeps = true }
    else collect (signal_all (record s { start = true }))

-- What can happen next: what one thread or `RunBenchmark` does between taking the mutex and giving
-- it up. Who sleeps does nothing; that a condition variable may also wake of its own accord is left
-- out.
pub data Step : SharedState → SharedState → Type 0 where
  thread_initializes :
      (s : SharedState) (i : ℕ) → get_elem? s.phases i ≡ some initializing → Step s (initialize i s)
  thread_wakes :
      (s : SharedState) (i : ℕ) → get_elem? s.phases i ≡ some woken → Step s (wait_for_start i s)
  thread_finishes :
      (s : SharedState) (i : ℕ) → get_elem? s.phases i ≡ some running → Step s (finish i s)
  gathers : (s : SharedState) → s.coordinator ≡ gathering → s.sleeps ≡ false → Step s (release s)
  collects : (s : SharedState) → s.coordinator ≡ collecting → s.sleeps ≡ false → Step s (collect s)

pub data Steps : SharedState → SharedState → Type 0 where
  none_yet : (s : SharedState) → Steps s s
  then_step : {r s t : SharedState} → Steps r s → Step s t → Steps r t
