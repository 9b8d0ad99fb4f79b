-- ===== src/Bench/Threads/Protocol.antt =====
-- What the two counters and the signals of `SharedState` in integration/tools/db_bench_tool.cc promise
-- to the threads and to `RunBenchmark`.
use kvaccel.Base.{
  ℕ, ◌+◌, ◌≡◌, ◌≢◌, ◌⊎◌, refl, sym, ◌∙◌, true, false, some, get_elem?, set, length, length-set,
  arith, leb, leb→le, get_elem?-set_ne, inl, inr, Bool-cases,
}
use kvaccel.Bench.Threads.{
  SharedState, Phase, initializing, asleep, woken, running, finished, wait_for_start, Coordinator,
  gathering, collecting, merging, shared_of, Step, Steps, initialize, finish, release, collect,
}
use kvaccel.Bench.Threads.Counts.{
  count, is_asleep, is_initialized, is_started, is_finished, count-set, count-le-length,
  all_of-count, missing-count, count-pos,
}
use kvaccel.Bench.Threads.Counted.{IsCounted, shared_of-IsCounted}
use kvaccel.Bench.Threads.Kept.{Steps-IsCounted, start-running}

-- Where one has started, all have been counted.
all_initialized :
    (s : SharedState) (i : ℕ) (p : Phase)
    → IsCounted s
    → get_elem? s.phases i ≡ some p
    → is_started p ≡ true
    → s.num_initialized ≡ s.total
all_initialized s i p c there started = c.gathered (start-running s i p c there started)

-- However the threads are scheduled: once one of them runs the benchmark's method or is done with
-- it, none is still being initialized.
pub running-after_all :
    (n i j : ℕ) (s : SharedState) (p q : Phase)
    → Steps (shared_of n) s
    → get_elem? s.phases i ≡ some p
    → is_started p ≡ true
    → get_elem? s.phases j ≡ some q
    → is_initialized q ≡ true
running-after_all n i j s p q reached there started there' =
    let c = Steps-IsCounted reached (shared_of-IsCounted n) in
    all_of-count is_initialized s.phases j q
      (omega (arith, c.initialized, all_initialized s i p c there started, c.total)) there'

-- However the threads are scheduled: when `RunBenchmark` merges the statistics, every thread is
-- done.
pub merging-finished :
    (n i : ℕ) (s : SharedState) (p : Phase)
    → Steps (shared_of n) s
    → s.coordinator ≡ merging
    → get_elem? s.phases i ≡ some p
    → is_finished p ≡ true
merging-finished n i s p reached over there =
    let c = Steps-IsCounted reached (shared_of-IsCounted n) in
    all_of-count is_finished s.phases i p (omega (arith, c.done, c.merged over, c.total)) there

-- A thread that can go on.
initializes :
    (s : SharedState) (i : ℕ) (x : Phase)
    → get_elem? s.phases i ≡ some x
    → is_initialized x ≡ false
    → (t : SharedState) × Step s t
initializes s i initializing there h = (initialize i s, Step.thread_initializes s i there)
initializes s i asleep there h = cc
initializes s i woken there h = cc
initializes s i running there h = cc
initializes s i finished there h = cc

goes_on :
    (s : SharedState) (i : ℕ) (x : Phase)
    → count is_asleep s.phases ≡ 0
    → get_elem? s.phases i ≡ some x
    → is_finished x ≡ false
    → (t : SharedState) × Step s t
goes_on s i initializing up there h = (initialize i s, Step.thread_initializes s i there)
goes_on s i asleep up there h =
    absurd (omega (arith, up, count-pos is_asleep s.phases i asleep there refl))
goes_on s i woken up there h = (wait_for_start i s, Step.thread_wakes s i there)
goes_on s i running up there h = (finish i s, Step.thread_finishes s i there)
goes_on s i finished up there h = cc

gathers : (s : SharedState) → IsCounted s → s.coordinator ≡ gathering → (t : SharedState) × Step s t
gathers s c here = elim (Bool-cases s.sleeps) [
  | inl sleeping ↦
      let (i, x, there, out) =
        missing-count is_initialized s.phases
          (omega (arith, c.gathers_asleep here sleeping, c.initialized, c.total)) in
      initializes s i x there out
  | inr up ↦ (release s, Step.gathers s here up)
]

collects :
    (s : SharedState) → IsCounted s → s.coordinator ≡ collecting → (t : SharedState) × Step s t
collects s c here = elim (Bool-cases s.sleeps) [
  | inl sleeping ↦
      let (i, x, there, out) =
        missing-count is_finished s.phases
          (omega (arith, c.collects_asleep here sleeping, c.done, c.total)) in
      goes_on s i x (c.awake (c.gates (λ e. let e' = sym here ∙ e in cc))) there out
  | inr up ↦ (collect s, Step.collects s here up)
]

Coordinator-cases : (p : Coordinator) → (p ≡ gathering) ⊎ ((p ≡ collecting) ⊎ (p ≡ merging))
Coordinator-cases gathering = inl refl
Coordinator-cases collecting = inr (inl refl)
Coordinator-cases merging = inr (inr refl)

-- However the threads are scheduled, with a condition variable that wakes no one but by
-- `SignalAll`, there is a next step until the statistics are merged: it never happens that all of
-- the threads that are not done and `RunBenchmark` sleep.
pub next-Step :
    (n : ℕ) (s : SharedState)
    → Steps (shared_of n) s
    → s.coordinator ≢ merging
    → (t : SharedState) × Step s t
next-Step n s reached open_yet =
    let c = Steps-IsCounted reached (shared_of-IsCounted n) in
    elim (Coordinator-cases s.coordinator) [
      | inl first ↦ gathers s c first
      | inr (inl second) ↦ collects s c second
      | inr (inr over) ↦ absurd (open_yet over)
    ]

-- What the background writer asks: while thread `i` runs, `num_done + 1 >= num_initialized` says
-- that every other thread is done.
pub finished-others :
    (n i j : ℕ) (s : SharedState) (q : Phase)
    → Steps (shared_of n) s
    → get_elem? s.phases i ≡ some running
    → leb s.num_initialized (s.num_done + 1) ≡ true
    → i ≢ j
    → get_elem? s.phases j ≡ some q
    → is_finished q ≡ true
finished-others n i j s q reached there few apart there' =
    let c = Steps-IsCounted reached (shared_of-IsCounted n) in
    let xs = set s.phases i finished in
    let full : count is_finished xs ≡ length xs = omega (
      arith,
      leb→le _ _ few,
      c.done,
      c.total,
      all_initialized s i running c there refl,
      length-set s.phases i finished,
      count-le-length is_finished xs,
      count-set is_finished s.phases i running finished there,
    ) in
    all_of-count is_finished xs j q full (get_elem?-set_ne s.phases i j finished apart ∙ there')
