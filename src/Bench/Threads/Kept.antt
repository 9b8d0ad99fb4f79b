-- ===== src/Bench/Threads/Kept.antt =====
-- What the steps of the threads and of `RunBenchmark` in integration/tools/db_bench_tool.cc keep.
use kvaccel.Base.{
  ℕ, ◌+◌, ◌<◌, Bool, List, map, ◌≡◌, refl, sym, ◌∙◌, true, false, some, get_elem?, set, length,
  length-set, arith, ltb, ltb→lt, leb, inl, inr, Bool-cases,
}
use kvaccel.Bench.Threads.{
  SharedState, Phase, running, finished, wake, signal_all, gathering, Step, Steps, finish, release,
  collect,
}
use kvaccel.Bench.Threads.Counts.{
  count, is_asleep, count-asleep, is_initialized, is_started, is_finished, count-set,
  count-le-length, all_of-count, count-pos,
}
use kvaccel.Bench.Threads.Counted.{
  IsCounted, Woken, Woken-self, Woken-wake, IsCounted-initialize, IsCounted-wait_for_start,
}

IsCounted-finished :
    (s : SharedState) (i : ℕ) (xs : List Phase) (b : Bool)
    → IsCounted s
    → get_elem? s.phases i ≡ some running
    → Woken (set s.phases i finished) xs
    → count is_asleep xs ≡ 0
    → (b ≡ true → s.sleeps ≡ true)
    → (b ≡ true → s.num_done + 1 < s.total)
    → IsCounted (record s { num_done = s.num_done + 1; phases = xs; sleeps = b })
IsCounted-finished s i xs b c there w up slept more = record {
  total = w.long ∙ length-set s.phases i finished ∙ c.total;
  initialized = omega (
    arith,
    c.initialized,
    w.initialized,
    count-set is_initialized s.phases i running finished there,
  );
  done = omega (arith, c.done, w.done, count-set is_finished s.phases i running finished there);
  held = λ h.
      omega (arith, c.held h, w.started, count-set is_started s.phases i running finished there);
  gathered = c.gathered;
  gates = c.gates;
  merged = λ h.
      let full : count is_finished s.phases ≡ length s.phases =
        omega (arith, c.done, c.merged h, c.total) in
      let there' = all_of-count is_finished s.phases i running full there in cc;
  awake = λ h. up;
  gathers_asleep = λ h z. c.gathers_asleep h (slept z);
  collects_asleep = λ h z. more z;
}

-- Where one has started, `start` is set.
pub start-running :
    (s : SharedState) (i : ℕ) (p : Phase)
    → IsCounted s
    → get_elem? s.phases i ≡ some p
    → is_started p ≡ true
    → s.start ≡ true
start-running s i p c there started = elim (Bool-cases s.start) [
  | inl on ↦ on
  | inr off ↦ absurd (omega (arith, c.held off, count-pos is_started s.phases i p there started))
]

IsCounted-finish :
    (s : SharedState) (i : ℕ)
    → get_elem? s.phases i ≡ some running
    → IsCounted s
    → IsCounted (finish i s)
unfolding finish
IsCounted-finish s i there c =
    let xs = set s.phases i finished in
    let up : count is_asleep xs ≡ 0 = omega (
      arith,
      c.awake (start-running s i running c there refl),
      count-set is_asleep s.phases i running finished there,
    ) in
    elim (Bool-cases (leb s.total (s.num_done + 1))) [
      | inl last ↦ rw last (
          IsCounted-finished s i (map wake xs) false c there (Woken-wake xs) (count-asleep xs)
            (λ z. cc) (λ z. cc))
      | inr more ↦ rw more (
          IsCounted-finished s i xs s.sleeps c there (Woken-self xs) up (λ z. z)
            (λ z. ground (arith, more)))
    ]

IsCounted-collect : (s : SharedState) → s.start ≡ true → IsCounted s → IsCounted (collect s)
unfolding collect
IsCounted-collect s on c = elim (Bool-cases (ltb s.num_done s.total)) [
  | inl less ↦ rw less (record {
    total = c.total;
    initialized = c.initialized;
    done = c.done;
    held = c.held;
    gathered = c.gathered;
    gates = λ h. on;
    merged = λ h. cc;
    awake = c.awake;
    gathers_asleep = λ h z. cc;
    collects_asleep = λ h z. ltb→lt _ _ less;
  })
  | inr enough ↦ rw enough (record {
    total = c.total;
    initialized = c.initialized;
    done = c.done;
    held = c.held;
    gathered = c.gathered;
    gates = λ h. on;
    merged = λ h. ground (arith, enough, c.done, c.total, count-le-length is_finished s.phases);
    awake = c.awake;
    gathers_asleep = λ h z. cc;
    collects_asleep = λ h z. cc;
  })
]

-- `start` and the signal, when all have been counted.
IsCounted-signal_all :
    (s : SharedState)
    → s.coordinator ≡ gathering
    → ltb s.num_initialized s.total ≡ false
    → IsCounted s
    → IsCounted (signal_all (record s { start = true }))
IsCounted-signal_all s here enough c =
    let w = Woken-wake s.phases in
    record {
      total = w.long ∙ c.total;
      initialized = w.initialized ∙ c.initialized;
      done = w.done ∙ c.done;
      held = λ h. cc;
      gathered = λ h.
          ground (arith, enough, c.initialized, c.total, count-le-length is_initialized s.phases);
      gates = λ h. refl;
      merged = c.merged;
      awake = λ h. count-asleep s.phases;
      gathers_asleep = λ h z. cc;
      collects_asleep = λ h z. cc;
    }

IsCounted-release :
    (s : SharedState) → s.coordinator ≡ gathering → IsCounted s → IsCounted (release s)
unfolding release
IsCounted-release s here c = elim (Bool-cases (ltb s.num_initialized s.total)) [
  | inl less ↦ rw less (record {
    total = c.total;
    initialized = c.initialized;
    done = c.done;
    held = c.held;
    gathered = c.gathered;
    gates = c.gates;
    merged = c.merged;
    awake = c.awake;
    gathers_asleep = λ h z. ltb→lt _ _ less;
    collects_asleep = λ h z. let q = sym here ∙ h in cc;
  })
  | inr enough ↦ rw enough (
      IsCounted-collect (signal_all (record s { start = true })) refl
        (IsCounted-signal_all s here enough c))
]

IsCounted-Step : {s t : SharedState} → Step s t → IsCounted s → IsCounted t
IsCounted-Step (Step.thread_initializes s i there) c = IsCounted-initialize s i there c
IsCounted-Step (Step.thread_wakes s i there) c = IsCounted-wait_for_start s i there c
IsCounted-Step (Step.thread_finishes s i there) c = IsCounted-finish s i there c
IsCounted-Step (Step.gathers s here up) c = IsCounted-release s here c
IsCounted-Step (Step.collects s here up) c =
    IsCounted-collect s (c.gates (λ e. let q = sym here ∙ e in cc)) c

pub Steps-IsCounted : {s t : SharedState} → Steps s t → IsCounted s → IsCounted t
Steps-IsCounted (Steps.none_yet s) c = c
Steps-IsCounted (Steps.then_step before step) c = IsCounted-Step step (Steps-IsCounted before c)
