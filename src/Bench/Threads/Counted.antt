-- ===== src/Bench/Threads/Counted.antt =====
-- What the two counters of `SharedState` in integration/tools/db_bench_tool.cc promise to the threads
-- and to `RunBenchmark`.
use kvaccel.Base.{
  ℕ, ◌+◌, ◌<◌, Bool, List, map, ◌≡◌, ◌≢◌, refl, sym, ◌∙◌, true, false, some, get_elem?, set, length,
  length-set, length-replicate, arith, leb, inl, inr, Bool-cases,
}
use kvaccel.Bench.Threads.{
  SharedState, Phase, initializing, asleep, woken, running, wake, wait_for_start, gathering,
  collecting, merging, shared_of, initialize,
}
use kvaccel.Bench.Threads.Counts.{
  count, is_asleep, count-wake, is_initialized-wake, is_started-wake, is_finished-wake,
  get_elem?-wake, length-wake, is_initialized, is_started, is_finished, count-set, count-replicate,
  all_of-count,
}

-- The counters count the threads; none runs before `start` is set, which is not before all are
-- there; and the coordinator goes on when all are done.
pub record IsCounted (s : SharedState) : Type 0 where
  pub total : length s.phases ≡ s.total
  pub initialized : count is_initialized s.phases ≡ s.num_initialized
  pub done : count is_finished s.phases ≡ s.num_done
  pub held : s.start ≡ false → count is_started s.phases ≡ 0
  pub gathered : s.start ≡ true → s.num_initialized ≡ s.total
  pub gates : s.coordinator ≢ gathering → s.start ≡ true
  pub merged : s.coordinator ≡ merging → s.num_done ≡ s.total
  pub awake : s.start ≡ true → count is_asleep s.phases ≡ 0
  pub gathers_asleep : s.coordinator ≡ gathering → s.sleeps ≡ true → s.num_initialized < s.total
  pub collects_asleep : s.coordinator ≡ collecting → s.sleeps ≡ true → s.num_done < s.total

pub shared_of-IsCounted : (n : ℕ) → IsCounted (shared_of n)
unfolding shared_of
shared_of-IsCounted n = record {
  total = length-replicate n initializing;
  initialized = count-replicate is_initialized n initializing refl;
  done = count-replicate is_finished n initializing refl;
  held = λ h. count-replicate is_started n initializing refl;
  gathered = λ h. cc;
  gates = λ h. absurd (h refl);
  merged = λ h. cc;
  awake = λ h. cc;
  gathers_asleep = λ h z. cc;
  collects_asleep = λ h z. cc;
}

-- The same threads, of which some may have been woken.
pub record Woken (xs ys : List Phase) : Type 0 where
  pub long : length ys ≡ length xs
  pub initialized : count is_initialized ys ≡ count is_initialized xs
  pub started : count is_started ys ≡ count is_started xs
  pub done : count is_finished ys ≡ count is_finished xs

pub Woken-self : (xs : List Phase) → Woken xs xs
Woken-self xs = record { long = refl; initialized = refl; started = refl; done = refl }

pub Woken-wake : (xs : List Phase) → Woken xs (map wake xs)
Woken-wake xs = record {
  long = length-wake xs;
  initialized = count-wake is_initialized xs is_initialized-wake;
  started = count-wake is_started xs is_started-wake;
  done = count-wake is_finished xs is_finished-wake;
}

-- A thread that is counted and sleeps.
IsCounted-asleep :
    (s : SharedState) (i : ℕ) (xs : List Phase) (b : Bool)
    → IsCounted s
    → s.start ≡ false
    → Woken s.phases xs
    → get_elem? xs i ≡ some initializing
    → (b ≡ true → s.num_initialized + 1 < s.total)
    → IsCounted (record s {
      num_initialized = s.num_initialized + 1;
      start = false;
      phases = set xs i asleep;
      sleeps = b;
    })
IsCounted-asleep s i xs b c off w there more = record {
  total = length-set xs i asleep ∙ w.long ∙ c.total;
  initialized = omega (
    arith,
    c.initialized,
    w.initialized,
    count-set is_initialized xs i initializing asleep there,
  );
  done = omega (arith, c.done, w.done, count-set is_finished xs i initializing asleep there);
  held = λ h.
      omega (arith, c.held off, w.started, count-set is_started xs i initializing asleep there);
  gathered = λ h. cc;
  gates = λ h. let q = sym off ∙ c.gates h in cc;
  merged = c.merged;
  awake = λ h. cc;
  gathers_asleep = λ h z. more z;
  collects_asleep =
      λ h z. let on = c.gates (λ e. let e' = sym h ∙ e in cc) in let q = sym off ∙ on in cc;
}

-- While one is not counted yet, none has been let go.
start-initializing :
    (s : SharedState) (i : ℕ)
    → IsCounted s
    → get_elem? s.phases i ≡ some initializing
    → s.start ≡ false
start-initializing s i c there = elim (Bool-cases s.start) [
  | inl on ↦
      let full : count is_initialized s.phases ≡ length s.phases =
        omega (arith, c.initialized, c.gathered on, c.total) in
      let there' = all_of-count is_initialized s.phases i initializing full there in cc
  | inr off ↦ off
]

pub IsCounted-initialize :
    (s : SharedState) (i : ℕ)
    → get_elem? s.phases i ≡ some initializing
    → IsCounted s
    → IsCounted (initialize i s)
unfolding initialize
IsCounted-initialize s i there c =
    let off = start-initializing s i c there in
    elim (Bool-cases (leb s.total (s.num_initialized + 1))) [
      | inl last ↦
          rw (last, off)
            (IsCounted-asleep s i (map wake s.phases) false c off (Woken-wake s.phases)
              (get_elem?-wake s.phases i there) (λ z. cc))
      | inr more ↦
          rw (more, off)
            (IsCounted-asleep s i s.phases s.sleeps c off (Woken-self s.phases) there
              (λ z. ground (arith, more)))
    ]

-- A thread that goes on once `start` is set.
pub IsCounted-wait_for_start :
    (s : SharedState) (i : ℕ)
    → get_elem? s.phases i ≡ some woken
    → IsCounted s
    → IsCounted (wait_for_start i s)
IsCounted-wait_for_start s i there c = elim (Bool-cases s.start) [
  | inl on ↦ rw on (record {
    total = length-set s.phases i running ∙ c.total;
    initialized =
        omega (arith, c.initialized, count-set is_initialized s.phases i woken running there);
    done = omega (arith, c.done, count-set is_finished s.phases i woken running there);
    held = λ h. cc;
    gathered = λ h. c.gathered on;
    gates = λ h. refl;
    merged = c.merged;
    awake = λ h. omega (arith, c.awake on, count-set is_asleep s.phases i woken running there);
    gathers_asleep = c.gathers_asleep;
    collects_asleep = c.collects_asleep;
  })
  | inr off ↦ rw off (record {
    total = length-set s.phases i asleep ∙ c.total;
    initialized =
        omega (arith, c.initialized, count-set is_initialized s.phases i woken asleep there);
    done = omega (arith, c.done, count-set is_finished s.phases i woken asleep there);
    held = λ h. omega (arith, c.held off, count-set is_started s.phases i woken asleep there);
    gathered = λ h. cc;
    gates = λ h. let q = sym off ∙ c.gates h in cc;
    merged = c.merged;
    awake = λ h. cc;
    gathers_asleep = c.gathers_asleep;
    collects_asleep = c.collects_asleep;
  })
]
