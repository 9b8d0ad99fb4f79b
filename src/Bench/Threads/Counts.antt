-- ===== src/Bench/Threads/Counts.antt =====
-- How many threads of integration/tools/db_bench_tool.cc are in a phase, and what one step changes.
use kvaccel.Base.{
  ℕ, zero, suc, ◌+◌, ◌≤◌, ◌<◌, ◌≡◌, refl, Bool, true, false, some, List, [], ◌∷◌, get_elem?, set,
  length, bit, map, ap, ap, arith, replicate, Bool-cases, inl, inr,
}
use mathlib.Core.Option
use kvaccel.Bench.Threads.{Phase, initializing, asleep, woken, running, finished, wake}

abbrev pub is_initialized : Phase → Bool
is_initialized initializing = false
is_initialized asleep = true
is_initialized woken = true
is_initialized running = true
is_initialized finished = true

abbrev pub is_started : Phase → Bool
is_started initializing = false
is_started asleep = false
is_started woken = false
is_started running = true
is_started finished = true

abbrev pub is_finished : Phase → Bool
is_finished initializing = false
is_finished asleep = false
is_finished woken = false
is_finished running = false
is_finished finished = true

abbrev pub is_asleep : Phase → Bool
is_asleep initializing = false
is_asleep asleep = true
is_asleep woken = false
is_asleep running = false
is_asleep finished = false

abbrev pub count : (Phase → Bool) → List Phase → ℕ
count p [] = 0
count p (x ∷ xs) = bit (p x) + count p xs

pub count-set :
    (p : Phase → Bool) (xs : List Phase) (i : ℕ) (x y : Phase)
    → get_elem? xs i ≡ some x
    → count p (set xs i y) + bit (p x) ≡ count p xs + bit (p y)
count-set p [] i x y there = cc
count-set p (z ∷ xs) zero x y there = ground (arith, there)
count-set p (z ∷ xs) (suc i) x y there = omega (arith, count-set p xs i x y there)

pub count-le-length : (p : Phase → Bool) (xs : List Phase) → count p xs ≤ length xs
count-le-length p [] = omega arith
count-le-length p (x ∷ xs) = ground (arith, count-le-length p xs)

pub count-replicate :
    (p : Phase → Bool) (n : ℕ) (x : Phase) → p x ≡ false → count p (replicate n x) ≡ 0
count-replicate p zero x not_so = refl
count-replicate p (suc n) x not_so = rw not_so (omega (arith, count-replicate p n x not_so))

-- Where every one has it, each has it; where not, there is one that has it not.
pub all_of-count :
    (p : Phase → Bool) (xs : List Phase) (i : ℕ) (x : Phase)
    → count p xs ≡ length xs
    → get_elem? xs i ≡ some x
    → p x ≡ true
all_of-count p [] i x full there = cc
all_of-count p (z ∷ xs) zero x full there = ground (arith, full, there, count-le-length p xs)
all_of-count p (z ∷ xs) (suc i) x full there =
    all_of-count p xs i x (ground (arith, full, count-le-length p xs)) there

pub missing-count :
    (p : Phase → Bool) (xs : List Phase)
    → count p xs < length xs
    → (i : ℕ) × (x : Phase) × (get_elem? xs i ≡ some x) × (p x ≡ false)
missing-count p [] less = absurd (omega arith)
missing-count p (x ∷ xs) less = elim (Bool-cases (p x)) [
  | inl so ↦
      let (i, y, there, not_so) = missing-count p xs (ground (arith, so, less)) in
      (suc i, y, there, not_so)
  | inr not_so ↦ (0, x, refl, not_so)
]

pub count-pos :
    (p : Phase → Bool) (xs : List Phase) (i : ℕ) (x : Phase)
    → get_elem? xs i ≡ some x
    → p x ≡ true
    → 0 < count p xs
count-pos p [] i x there so = cc
count-pos p (z ∷ xs) zero x there so = ground (arith, there, so)
count-pos p (z ∷ xs) (suc i) x there so = omega (arith, count-pos p xs i x there so)

-- Who is woken is no less initialized, started or finished.
pub count-wake :
    (p : Phase → Bool) (xs : List Phase)
    → ((x : Phase) → p (wake x) ≡ p x)
    → count p (map wake xs) ≡ count p xs
count-wake p [] same = refl
count-wake p (x ∷ xs) same = rw (same x, count-wake p xs same) refl

pub is_initialized-wake : (x : Phase) → is_initialized (wake x) ≡ is_initialized x
is_initialized-wake initializing = refl
is_initialized-wake asleep = refl
is_initialized-wake woken = refl
is_initialized-wake running = refl
is_initialized-wake finished = refl

pub is_started-wake : (x : Phase) → is_started (wake x) ≡ is_started x
is_started-wake initializing = refl
is_started-wake asleep = refl
is_started-wake woken = refl
is_started-wake running = refl
is_started-wake finished = refl

pub is_finished-wake : (x : Phase) → is_finished (wake x) ≡ is_finished x
is_finished-wake initializing = refl
is_finished-wake asleep = refl
is_finished-wake woken = refl
is_finished-wake running = refl
is_finished-wake finished = refl

-- After a signal nobody sleeps.
pub count-asleep : (xs : List Phase) → count is_asleep (map wake xs) ≡ 0
count-asleep [] = refl
count-asleep (initializing ∷ xs) = omega (arith, count-asleep xs)
count-asleep (asleep ∷ xs) = omega (arith, count-asleep xs)
count-asleep (woken ∷ xs) = omega (arith, count-asleep xs)
count-asleep (running ∷ xs) = omega (arith, count-asleep xs)
count-asleep (finished ∷ xs) = omega (arith, count-asleep xs)

pub get_elem?-wake :
    (xs : List Phase) (i : ℕ)
    → get_elem? xs i ≡ some initializing
    → get_elem? (map wake xs) i ≡ some initializing
get_elem?-wake [] i there = there
get_elem?-wake (x ∷ xs) zero there = ground (arith, ap (Option.map wake) there)
get_elem?-wake (x ∷ xs) (suc i) there = get_elem?-wake xs i there

pub length-wake : (xs : List Phase) → length (map wake xs) ≡ length xs
length-wake [] = refl
length-wake (x ∷ xs) = ap suc (length-wake xs)
