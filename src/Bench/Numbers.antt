-- ===== src/Bench/Numbers.antt =====
-- `KeyGenerator` of integration/tools/db_bench_tool.cc: the numbers that a fill makes its keys from.
pub mod Once
use kvaccel.Base.{
  ℕ, zero, suc, ◌+◌, ◌-◌, ◌%◌, ◌≤◌, ◌<◌, ◌≡◌, ◌≢◌, refl, ap, Option, none, some, List, [], ◌∷◌,
  get_elem?, length, push_back, ◌==◌, if◌then◌else◌, arith,
}
use mathlib.Core.Option
use kvaccel.Bench.{Tools}

pub data WriteMode : Type 0 where
  random sequential unique_random : WriteMode

pub record KeyGenerator : Type 0 where
  pub mode : WriteMode
  pub num : ℕ
  pub next_ : ℕ
  pub values_ : List ℕ

-- `values_[i] = i` for each i below `num_`
unfoldable pub ascending : ℕ → List ℕ
ascending zero = []
ascending (suc n) = push_back (ascending n) n

-- The constructor; `shuffle` is `RandomShuffle` with its seed, which is RocksDB's.
unfoldable pub key_generator : (List ℕ → List ℕ) → WriteMode → ℕ → KeyGenerator
unfolding ascending
key_generator shuffle random num = record { mode = random; num = num; next_ = 0; values_ = [] }
key_generator shuffle sequential num = record {
  mode = sequential;
  num = num;
  next_ = 0;
  values_ = [];
}
key_generator shuffle unique_random num = record {
  mode = unique_random;
  num = num;
  next_ = 0;
  values_ = shuffle (ascending num);
}

-- `Fetch`; `none` past the values.
unfoldable pub fetch : KeyGenerator → ℕ → Option ℕ
fetch g index = get_elem? g.values_ index

module _ (t : Tools) where
  open t use {Random, next}

  -- What a generator answers, with its state and that of the thread's generator behind it.
  abbrev pub Drawn : Type 0
  Drawn = Option (ℕ × KeyGenerator × Random)

  abbrev step_by : WriteMode → KeyGenerator → Random → Drawn
  step_by sequential g r = some (g.next_, record g { next_ = g.next_ + 1 }, r)
  step_by random g r =
      let (number, r') = next r in if g.num == 0 then none else some (number % g.num, g, r')
  step_by unique_random g r =
      Option.map (λ number. (number, record g { next_ = g.next_ + 1 }, r)) (fetch g g.next_)

  -- `Next`
  unfoldable pub next_number : KeyGenerator → Random → Drawn
  unfolding fetch
  next_number g r = step_by g.mode g r

  -- The number that was drawn, before those that come after it.
  abbrev before_rest : Drawn → (KeyGenerator → Random → Option (List ℕ)) → Option (List ℕ)
  before_rest none rest = none
  before_rest (some (number, g, r)) rest = Option.map (◌∷◌ number) (rest g r)

  -- The next `n` numbers.
  unfoldable pub draws : ℕ → KeyGenerator → Random → Option (List ℕ)
  draws zero g r = some []
  draws (suc n) g r = before_rest (next_number g r) (draws n)
