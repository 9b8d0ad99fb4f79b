-- ===== src/Bench/Updates/Appended.antt =====
-- What `AppendRandom` of integration/tools/db_bench_tool.cc leaves under its key.
use kvaccel.Base.{ℕ, zero, suc, ◌+◌, ◌≡◌, ◌≢◌, false, some, List, [], ◌∷◌, ◌++◌, ◌==◌, ◌⊎◌}
use kvaccel.Base.Bytes.{Bytes}
use kvaccel.Rocks.{ok, not_found}
use kvaccel.Bench.{Tools, generate_key_from_int}
use kvaccel.Bench.Duration.{Duration}
use kvaccel.Bench.Values.{RandomGenerator, generate_sized}
use kvaccel.Bench.Updates.{MergeDb, IsMergeDb, Flags, Locals, append_value}

-- Not empty, and without the separator.
abbrev pub Lacks : ℕ → Bytes → Type 0
Lacks sep [] = Unit {0}
Lacks sep (c ∷ s) = ((c == sep) ≡ false) × Lacks sep s

abbrev pub ArePlain : ℕ → List Bytes → Type 0
ArePlain sep [] = Unit {0}
ArePlain sep (p ∷ ps) = (p ≢ []) × Lacks sep p × ArePlain sep ps

-- Every part behind a separator.
abbrev behind : ℕ → List Bytes → Bytes
behind sep [] = []
behind sep (p ∷ ps) = sep ∷ p ++ behind sep ps

-- What appending makes of a value.
abbrev joined : Bytes → List Bytes → Bytes
joined v [] = v
joined v (o ∷ os) = joined (append_value v o) os

module _ (t : Tools) (b : MergeDb) (f : Flags) where
  open t use {drawn}

  abbrev L : Type 0
  L = Locals t b f

  -- The values that the generator gives, from the one with this number on.
  abbrev pub operands : ℕ → ℕ → RandomGenerator → List Bytes
  operands zero i g = []
  operands (suc n) i g =
      let (operand, g') = generate_sized f.sizes (drawn i) g in operand ∷ operands n (i + 1) g'

  module _ (key : Bytes) (one_key : f.num ≡ 1) (made : generate_key_from_int f.spec 0 1 ≡ some key)
      (store : IsMergeDb b) (takes : (d : b.Db) (k v : Bytes) → (b.put d k v).0 ≡ ok) where
    -- The value of the key is the one append_value to so far; at first there is none.
    Holds : L → Bytes → Type 0
    Holds s v = (b.get s.db key ≡ (ok, v)) ⊎ ((b.get s.db key ≡ (not_found, [])) × (v ≡ []))

    After : L → Bytes → L → Type 0
    After s v s' =
        let (operand, g') = generate_sized f.sizes (drawn s.updates) s.gen in
        (b.get s'.db key ≡ (ok, append_value v operand))
        × (s'.updates ≡ s.updates + 1)
        × (s'.gen ≡ g')
