-- ===== src/Bench/Graph/Decider.antt =====
-- `QueryDecider` of integration/tools/db_bench_tool.cc: how often each type of query is chosen; and the
-- sizes of the values that `MixGraph` writes.
use kvaccel.Base.{
  ℕ, suc, ◌+◌, ◌%◌, ◌≤◌, ◌<◌, ◌≡◌, refl, ◌∙◌, ap, inl, inr, Bool-cases, some, false, List, [], ◌∷◌,
  ltb, ◌==◌, get_elem?, take, arith,
}
use native.Mathlib.Nat.{mod-lt}
use kvaccel.Bench.Graph.{Flags, accumulate, initiate, first_above, get_type, value_max, value_size}

abbrev pub sum : List ℕ → ℕ
sum [] = 0
sum (n ∷ ns) = n + sum ns

range-accumulate :
    (from : ℕ) (shares : List ℕ) → (accumulate from shares).range_ ≡ from + sum shares
unfolding accumulate
range-accumulate from [] = omega arith
range-accumulate from (share ∷ shares) = range-accumulate (from + share) shares ∙ omega arith

-- The place lies in the part that belongs to the type found.
first_above-accumulate :
    (shares : List ℕ) (from place i : ℕ)
    → from ≤ place
    → place < from + sum shares
    → (k : ℕ) × (share : ℕ) × (first_above (accumulate from shares).type_ place i ≡ i + k)
      × (get_elem? shares k ≡ some share)
      × (from + sum (take k shares) ≤ place)
      × (place < from + sum (take k shares) + share)
unfolding accumulate first_above
first_above-accumulate [] from place i low high = absurd (omega (arith, low, high))
first_above-accumulate (share ∷ shares) from place i low high =
    elim (Bool-cases (ltb place (from + share))) [
      | inl here ↦
          let less : place < from + share = ground (arith, here) in
          (0, share, rw here (omega arith), refl, omega (arith, low), omega (arith, less))
      | inr later ↦
          let more : from + share ≤ place = ground (arith, later) in
          let (k, its_share, found, at_k, above, below) =
            first_above-accumulate shares (from + share) place (i + 1) more (omega (arith, high)) in
          (
            suc k,
            its_share,
            rw later (found ∙ omega arith),
            at_k,
            omega (arith, above),
            omega (arith, below),
          )
    ]

get_type-found :
    (shares : List ℕ) (n : ℕ)
    → 0 < sum shares
    → get_type (initiate shares) n
      ≡ some (first_above (accumulate 0 shares).type_ (n % sum shares) 0)
unfolding get_type initiate
get_type-found shares n some_share =
    let whole : (accumulate 0 shares).range_ ≡ sum shares =
      range-accumulate 0 shares ∙ omega arith in
    let there : (sum shares == 0) ≡ false = ground (arith, some_share) in rw (whole, there) refl

-- If not all shares are 0, `GetType` answers for every number a type, and the remainder of the
-- number by the sum of the shares lies in the part of that type, where the parts have the lengths
-- of the shares and lie one behind the other: of that many numbers in a row, every type gets its
-- share.
get_type-initiate :
    (shares : List ℕ) (n : ℕ)
    → 0 < sum shares
    → (k : ℕ) × (share : ℕ) × (get_type (initiate shares) n ≡ some k)
      × (get_elem? shares k ≡ some share)
      × (sum (take k shares) ≤ n % sum shares)
      × (n % sum shares < sum (take k shares) + share)
get_type-initiate shares n some_share =
    let (k, share, found, at_k, above, below) =
      first_above-accumulate shares 0 (n % sum shares) 0 (omega arith)
        (omega (arith, mod-lt n some_share)) in
    (
      k,
      share,
      get_type-found shares n some_share ∙ ap some (found ∙ omega arith),
      at_k,
      omega (arith, above),
      omega (arith, below),
    )

-- If the least size of a value is not above the greatest, and that is not 0, every size that is
-- drawn gives a size that is not above the greatest.
pub value_size-bounds :
    (f : Flags) (size : ℕ)
    → 0 < f.max_value_size
    → f.min_value_size ≤ value_max f
    → (v : ℕ) × (value_size f size ≡ some v) × (v ≤ value_max f)
unfolding value_size
value_size-bounds f size positive ordered =
    let some_max : 0 < value_max f = omega (arith, positive) in
    elim (Bool-cases (ltb size f.min_value_size)) [
      | inl small ↦ rw small (f.min_value_size, refl, ordered)
      | inr enough ↦ rw enough (elim (Bool-cases (ltb (value_max f) size)) [
        | inl large ↦
            let there : (value_max f == 0) ≡ false = ground (arith, some_max) in
            let less = mod-lt size some_max in
            rw (large, there) (size % value_max f, refl, omega (arith, less))
        | inr fits ↦ rw fits (size, refl, ground (arith, fits))
      ])
    ]
