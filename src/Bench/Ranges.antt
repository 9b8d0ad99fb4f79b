-- ===== src/Bench/Ranges.antt =====
-- `GenerateTwoTermExpKeys` of integration/tools/db_bench_tool.cc: key ranges as wide as they are hot,
-- and how a random number chooses one. What the floating-point code computes of the flags, the
-- accesses and the offset within a range, is an argument.
pub mod Search
use kvaccel.Base.{
  ℕ, zero, suc, ◌+◌, ◌-◌, ◌*◌, ◌/◌, ◌%◌, ◌<◌, Option, some, none, List, [], ◌∷◌, get_elem?, get_or,
  set, ltb, ◌==◌, ◌||◌, length, if◌then◌else◌,
}
use mathlib.Core.Option

pub record KeyrangeUnit : Type 0 where
  pub keyrange_start : ℕ
  pub keyrange_access : ℕ
  pub keyrange_keys : ℕ

pub record ExpKeys : Type 0 where
  pub keyrange_rand_max : ℕ
  pub keyrange_size : ℕ
  pub keyrange_num : ℕ
  pub keyrange_set : List KeyrangeUnit

-- Step 3: the ranges one behind the other.
pub lay_out : ℕ → ℕ → List ℕ → List KeyrangeUnit
lay_out size start [] = []
lay_out size start (access ∷ rest) =
    record { keyrange_start = start; keyrange_access = access; keyrange_keys = size }
    ∷ lay_out size (start + access) rest

-- Step 4: `std::swap(keyrange_set_[i], keyrange_set_[pos])`
pub swap_units : List KeyrangeUnit → ℕ → ℕ → List KeyrangeUnit
swap_units us i j = elim (get_elem? us i) [
  | none ↦ us
  | some u ↦ elim (get_elem? us j) [ none ↦ us | some v ↦ set (set us i v) j u ]
]

-- `rounds` more rounds from `i` on, with the numbers that are drawn.
pub shuffle_units : ℕ → ℕ → ℕ → (ℕ → ℕ) → List KeyrangeUnit → List KeyrangeUnit
unfolding swap_units
shuffle_units zero i num drawn us = us
shuffle_units (suc rounds) i num drawn us =
    shuffle_units rounds (i + 1) num drawn (swap_units us i (drawn i % num))

-- Step 5: the starts again, after the shuffle.
pub relocate : ℕ → List KeyrangeUnit → List KeyrangeUnit
relocate offset [] = []
relocate offset (u ∷ us) =
    record u { keyrange_start = offset } ∷ relocate (offset + u.keyrange_access) us

abbrev pub total_access : List ℕ → ℕ
total_access [] = 0
total_access (a ∷ rest) = a + total_access rest

-- `InitiateExpDistribution`, given the accesses that Step 1 to 3 compute, one for each range;
-- `flag` is `FLAGS_keyrange_num`.
pub initiate_exp_distribution : ℕ → ℕ → List ℕ → (ℕ → ℕ) → ExpKeys
unfolding lay_out shuffle_units relocate
initiate_exp_distribution total_keys flag accesses drawn =
    let num = if flag == 0 then 1 else flag in
    let size = total_keys / num in
    record {
      keyrange_rand_max = total_access accesses;
      keyrange_size = size;
      keyrange_num = num;
      keyrange_set = relocate 0 (shuffle_units flag 0 flag drawn (lay_out size 0 accesses));
    }

-- The loop of `DistGetKeyID` on fuel: `none` where that runs out, or past the ranges.
pub find_range : ℕ → List KeyrangeUnit → ℕ → ℕ → ℕ → Option ℕ
find_range zero us number start end_range = none
find_range (suc fuel) us number start end_range =
    let mid = start + (end_range - start) / 2 in
    let low = find_range fuel us number start mid in
    let high = find_range fuel us number mid end_range in
    if ltb (start + 1) end_range
    then Option.bind (get_elem? us mid) (λ u. if ltb number u.keyrange_start then low else high)
    else some start

-- `DistGetKeyID`; `offset` is what the floating-point code and its generator give below
-- `keyrange_size_`, where the key distribution is not uniform.
pub dist_get_key_id : ExpKeys → ℕ → Option ℕ → Option ℕ
unfolding find_range
dist_get_key_id g ini_rand offset =
    if g.keyrange_rand_max == 0 || g.keyrange_size == 0
    then none
    else Option.map
        (λ id.
          g.keyrange_size * id + elim offset [ none ↦ ini_rand % g.keyrange_size | some o ↦ o ])
        (find_range (length g.keyrange_set) g.keyrange_set (ini_rand % g.keyrange_rand_max) 0
          (length g.keyrange_set))
