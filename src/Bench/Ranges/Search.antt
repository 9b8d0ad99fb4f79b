-- ===== src/Bench/Ranges/Search.antt =====
-- That the binary search of `DistGetKeyID` in integration/tools/db_bench_tool.cc ends in the range that
-- holds the number.
use kvaccel.Base.{
  ℕ, zero, suc, ◌+◌, ◌-◌, ◌/◌, ◌≤◌, ◌<◌, ◌≡◌, refl, ap, subst, some, List, [], ◌∷◌, get_elem?,
  length, ltb, arith, inl, inr, Bool-cases, ltb→lt,
}
use mathlib.Core.Option
use kvaccel.Bench.Ranges.{KeyrangeUnit, relocate, find_range}

-- Where range `i` begins.
abbrev pub boundary : List KeyrangeUnit → ℕ → ℕ
boundary us zero = 0
boundary [] (suc i) = 0
boundary (u ∷ us) (suc i) = u.keyrange_access + boundary us i

get_elem?-relocate :
    (offset i : ℕ) (us : List KeyrangeUnit)
    → i < length us
    → (u : KeyrangeUnit) × (get_elem? (relocate offset us) i ≡ some u)
      × (u.keyrange_start ≡ offset + boundary us i)
      × (boundary us (suc i) ≡ boundary us i + u.keyrange_access)
unfolding relocate
get_elem?-relocate offset i [] h = absurd (omega arith)
get_elem?-relocate offset zero (u ∷ us) h =
    (record u { keyrange_start = offset }, refl, omega arith, omega arith)
get_elem?-relocate offset (suc i) (u ∷ us) h =
    let (v, there, begins, ends) =
      get_elem?-relocate (offset + u.keyrange_access) i us (omega arith) in
    (v, there, omega (arith, begins), omega (arith, ends))

length-relocate : (offset : ℕ) (us : List KeyrangeUnit) → length (relocate offset us) ≡ length us
unfolding relocate
length-relocate offset [] = refl
length-relocate offset (u ∷ us) = ap suc (length-relocate (offset + u.keyrange_access) us)

-- Between two boundaries that hold the number.
find_range-between :
    (fuel lo hi number : ℕ) (us : List KeyrangeUnit)
    → hi ≤ length us
    → lo < hi
    → hi ≤ lo + fuel
    → boundary us lo ≤ number
    → number < boundary us hi
    → (id : ℕ) × (find_range fuel (relocate 0 us) number lo hi ≡ some id)
      × (id < length us)
      × (boundary us id ≤ number)
      × (number < boundary us (suc id))
unfolding find_range Option.bind
find_range-between zero lo hi number us inside less enough above below = absurd (omega arith)
find_range-between (suc fuel) lo hi number us inside less enough above below =
    elim (Bool-cases (ltb (lo + 1) hi)) [
      | inr done ↦
          let last : hi ≡ suc lo = ground (arith, done, less) in
          (
            lo,
            rw done refl,
            omega (arith, inside, less),
            above,
            subst (λ k. number < boundary us k) last below,
          )
      | inl more ↦
          let more' = ltb→lt _ _ more in
          let mid = lo + (hi - lo) / 2 in
          let (u, there, begins, ends) =
            get_elem?-relocate 0 mid us (omega (arith, inside, less)) in
          elim (Bool-cases (ltb number u.keyrange_start)) [
            | inl left ↦
                let (id, found, inner, over, under) =
                  find_range-between fuel lo mid number us (omega (arith, inside))
                    (omega (arith, more')) (omega (arith, enough, more')) above
                    (ground (arith, left, begins)) in
                (id, rw (more, there, left) found, inner, over, under)
            | inr right ↦
                let (id, found, inner, over, under) =
                  find_range-between fuel mid hi number us inside (omega (arith, less))
                    (omega (arith, enough, more')) (ground (arith, right, begins)) below in
                (id, rw (more, there, right) found, inner, over, under)
          ]
    ]

-- For a number below the sum of the accesses, the search over the ranges laid end to end, with as
-- much fuel as there are ranges, ends, and the number lies in the range that it answers.
find_range-relocate :
    (us : List KeyrangeUnit) (number : ℕ)
    → number < boundary us (length us)
    → (id : ℕ) × (u : KeyrangeUnit) × (find_range (length us) (relocate 0 us) number 0 (length us)
        ≡ some id)
      × (get_elem? (relocate 0 us) id ≡ some u)
      × (u.keyrange_start ≤ number)
      × (number < u.keyrange_start + u.keyrange_access)
find_range-relocate [] number below = absurd (omega arith)
find_range-relocate (v ∷ us) number below =
    let (id, found, inside, above, under) =
      find_range-between (length (v ∷ us)) 0 (length (v ∷ us)) number (v ∷ us) (omega arith)
        (omega arith) (omega arith) (omega arith) below in
    let (u, there, begins, ends) = get_elem?-relocate 0 id (v ∷ us) inside in
    (id, u, found, there, omega (arith, begins, above), omega (arith, begins, ends, under))
