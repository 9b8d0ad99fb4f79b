-- ===== src/HashMap/Popping.antt =====
-- `Pop` of kvaccel/util/hash_map.h, against all the entries of the table.
use kvaccel.Base.{
  ℕ, zero, suc, ◌+◌, ◌<◌, ◌≡◌, refl, inl, inr, none, some, List, [], ◌∷◌, arith, bit, ◌==◌, get_or,
  set, length, Option-cases, ap, ◌⊎◌,
}
use kvaccel.HashMap.{HashMap, first_used, pop, decrement}
use kvaccel.HashMap.Bucket.{occurrences, occurrences-swap_out, swap_out}

module _ {V : Type 0} where
  -- How many entries of the table have this key, in any bucket.
  abbrev pub total : ℕ → List (List (ℕ × V)) → ℕ
  total key [] = 0
  total key (b ∷ bs) = occurrences key b + total key bs

  total-set :
      (key i : ℕ) (t : List (List (ℕ × V))) (b : List (ℕ × V))
      → i < length t
      → total key (set t i b) + occurrences key (get_or t i []) ≡ total key t + occurrences key b
  total-set key i [] b h = absurd (omega arith)
  total-set key zero (x ∷ t) b h = omega arith
  total-set key (suc i) (x ∷ t) b h = omega (arith, total-set key i t b (omega arith))

  -- The first bucket that is not empty, if there is one.
  first_used-some :
      (t : List (List (ℕ × V))) (i : ℕ)
      → first_used t ≡ some i
      → (e : ℕ × V) × (b : List (ℕ × V)) × (get_or t i [] ≡ e ∷ b) × (i < length t)
  unfolding first_used
  first_used-some [] i h = cc
  first_used-some ((e ∷ b) ∷ t) zero h = (e, b, refl, omega arith)
  first_used-some ((e ∷ b) ∷ t) (suc i) h = cc
  first_used-some ([] ∷ t) zero h = elim (Option-cases (first_used t)) [
    | inl e ↦ absurd (ground (arith, h, e))
    | inr (j, e) ↦ absurd (ground (arith, h, e))
  ]
  first_used-some ([] ∷ t) (suc i) h =
      let (e, b, at, small) = first_used-some t i (ground (arith, h)) in (e, b, at, omega arith)

  first_used-none : (key : ℕ) (t : List (List (ℕ × V))) → first_used t ≡ none → total key t ≡ 0
  unfolding first_used
  first_used-none key [] h = refl
  first_used-none key ((e ∷ b) ∷ t) h = cc
  first_used-none key ([] ∷ t) h = omega (arith, first_used-none key t (ground (arith, h)))

  -- `Pop` finds nothing exactly where no key is in the table; otherwise it answers the value of an
  -- entry that begins a bucket, the new table holds that key once less and every other as often as
  -- before, and the count is counted down once.
  pub pop-total :
      (m : HashMap V)
      → ((pop m ≡ none) × ((key : ℕ) → total key m.table ≡ 0))
        ⊎ ((m' : HashMap V) × (i k : ℕ) × (v : V) × (b : List (ℕ × V)) × (pop m ≡ some (v, m'))
            × (get_or m.table i [] ≡ (k, v) ∷ b)
            × ((key : ℕ) → total key m.table ≡ total key m'.table + bit (k == key))
            × (m'.count ≡ decrement m.count))
  unfolding pop
  pop-total m = elim (Option-cases (first_used m.table)) [
    | inl e ↦ inl (rw (e, pop) refl, λ key. first_used-none key m.table e)
    | inr (i, e) ↦
        let ((k, v), b, at, small) = first_used-some m.table i e in
        let rest = swap_out 0 ((k, v) ∷ b) in
        inr (
          record { table = set m.table i rest; count = decrement m.count },
          i,
          k,
          v,
          b,
          rw (e, at, pop) refl,
          at,
          λ key. omega (
            arith,
            total-set key i m.table rest small,
            ap (occurrences key) at,
            occurrences-swap_out key 0 ((k, v) ∷ b) (k, v) refl,
          ),
          refl,
        )
  ]
