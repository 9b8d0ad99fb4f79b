-- ===== src/HashMap/Lookup.antt =====
-- `Get` of kvaccel/util/hash_map.h: which of several entries with one key it answers.
use mathlib.Core.Option
use kvaccel.Base.{
  ℕ, ◌%◌, ◌≡◌, refl, inl, inr, Option, none, some, List, [], ◌∷◌, arith, ◌==◌, if◌then◌else◌,
  Bool-cases, Option-cases, get_elem?, push_back,
}
use kvaccel.HashMap.{HashMap, bucket, contains, insert, get, is_found}
use kvaccel.HashMap.Bucket.{find_if}
use kvaccel.HashMap.Laws.{IsSized, written}

module _ {V : Type 0} where
  abbrev value_at : List (ℕ × V) → Option ℕ → Option V
  value_at b none = none
  value_at b (some i) = Option.map (λ e. e.1) (get_elem? b i)

  -- The value of the first entry with the key.
  abbrev first_value : ℕ → List (ℕ × V) → Option V
  first_value key [] = none
  first_value key (e ∷ b) = if e.0 == key then some e.1 else first_value key b

  value_at-find_if : (key : ℕ) (b : List (ℕ × V)) → value_at b (find_if key b) ≡ first_value key b
  unfolding find_if
  value_at-find_if key [] = refl
  value_at-find_if key (e ∷ b) = ground (arith, value_at-find_if key b)

  first_value-push_back :
      (key : ℕ) (b : List (ℕ × V)) (e : ℕ × V)
      → first_value key (push_back b e) ≡ (
          if is_found (find_if key b)
          then first_value key b
          else if e.0 == key
          then some e.1
          else none)
  unfolding find_if is_found
  first_value-push_back key [] e = ground arith
  first_value-push_back key (x ∷ b) e = ground (arith, first_value-push_back key b e)

module _ {V : Type 0} (size : ℕ) where
  get-first_value : (m : HashMap V) (k : ℕ) → get size m k ≡ first_value k (bucket size m k)
  unfolding get
  get-first_value m k = elim (Option-cases (find_if k (bucket size m k))) [
    | inl e ↦ rw (e, get) (ground (arith, e, value_at-find_if k (bucket size m k)))
    | inr (i, e) ↦ rw (e, get) (ground (arith, e, value_at-find_if k (bucket size m k)))
  ]

  -- In a table with its buckets, `Insert` does not overwrite: afterwards `Get` answers the old
  -- value of a key that was there, the new value of the new key, and nothing for any other.
  pub get-insert :
      (m : HashMap V) (k j : ℕ) (v : V)
      → IsSized size m
      → get size (insert size m k v) j
        ≡ (if contains size m j then get size m j else if k == j then some v else none)
  unfolding insert contains is_found
  get-insert m k j v s =
      rw (get-first_value (insert size m k v) j, get-first_value m j)
        (elim (Bool-cases (k % size == j % size)) [
          | inl e ↦
              let e' : j % size ≡ k % size = ground arith in
              rw (written size m k j s _, e)
                (rw e' (first_value-push_back j (bucket size m k) (k, v)))
          | inr n ↦
              rw (written size m k j s _, n)
                (ground (arith, n, value_at-find_if j (bucket size m j)))
        ])
