-- ===== src/HashMap/Bucket.antt =====
-- The bucket operations of kvaccel/util/hash_map.h: `std::find_if` by key, and removal by moving
-- the last entry into the gap.
use kvaccel.Base.{
  ℕ, zero, suc, ◌+◌, ◌-◌, ◌<◌, ◌≡◌, refl, Option, none, some, List, [], ◌∷◌, arith, ◌==◌,
  if◌then◌else◌, bit, back?, pop_back, push_back, set, length, get_elem?, ap,
}
use mathlib.Core.Option

module _ {V : Type 0} where
  -- The index of the first entry with this key.
  unfoldable pub find_if : ℕ → List (ℕ × V) → Option ℕ
  find_if key [] = none
  find_if key (e ∷ b) = if e.0 == key then some 0 else Option.map suc (find_if key b)

  -- `*it = *last` unless they are one entry, then `pop_back`.
  overwrite : ℕ → Option (ℕ × V) → List (ℕ × V) → List (ℕ × V)
  overwrite i none b = b
  overwrite i (some last) b = if i == length b - 1 then b else set b i last

  pub swap_out : ℕ → List (ℕ × V) → List (ℕ × V)
  unfolding overwrite
  swap_out i b = pop_back (overwrite i (back? b) b)

  -- How many entries have this key.
  abbrev pub occurrences : ℕ → List (ℕ × V) → ℕ
  occurrences key [] = 0
  occurrences key (e ∷ b) = bit (e.0 == key) + occurrences key b

  pub occurrences-push_back :
      (key : ℕ) (b : List (ℕ × V)) (e : ℕ × V)
      → occurrences key (push_back b e) ≡ occurrences key b + bit (e.0 == key)
  occurrences-push_back key [] e = omega arith
  occurrences-push_back key (x ∷ b) e = omega (arith, occurrences-push_back key b e)

  occurrences-back? :
      (key : ℕ) (b : List (ℕ × V)) (last : ℕ × V)
      → back? b ≡ some last
      → occurrences key b ≡ occurrences key (pop_back b) + bit (last.0 == key)
  occurrences-back? key [] last h = cc
  occurrences-back? key (x ∷ []) last h = ground arith
  occurrences-back? key (x ∷ y ∷ b) last h = omega (arith, occurrences-back? key (y ∷ b) last h)

  back?-cons : (y : ℕ × V) (r : List (ℕ × V)) → (l : ℕ × V) × (back? (y ∷ r) ≡ some l)
  back?-cons y [] = (y, refl)
  back?-cons y (z ∷ r) = back?-cons z r

  pop_back-cons-set :
      (x l y : ℕ × V) (r : List (ℕ × V)) (i : ℕ)
      → pop_back (x ∷ set (y ∷ r) i l) ≡ x ∷ pop_back (set (y ∷ r) i l)
  pop_back-cons-set x l y r zero = refl
  pop_back-cons-set x l y r (suc i) = refl

  swap_out-suc :
      (x y : ℕ × V) (r : List (ℕ × V)) (i : ℕ)
      → swap_out (suc i) (x ∷ y ∷ r) ≡ x ∷ swap_out i (y ∷ r)
  unfolding swap_out
  swap_out-suc x y r i =
      let (l, e) = back?-cons y r in ground (arith, e, pop_back-cons-set x l y r i)

  -- Removal by swapping takes out exactly one entry with its key, whatever the order becomes.
  pub occurrences-swap_out :
      (key i : ℕ) (b : List (ℕ × V)) (e : ℕ × V)
      → get_elem? b i ≡ some e
      → occurrences key b ≡ occurrences key (swap_out i b) + bit (e.0 == key)
  unfolding swap_out
  occurrences-swap_out key i [] e h = cc
  occurrences-swap_out key zero (x ∷ []) e h = ground arith
  occurrences-swap_out key (suc i) (x ∷ []) e h = cc
  occurrences-swap_out key zero (x ∷ y ∷ r) e h =
      let (l, n) = back?-cons y r in ground (arith, n, occurrences-back? key (y ∷ r) l)
  occurrences-swap_out key (suc i) (x ∷ y ∷ r) e h =
      omega
        (arith, ap (occurrences key) (swap_out-suc x y r i), occurrences-swap_out key i (y ∷ r) e h)

  -- `find_if` finds an entry with the key, exactly when there is one.
  pub find_if-some :
      (key i : ℕ) (b : List (ℕ × V))
      → find_if key b ≡ some i
      → (e : ℕ × V) × (get_elem? b i ≡ some e) × (e.0 ≡ key)
  unfolding find_if
  find_if-some key i [] h = cc
  find_if-some key zero (x ∷ b) h = (x, refl, ground arith)
  find_if-some key (suc i) (x ∷ b) h = find_if-some key i b (ground arith)

  pub find_if-none : (key : ℕ) (b : List (ℕ × V)) → find_if key b ≡ none → occurrences key b ≡ 0
  unfolding find_if
  find_if-none key [] h = refl
  find_if-none key (x ∷ b) h = ground (arith, find_if-none key b)

  pub find_if-some-pos :
      (key i : ℕ) (b : List (ℕ × V)) → find_if key b ≡ some i → 0 < occurrences key b
  find_if-some-pos key i b h =
      let (e, at, same) = find_if-some key i b h in
      ground (arith, occurrences-swap_out key i b e at)

  -- A new entry is found only behind the entries that are there already.
  pub find_if-push_back :
      (key : ℕ) (b : List (ℕ × V)) (e : ℕ × V)
      → find_if key (push_back b e) ≡ elim (find_if key b) [
        | some i ↦ some i
        | none ↦ if e.0 == key then some (length b) else none
      ]
  unfolding find_if
  find_if-push_back key [] e = ground arith
  find_if-push_back key (x ∷ b) e = ground (arith, find_if-push_back key b e)
