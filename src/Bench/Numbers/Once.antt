-- ===== src/Bench/Numbers/Once.antt =====
-- Which numbers `KeyGenerator` of integration/tools/db_bench_tool.cc answers in its mode for unique keys.
use kvaccel.Base.{
  ℕ, zero, suc, ◌+◌, ◌≤◌, ◌<◌, ◌≡◌, refl, ◌∙◌, ap, some, List, [], ◌∷◌, ◌++◌, get_elem?, take, drop,
  length, length-append, bit, ltb, ◌==◌, arith,
}
use kvaccel.Bench.{Tools}
use kvaccel.Bench.Numbers.{unique_random, ascending, key_generator, fetch, next_number, draws}

abbrev pub occurrences : ℕ → List ℕ → ℕ
occurrences n [] = 0
occurrences n (x ∷ xs) = bit (n == x) + occurrences n xs

-- What RocksDB documents of `RandomShuffle`: the same elements, in another order.
pub record IsShuffle (shuffle : List ℕ → List ℕ) : Type 0 where
  pub length-shuffle : (xs : List ℕ) → length (shuffle xs) ≡ length xs
  pub occurrences-shuffle : (n : ℕ) (xs : List ℕ) → occurrences n (shuffle xs) ≡ occurrences n xs

occurrences-append :
    (n : ℕ) (xs ys : List ℕ) → occurrences n (xs ++ ys) ≡ occurrences n xs + occurrences n ys
occurrences-append n [] ys = omega arith
occurrences-append n (x ∷ xs) ys = omega (arith, occurrences-append n xs ys)

length-ascending : (n : ℕ) → length (ascending n) ≡ n
unfolding ascending
length-ascending zero = refl
length-ascending (suc n) = omega (arith, length-append (ascending n) (n ∷ []), length-ascending n)

occurrences-ascending : (k n : ℕ) → occurrences k (ascending n) ≡ bit (ltb k n)
unfolding ascending
occurrences-ascending k zero = ground arith
occurrences-ascending k (suc n) =
    ground (arith, occurrences-append k (ascending n) (n ∷ []), occurrences-ascending k n)

drop-cons :
    (xs : List ℕ) (i : ℕ)
    → i < length xs
    → (x : ℕ) × (get_elem? xs i ≡ some x) × (drop i xs ≡ x ∷ drop (suc i) xs)
drop-cons [] i h = absurd (omega arith)
drop-cons (x ∷ xs) zero h = (x, refl, refl)
drop-cons (x ∷ xs) (suc i) h = drop-cons xs i (omega arith)

take-all : (n : ℕ) (xs : List ℕ) → length xs ≡ n → take n xs ≡ xs
take-all zero [] h = refl
take-all zero (x ∷ xs) h = absurd (omega (arith, h))
take-all (suc n) [] h = absurd (omega (arith, h))
take-all (suc n) (x ∷ xs) h = ap (◌∷◌ x) (take-all n xs (omega (arith, h)))

module _ (t : Tools) where
  pub next_number_unique :
      (num i x : ℕ) (values : List ℕ) (r : t.Random)
      → get_elem? values i ≡ some x
      → next_number t (record { mode = unique_random; num = num; next_ = i; values_ = values }) r
        ≡ some (x, record { mode = unique_random; num = num; next_ = i + 1; values_ = values }, r)
  unfolding next_number fetch
  next_number_unique num i x values r there = rw there refl

  -- From position `i` on, the generator answers the values one by one.
  draws-from :
      (n i num : ℕ) (values : List ℕ) (r : t.Random)
      → i + n ≤ length values
      → draws t n (record { mode = unique_random; num = num; next_ = i; values_ = values }) r
        ≡ some (take n (drop i values))
  unfolding draws
  draws-from zero i num values r fits = refl
  draws-from (suc n) i num values r fits =
      let (x, there, rest) = drop-cons values i (omega (arith, fits)) in
      let next : i + 1 ≡ suc i = omega arith in
      rw
        (
          next_number_unique num i x values r there,
          draws-from n (i + 1) num values r (omega (arith, fits)),
          next,
          rest,
        )
        refl

  -- In the mode for unique keys, as many numbers as the generator is made for can be drawn, and a
  -- number is among them once if it is below that, and not otherwise.
  pub draws-key_generator :
      (shuffle : List ℕ → List ℕ) (num k : ℕ) (r : t.Random)
      → IsShuffle shuffle
      → (xs : List ℕ) × (draws t num (key_generator shuffle unique_random num) r ≡ some xs)
        × (length xs ≡ num)
        × (occurrences k xs ≡ bit (ltb k num))
  unfolding key_generator
  draws-key_generator shuffle num k r s =
      let values = shuffle (ascending num) in
      let size : length values ≡ num = s.length-shuffle (ascending num) ∙ length-ascending num in
      (
        values,
        draws-from num 0 num values r (omega (arith, size)) ∙ ap some (take-all num values size),
        size,
        s.occurrences-shuffle k (ascending num) ∙ occurrences-ascending k num,
      )
