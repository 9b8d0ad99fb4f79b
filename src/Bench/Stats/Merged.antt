-- ===== src/Bench/Stats/Merged.antt =====
-- What `RunBenchmark` of integration/tools/db_bench_tool.cc reports of its threads' `Stats`.
use kvaccel.Base.{
  ℕ, ◌+◌, ◌-◌, ◌%◌, ◌^◌, ◌<◌, ◌≤◌, ◌≡◌, refl, ◌∙◌, ap, sym, inl, inr, Bool-cases, Bool, true, ◌&&◌,
  Option, none, some, List, [], ◌∷◌, ltb, leb, if◌then◌else◌, arith,
}
use mathlib.Core.List.{Permᴰ}
use mathlib.Core.Path.{fun_ext, ap₂}
use kvaccel.Bench.Stats.{
  Meter, Flags, Stats, OperationType, construct, started, both, merge, merge_all, merge_stats,
  elapsed,
}

-- What of the merged numbers is reported, but for the floating-point sum.
pub record Figures (t : Meter) : Type 0 where
  pub counted : OperationType → Option t.Histogram
  pub operations : ℕ
  pub transferred : ℕ
  pub first : ℕ
  pub last : ℕ

abbrev least : ℕ → ℕ → ℕ
least a b = if ltb b a then b else a

abbrev most : ℕ → ℕ → ℕ
most a b = if ltb a b then b else a

sum_right_comm : (a b c : ℕ) → ((a + b) % 2 ^ 64 + c) % 2 ^ 64 ≡ ((a + c) % 2 ^ 64 + b) % 2 ^ 64
sum_right_comm a b c = omega arith

least_right_comm : (a b c : ℕ) → least (least a b) c ≡ least (least a c) b
least_right_comm a b c = ground arith

most_right_comm : (a b c : ℕ) → most (most a b) c ≡ most (most a c) b
most_right_comm a b c = ground arith

module _ (t : Meter) where
  abbrev pub figures : Stats t → Figures t
  figures s = record {
    counted = s.hist;
    operations = s.done;
    transferred = s.bytes;
    first = s.start_;
    last = s.finish_;
  }

  -- Histograms are merged in any order.
  pub record IsAdditive : Type 0 where
    pub comm : (h g : t.Histogram) → t.merge_into h g ≡ t.merge_into g h
    pub right_comm :
        (h g k : t.Histogram)
        → t.merge_into (t.merge_into h g) k ≡ t.merge_into (t.merge_into h k) g

  unfoldable joined : Figures t → Stats t → Figures t
  joined a x = if x.exclude_from_merge then a else record {
    counted = λ o. both t (a.counted o) (x.hist o);
    operations = (a.operations + x.done) % 2 ^ 64;
    transferred = (a.transferred + x.bytes) % 2 ^ 64;
    first = if ltb x.start_ a.first then x.start_ else a.first;
    last = if ltb a.last x.finish_ then x.finish_ else a.last;
  }

  unfoldable joined_all : Figures t → List (Stats t) → Figures t
  unfolding joined
  joined_all a [] = a
  joined_all a (x ∷ xs) = joined_all (joined a x) xs

  figures-merge : (s x : Stats t) → figures (merge t s x) ≡ joined (figures s) x
  unfolding merge joined
  figures-merge s x = elim (Bool-cases x.exclude_from_merge) [
    | inl on ↦ rw on refl
    | inr off ↦ rw off refl
  ]

  figures-merge_all :
      (s : Stats t) (xs : List (Stats t)) → figures (merge_all t s xs) ≡ joined_all (figures s) xs
  unfolding merge_all joined_all
  figures-merge_all s [] = refl
  figures-merge_all s (x ∷ xs) =
      figures-merge_all (merge t s x) xs ∙ ap (λ a. joined_all a xs) (figures-merge s x)

  both-right_comm :
      (add : IsAdditive) (h g k : Option t.Histogram)
      → both t (both t h g) k ≡ both t (both t h k) g
  unfolding both
  both-right_comm add none none none = refl
  both-right_comm add none none (some k) = refl
  both-right_comm add none (some g) none = refl
  both-right_comm add none (some g) (some k) = ap some (add.comm g k)
  both-right_comm add (some h) none none = refl
  both-right_comm add (some h) none (some k) = refl
  both-right_comm add (some h) (some g) none = refl
  both-right_comm add (some h) (some g) (some k) = ap some (add.right_comm h g k)

  joined-right_comm :
      (add : IsAdditive) (a : Figures t) (x y : Stats t)
      → joined (joined a x) y ≡ joined (joined a y) x
  unfolding joined
  joined-right_comm add a x y = elim (Bool-cases x.exclude_from_merge) [
    | inl x_out ↦ rw x_out refl
    | inr x_in ↦ elim (Bool-cases y.exclude_from_merge) [
      | inl y_out ↦ rw (x_in, y_out) refl
      | inr y_in ↦
          rw
            (
              x_in,
              y_in,
              sum_right_comm a.operations x.done y.done,
              sum_right_comm a.transferred x.bytes y.bytes,
              least_right_comm a.first x.start_ y.start_,
              most_right_comm a.last x.finish_ y.finish_,
            )
            (ap
              (λ h. record {
                counted = h;
                operations = ((a.operations + y.done) % 2 ^ 64 + x.done) % 2 ^ 64;
                transferred = ((a.transferred + y.bytes) % 2 ^ 64 + x.bytes) % 2 ^ 64;
                first = least (least a.first y.start_) x.start_;
                last = most (most a.last y.finish_) x.finish_;
              })
              (fun_ext (λ o. both-right_comm add (a.counted o) (x.hist o) (y.hist o))))
    ]
  ]

  joined_all-Permᴰ :
      {xs ys : List (Stats t)}
      → IsAdditive
      → Permᴰ xs ys
      → (a : Figures t) → joined_all a xs ≡ joined_all a ys
  unfolding joined_all
  joined_all-Permᴰ add Permᴰ.nil a = refl
  joined_all-Permᴰ add (Permᴰ.cons {b = b} e p) a = rw e (joined_all-Permᴰ add p (joined a b))
  joined_all-Permᴰ add (Permᴰ.swap {a' = a'} {b' = b'} {l = l} e e') a =
      ap₂ (λ u v. joined_all (joined (joined a u) v) l) e e'
      ∙ ap (λ b. joined_all b l) (joined-right_comm add a b' a')
  joined_all-Permᴰ add (Permᴰ.trans p q) a = joined_all-Permᴰ add p a ∙ joined_all-Permᴰ add q a

  -- If histograms can be merged in any order: the counts of operations and bytes, the start, the
  -- finish and the histograms that `RunBenchmark` merges do not depend on the order of its
  -- threads.
  pub figures-merge_stats :
      (f : Flags) (now later : ℕ) (xs ys : List (Stats t))
      → IsAdditive
      → Permᴰ xs ys
      → figures (merge_stats t f now later xs) ≡ figures (merge_stats t f now later ys)
  unfolding merge_stats
  figures-merge_stats f now later xs ys add p =
      let none_yet = construct t f now later in
      figures-merge_all none_yet xs
      ∙ joined_all-Permᴰ add p (figures none_yet)
      ∙ sym (figures-merge_all none_yet ys)

  -- When the first of the threads that are merged started, and whether all had ended.
  abbrev pub earliest : ℕ → List (Stats t) → ℕ
  earliest n [] = n
  earliest n (x ∷ xs) = earliest (if x.exclude_from_merge then n else least n x.start_) xs

  abbrev pub ended_by : ℕ → List (Stats t) → Bool
  ended_by n [] = true
  ended_by n (x ∷ xs) = leb x.finish_ n && ended_by n xs

  first-joined :
      (a : Figures t) (x : Stats t)
      → (joined a x).first ≡ (if x.exclude_from_merge then a.first else least a.first x.start_)
  unfolding joined
  first-joined a x = elim (Bool-cases x.exclude_from_merge) [
    | inl out ↦ rw out refl
    | inr stays ↦ rw stays refl
  ]

  last-joined :
      (n : ℕ) (a : Figures t) (x : Stats t)
      → leb x.finish_ n ≡ true
      → a.last ≡ n
      → (joined a x).last ≡ n
  unfolding joined
  last-joined n a x ended last = elim (Bool-cases x.exclude_from_merge) [
    | inl out ↦ rw out last
    | inr stays ↦ rw stays (ground arith)
  ]

  joined_all-ended :
      (n : ℕ) (a : Figures t) (xs : List (Stats t))
      → ended_by n xs ≡ true
      → a.last ≡ n
      → ((joined_all a xs).first ≡ earliest a.first xs) × ((joined_all a xs).last ≡ n)
  unfolding joined_all joined
  joined_all-ended n a [] h last = (refl, last)
  joined_all-ended n a (x ∷ xs) h last =
      let (first', last') =
        joined_all-ended n (joined a x) xs (ground arith) (last-joined n a x (ground arith) last) in
      (first' ∙ ap (λ m. earliest m xs) (first-joined a x), last')

  earliest-le : (n : ℕ) (xs : List (Stats t)) → earliest n xs ≤ n
  earliest-le n [] = omega arith
  earliest-le n (x ∷ xs) =
      let rest = earliest-le (if x.exclude_from_merge then n else least n x.start_) xs in
      ground arith

  -- If the threads that are merged had all ended when the merged statistics are made: the time
  -- that is reported is that from the earliest start of those that are not excluded to the making
  -- of the merged statistics, whenever the threads ended.
  pub elapsed-merge_stats :
      (f : Flags) (now later : ℕ) (xs : List (Stats t))
      → now < 2 ^ 64
      → ended_by now xs ≡ true
      → elapsed (merge_stats t f now later xs) ≡ now - earliest now xs
  unfolding merge_stats construct started elapsed
  elapsed-merge_stats f now later xs small h =
      let (first, last) = joined_all-ended now (figures (construct t f now later)) xs h refl in
      let same = figures-merge_all (construct t f now later) xs in
      let first' = ap (λ g. g.first) same ∙ first in
      let last' = ap (λ g. g.last) same ∙ last in
      let early = earliest-le now xs in rw (first', last') (omega arith)
