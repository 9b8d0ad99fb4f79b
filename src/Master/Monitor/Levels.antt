-- ===== src/Master/Monitor/Levels.antt =====
-- The levels of `Monitor_Consumer` in kvaccel/db/db_impl/db_impl_master.cc.
use kvaccel.Base.{
  ◌↔◌, ◌⊎◌, inl, inr, Bool-cases, false, ℕ, Bool, true, ◌||◌, ◌+◌, ◌≤◌, ◌<◌, ◌≡◌, arith, ◌^◌, leb,
  if◌then◌else◌,
}
use kvaccel.Base.Int.{ℤ, pos, leb_ℤ, ◌+ℤ◌}
use kvaccel.Master.{Level, level_zero, level_low, level_middle, level_high}
use kvaccel.Master.Monitor.{classify, hard_threshold, is_zero, middle_threshold, reserve}

abbrev pub rank : Level → ℕ
rank level_zero = 0
rank level_low = 1
rank level_middle = 2
rank level_high = 3

-- The ladder of `classify` climbs with its two tests.
rank-ladder_mono :
    (a d a' d' : Bool)
    → (a ≡ true → a' ≡ true)
    → (d ≡ true → d' ≡ true)
    → rank (if a then level_high else if d then level_middle else level_low)
      ≤ rank (if a' then level_high else if d' then level_middle else level_low)
rank-ladder_mono a d a' d' f g = ground arith

rank-empty_mono :
    (z z' : Bool) (x y : Level)
    → (z' ≡ true → z ≡ true)
    → rank x ≤ rank y
    → rank (if z then level_zero else x) ≤ rank (if z' then level_zero else y)
rank-empty_mono z z' x y f h = ground arith

is_zero_mono : (x y : ℕ) → x ≤ y → is_zero (pos y) ≡ true → is_zero (pos x) ≡ true
is_zero_mono x y h k = ground arith

leb-sum_mono :
    (m : ℤ) (x y : ℕ)
    → x ≤ y
    → leb_ℤ (pos 36) (pos x +ℤ m) ≡ true
    → leb_ℤ (pos 36) (pos y +ℤ m) ≡ true
leb-sum_mono m x y h k = ground arith

leb-pos_mono : (m : ℤ) (x y : ℕ) → x ≤ y → leb_ℤ m (pos x) ≡ true → leb_ℤ m (pos y) ≡ true
leb-pos_mono m x y h k = ground arith

leb_mono : (m x y : ℕ) → x ≤ y → leb m x ≡ true → leb m y ≡ true
leb_mono m x y h k = ground arith

or_mono :
    (a b c d : Bool)
    → (a ≡ true → c ≡ true)
    → (b ≡ true → d ≡ true)
    → (a || b) ≡ true
    → (c || d) ≡ true
or_mono a b c d f g h = ground arith

-- With as many memtables and the same limits, neither more files at level 0 nor more pending bytes
-- lower the level.
pub rank-classify_mono :
    (high memtables : ℤ) (l0 l0' pending pending' soft hard : ℕ)
    → l0 ≤ l0'
    → pending ≤ pending'
    → rank (classify high (pos l0) memtables pending soft hard)
      ≤ rank (classify high (pos l0') memtables pending' soft hard)
unfolding classify
rank-classify_mono high m l0 l0' p p' soft hard h k =
    rank-empty_mono _ _ _ _ (is_zero_mono l0 l0' h) (
      rank-ladder_mono _ _ _ _
        (or_mono _ _ _ _
          (or_mono _ _ _ _ (leb-pos_mono (pos 36) l0 l0' h) (leb-sum_mono m l0 l0' h))
          (leb_mono (hard_threshold hard) p p' k))
        (or_mono _ _ _ _ (leb-pos_mono high l0 l0' h)
          (leb_mono (middle_threshold soft hard) p p' k)))

ladder-high :
    (z a d : Bool)
    → ((if z then level_zero else if a then level_high else if d then level_middle else level_low)
        ≡ level_high)
      ↔ ((z ≡ false) × (a ≡ true))
ladder-high z a d = ground arith

sum-over : (l0 m : ℕ) → (leb_ℤ (pos 36) (pos l0 +ℤ pos m) ≡ true) ↔ (36 ≤ l0 + m)
sum-over l0 m = ground arith

or-over :
    {P Q : Type 0} (a b c : Bool)
    → (a ≡ true → b ≡ true)
    → (b ≡ true) ↔ P
    → (c ≡ true) ↔ Q
    → ((a || b || c) ≡ true) ↔ (P ⊎ Q)
or-over a b c f p q = (
  λ h. elim (Bool-cases b) [
    | inl yes' ↦ inl (p.0 yes')
    | inr no' ↦ inr (q.0 (ground (arith, f, h, no')))
  ],
  λ h. elim h [
    | inl x ↦ let yes' = p.1 x in ground (arith, yes')
    | inr y ↦ let yes' = q.1 y in ground (arith, yes')
  ],
)

some-files : (l0 : ℕ) → (is_zero (pos l0) ≡ false) ↔ (0 < l0)
some-files l0 = ground arith

one-over : (l0 m : ℕ) → leb_ℤ (pos 36) (pos l0) ≡ true → leb_ℤ (pos 36) (pos l0 +ℤ pos m) ≡ true
one-over l0 m h = ground arith

limit-over :
    (pending hard : ℕ)
    → reserve ≤ hard
    → hard < 2 ^ 64
    → (leb (hard_threshold hard) pending ≡ true) ↔ (hard ≤ pending + reserve)
limit-over pending hard big fits = ground arith

-- With a hard limit from 2 MB to below 2^64 and a number of full memtables that is not negative,
-- the level is a stall exactly if there is a file at level 0 and the files and memtables are 36 or
-- more or the pending bytes reach the hard limit less 2 MB.
pub classify-high :
    (high : ℤ) (l0 memtables pending soft hard : ℕ)
    → reserve ≤ hard
    → hard < 2 ^ 64
    → (classify high (pos l0) (pos memtables) pending soft hard ≡ level_high)
      ↔ ((0 < l0) × ((36 ≤ l0 + memtables) ⊎ (hard ≤ pending + reserve)))
unfolding classify
classify-high high l0 m p soft hard big fits =
    let (to, back) =
      ladder-high (is_zero (pos l0)) _
        (leb_ℤ high (pos l0) || leb (middle_threshold soft hard) p) in
    let (over_to, over_back) =
      or-over (leb_ℤ (pos 36) (pos l0)) (leb_ℤ (pos 36) (pos l0 +ℤ pos m))
        (leb (hard_threshold hard) p) (one-over l0 m) (sum-over l0 m)
        (limit-over p hard big fits) in
    let (some_to, some_back) = some-files l0 in
    (λ h. (some_to (to h).0, over_to (to h).1), λ h. back (some_back h.0, over_back h.1))
