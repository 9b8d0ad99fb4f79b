-- ===== src/Bench/Values.antt =====
-- `BaseDistribution` with its three kinds, and `RandomGenerator`, of
-- integration/tools/db_bench_tool.cc: the values that the workloads write.
use kvaccel.Base.{
  ℕ, ◌+◌, ◌-◌, ◌%◌, ◌^◌, ◌≤◌, ◌<◌, ◌≡◌, arith, ltb, if◌then◌else◌, length, take, drop, length-take,
  length-drop,
}
use Prim.Native.Nat.{min, max}
use kvaccel.Base.Bytes.{Bytes}

-- `DistributionType`, with the sizes that the constructors take.
pub data Distribution : Type 0 where
  fixed : ℕ → Distribution
  uniform normal : ℕ → ℕ → Distribution

-- `BaseDistribution::Generate`; `drawn` is what the standard library's distribution answers. Only
-- the normal one is truncated.
unfoldable pub draw_size : Distribution → ℕ → ℕ
draw_size (fixed size) drawn = size
draw_size (uniform least most) drawn = drawn
draw_size (normal least most) drawn = min most (max least drawn)

pub record RandomGenerator : Type 0 where
  pub data_ : Bytes
  pub pos_ : ℕ

-- `Generate(len)`: the slice from `pos_` on. `pos_` is an `unsigned int`, and so is the sum.
unfoldable pub generate : ℕ → RandomGenerator → Bytes × RandomGenerator
generate len g =
    let from = if ltb (length g.data_) ((g.pos_ + len) % 2 ^ 32) then 0 else g.pos_ in
    let to = (from + len) % 2 ^ 32 in (take len (drop (to - len) g.data_), record g { pos_ = to })

-- `Generate()`
unfoldable pub generate_sized : Distribution → ℕ → RandomGenerator → Bytes × RandomGenerator
unfolding draw_size generate
generate_sized d drawn g = generate (draw_size d drawn) g

-- The data is no longer than a position counts, and the position lies in it.
pub record IsReady (g : RandomGenerator) : Type 0 where
  pub small : length g.data_ < 2 ^ 31
  pub inside : g.pos_ ≤ length g.data_

-- From a ready generator, a value of any length up to that of the data has exactly that length,
-- and the generator stays ready.
pub generate-IsReady :
    (len : ℕ) (g : RandomGenerator)
    → IsReady g
    → len ≤ length g.data_
    → (length (generate len g).0 ≡ len) × IsReady (generate len g).1
unfolding generate
generate-IsReady len g r fits =
    let from = if ltb (length g.data_) ((g.pos_ + len) % 2 ^ 32) then 0 else g.pos_ in
    let inside : from + len ≤ length g.data_ = ground (arith, r.small, r.inside, fits) in
    (
      omega (
        arith,
        inside,
        r.small,
        length-take len (drop ((from + len) % 2 ^ 32 - len) g.data_),
        length-drop ((from + len) % 2 ^ 32 - len) g.data_,
      ),
      record { small = r.small; inside = omega (arith, inside, r.small) },
    )
