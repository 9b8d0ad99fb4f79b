-- ===== src/Bench/Duration.antt =====
-- `Duration` of integration/tools/db_bench_tool.cc, which decides when a workload ends. The clock's
-- reading is an argument; `ops_` stays below 2^63.
use kvaccel.Base.{
  ℕ, zero, suc, ◌+◌, ◌-◌, ◌*◌, ◌/◌, ◌%◌, ◌^◌, ◌≤◌, ◌<◌, ◌≡◌, refl, ◌∙◌, ap, Bool, false, not,
  Option, none, some, arith, ltb, leb, ◌==◌, if◌then◌else◌,
}
use Prim.Native.Nat.{min}
use native.Mathlib.Nat.{suc-mul, div-add-mod', mod-lt, div-le_self}
use kvaccel.Base.Int.{ℤ, pos, negsuc}
use mathlib.Core.Option

pub record Duration : Type 0 where
  pub max_seconds : ℕ
  pub max_ops : ℕ
  pub ops_per_stage : ℕ
  pub ops : ℕ
  pub start_at : ℕ

-- The constructor, with what the clock says.
unfoldable pub start : ℕ → ℕ → ℕ → ℕ → Duration
start max_seconds max_ops ops_per_stage now = record {
  max_seconds = max_seconds;
  max_ops = max_ops;
  ops_per_stage = if ltb 0 ops_per_stage then ops_per_stage else max_ops;
  ops = 0;
  start_at = now;
}

-- `std::min(ops_, max_ops_ - 1) / ops_per_stage_`, rounded towards 0; `none` where it divides by 0.
pub get_stage : Duration → Option ℤ
get_stage d =
    if d.ops_per_stage == 0
    then none
    else if d.max_ops == 0
    then some (if d.ops_per_stage == 1 then negsuc 0 else pos 0)
    else some (pos (min d.ops (d.max_ops - 1) / d.ops_per_stage))

-- `Done(0)` counts as one operation.
pub step_of : ℕ → ℕ
step_of increment = if leb increment 0 then 1 else increment

-- `granularity` is `FLAGS_ops_between_duration_checks`, which is not 0.
unfoldable pub done : ℕ → ℕ → ℕ → Duration → Bool × Duration
done granularity increment now d =
    let n = step_of increment in
    let ops = d.ops + n in
    let elapsed = (now + 2 ^ 64 - d.start_at) % 2 ^ 64 / 1000000 in
    let checks = not (ops / granularity == (ops - n) / granularity) in
    (
      if ltb 0 d.max_seconds
          then (if checks then leb d.max_seconds elapsed else false)
          else ltb d.max_ops ops,
      record d { ops = ops },
    )

-- `while (!duration.Done(increment)) body`, on fuel: how often the body runs, by what the clock
-- says at each test.
pub rounds : ℕ → ℕ → ℕ → (ℕ → ℕ) → ℕ → Duration → Option ℕ
rounds zero granularity increment clock i d = none
rounds (suc fuel) granularity increment clock i d =
    let (over, d') = done granularity increment (clock i) d in
    let rest = rounds fuel granularity increment clock (i + 1) d' in
    if over then some 0 else Option.map suc rest

-- Without a time limit, only the operations count.
pub done-untimed :
    (granularity increment now : ℕ) (d : Duration)
    → d.max_seconds ≡ 0
    → done granularity increment now d
      ≡ (ltb d.max_ops (d.ops + step_of increment), record d { ops = d.ops + step_of increment })
unfolding done
done-untimed granularity increment now d untimed = rw untimed refl

-- A budget of operations ends the loop, after as many rounds as the increments fit.
rounds-from :
    (n fuel granularity increment i : ℕ) (clock : ℕ → ℕ) (d : Duration)
    → d.max_seconds ≡ 0
    → d.ops + n * step_of increment ≤ d.max_ops
    → d.max_ops < d.ops + n * step_of increment + step_of increment
    → n < fuel
    → rounds fuel granularity increment clock i d ≡ some n
unfolding rounds
rounds-from n zero granularity increment i clock d untimed fits full enough = absurd (omega arith)
rounds-from zero (suc fuel) granularity increment i clock d untimed fits full enough =
    rw (done-untimed granularity increment (clock i) d untimed) (ground arith)
rounds-from (suc n) (suc fuel) granularity increment i clock d untimed fits full enough =
    let by = step_of increment in
    let d' : Duration = record d { ops = d.ops + by } in
    let step : suc n * by ≡ by + n * by = suc-mul n by ∙ omega arith in
    let rest : rounds fuel granularity increment clock (i + 1) d' ≡ some n =
      rounds-from n fuel granularity increment (i + 1) clock d' untimed (omega (arith, step, fits))
        (omega (arith, step, full)) (omega arith) in
    let going : ltb d.max_ops (d.ops + by) ≡ false = ground (arith, step, fits) in
    rw (done-untimed granularity increment (clock i) d untimed, going, rest) refl

pub step_of_self : (increment : ℕ) → 0 < increment → step_of increment ≡ increment
unfolding step_of
step_of_self increment positive = ground (arith, positive)

step_of_pos : (increment : ℕ) → 0 < step_of increment
unfolding step_of
step_of_pos increment = ground arith

-- Without a time limit, the loop on a fresh duration ends on any fuel above its budget, whatever
-- the clock says, and its body has run as many times as whole increments (an increment of 0 counts
-- as 1) go into the budget.
pub rounds-start :
    (max_ops ops_per_stage now fuel granularity increment : ℕ) (clock : ℕ → ℕ)
    → max_ops < fuel
    → rounds fuel granularity increment clock 0 (start 0 max_ops ops_per_stage now)
      ≡ some (max_ops / step_of increment)
unfolding start
rounds-start max_ops ops_per_stage now fuel granularity increment clock enough =
    let by = step_of increment in
    let parts : max_ops / by * by + max_ops % by ≡ max_ops = div-add-mod' max_ops by in
    let small : max_ops % by < by = mod-lt max_ops (step_of_pos increment) in
    rounds-from (max_ops / by) fuel granularity increment 0 clock
      (record (start 0 max_ops ops_per_stage now) { ops = 0 }) refl (omega (arith, parts))
      (omega (arith, parts, small)) (omega (arith, enough, div-le_self max_ops by))

-- The test of a loop that does one operation in a round.
pub done-one :
    (granularity now : ℕ) (d : Duration)
    → d.max_seconds ≡ 0
    → done granularity 1 now d ≡ (ltb d.max_ops (d.ops + 1), record d { ops = d.ops + 1 })
done-one granularity now d untimed =
    done-untimed granularity 1 now d untimed
    ∙ ap (λ n. (ltb d.max_ops (d.ops + n), record d { ops = d.ops + n }))
        (step_of_self 1 (omega arith))
