-- ===== src/Bench/Mixed.antt =====
-- `ReadRandomWriteRandom` of integration/tools/db_bench_tool.cc without timestamps: reads and writes of
-- random keys in the ratio of `--readwritepercent`.
pub mod Ratio
pub mod Trace
use kvaccel.Base.{
  ℕ, zero, suc, ◌+◌, ◌-◌, ◌%◌, Bool, true, false, not, ◌&&◌, some, none, List, [], ltb, ◌==◌,
  if◌then◌else◌,
}
use kvaccel.Base.Bytes.{Bytes}
use kvaccel.Rocks.{is_ok}
use kvaccel.Master.{Env, State}
use kvaccel.Master.Write.{put, get}
use kvaccel.Bench.{KeySpec, random_key, given, Outcome, going, exits, Tools}
use kvaccel.Bench.Values.{Distribution, RandomGenerator, generate_sized}

-- The flags: `FLAGS_num`, `FLAGS_readwritepercent` (which is validated to lie between 0 and 100),
-- the keys and the sizes of the values.
pub record Flags : Type 0 where
  pub spec : KeySpec
  pub num : ℕ
  pub readwritepercent : ℕ
  pub sizes : Distribution

module _ (e : Env) (t : Tools) where
  open t use {Random, next, drawn}

  -- `db_master`, `thread->rand` and the local variables.
  pub record Locals : Type 0 where
    pub master : State e
    pub rand : Random
    pub gen : RandomGenerator
    pub value : Bytes
    pub found : ℕ
    pub get_weight : ℕ
    pub put_weight : ℕ
    pub reads_done : ℕ
    pub writes_done : ℕ

  -- "one batch completed, reinitialize for next batch"
  unfoldable pub refill : ℕ → Locals → Locals
  refill percent s =
      if s.get_weight == 0 && s.put_weight == 0
      then record s { get_weight = percent; put_weight = 100 - percent }
      else s

  -- `Get` answers OK or NotFound, so that "get error" is never printed.
  unfoldable pub read_one : Locals → Bytes → Locals
  read_one s key =
      let (status, value, master) = get e s.master key s.value in
      record s {
        master = master;
        value = value;
        found = if is_ok status then s.found + 1 else s.found;
        get_weight = s.get_weight - 1;
        reads_done = s.reads_done + 1;
      }

  unfoldable pub write_one : Flags → Locals → Bytes → Outcome Locals
  write_one f s key =
      let (value, gen) = generate_sized f.sizes (drawn s.writes_done) s.gen in
      let (status, master) = put e s.master key value in
      let s' = record s { master = master; gen = gen } in
      if is_ok status
      then going (record s' { put_weight = s.put_weight - 1; writes_done = s.writes_done + 1 })
      else exits s'

  -- What a round does once its key is there.
  unfoldable pub one_op : Flags → Locals → Bytes → Outcome Locals
  unfolding read_one write_one
  one_op f s key =
      if ltb 0 s.get_weight
      then going (read_one s key)
      else if ltb 0 s.put_weight
      then write_one f s key
      else going s

  -- The body of the loop. `SelectDB` takes a number of its own.
  unfoldable pub mixed_round : Flags → Locals → Outcome Locals
  unfolding refill one_op
  mixed_round f s =
      let (number, rand) = next (next s.rand).1 in
      let s' = refill f.readwritepercent (record s { rand = rand }) in
      given (random_key f.spec f.num number) (λ key. one_op f s' key)
