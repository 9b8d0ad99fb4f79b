-- ===== src/Bench/Reads.antt =====
-- `GetRandomKey` and `ReadRandom` of integration/tools/db_bench_tool.cc, with one column family and
-- without merge operands, timestamps and rate limits.
pub mod Found
use kvaccel.Base.{
  ℕ, zero, suc, ◌+◌, ◌-◌, ◌*◌, ◌%◌, ◌^◌, Bool, true, false, ◌&&◌, ◌||◌, Option, some, none, [], ltb,
  leb, ◌==◌, if◌then◌else◌, length,
}
use kvaccel.Base.Bytes.{Bytes}
use kvaccel.Rocks.{is_ok}
use kvaccel.Master.{Env, State}
use kvaccel.Master.Write.{get}
use kvaccel.Bench.{KeySpec, Tools, Outcome, going, given, loop_on, generate_key_from_int}
use kvaccel.Bench.Duration.{Duration, start, done}

-- `exponential` is `read_random_exp_range_ != 0`; `scaled` is what the floating-point code then makes
-- of the random number. `num` is `FLAGS_num`.
pub record Flags : Type 0 where
  pub spec : KeySpec
  pub num : ℕ
  pub reads : ℕ
  pub duration : ℕ
  pub granularity : ℕ
  pub entries_per_batch : ℕ
  pub multiread_stride : ℕ
  pub exponential : Bool
  pub scaled : ℕ → ℕ

-- `GetRandomKey` of the number drawn; the product is a `uint64_t`.
pub get_random_key : Flags → ℕ → ℕ
get_random_key f number =
    if f.exponential then (f.scaled number * 1540483477) % 2 ^ 64 % f.num else number % f.num

module _ (e : Env) (t : Tools) (f : Flags) where
  open t use {Random, next}

  -- `key_rand` by its bit pattern.
  pub record Locals : Type 0 where
    pub master : State e
    pub rand : Random
    pub read : ℕ
    pub found : ℕ
    pub bytes : ℕ
    pub num_keys : ℕ
    pub key_rand : ℕ
    pub clock_reads : ℕ

  abbrev is_strided : Bool
  is_strided = ltb 1 f.entries_per_batch && ltb 0 f.multiread_stride

  -- A batch of strided keys begins no later than its last key is below `FLAGS_num`.
  batch_start : ℕ → ℕ
  batch_start key =
      if leb f.num (key + (f.entries_per_batch - 1) * f.multiread_stride)
      then (f.num + 2 ^ 64 - f.entries_per_batch * f.multiread_stride) % 2 ^ 64
      else key

  unfoldable pub choose_key : Locals → Locals
  unfolding batch_start get_random_key
  choose_key s =
      let (number, rand) = next s.rand in
      let fresh = get_random_key f number in
      if is_strided
      then (if s.num_keys + 1 == f.entries_per_batch
          then record s { num_keys = 0; rand = rand; key_rand = batch_start fresh }
          else record s {
            num_keys = s.num_keys + 1;
            key_rand = (s.key_rand + f.multiread_stride) % 2 ^ 64;
          })
      else record s { rand = rand; key_rand = fresh }

  -- `Get` answers OK or NotFound, so that nothing aborts.
  unfoldable pub read_key : Bytes → Locals → Locals
  read_key key s =
      let (status, value, master) = get e s.master key [] in
      record s {
        master = master;
        read = s.read + 1;
        found = if is_ok status then s.found + 1 else s.found;
        bytes = if is_ok status then s.bytes + (length key + length value) else s.bytes;
      }

  -- The body of the loop; `SelectDBWithCfh` takes a number of its own. With `FLAGS_num` 0 the
  -- remainder of `GetRandomKey` is undefined.
  unfoldable pub read_round : Locals → Outcome Locals
  unfolding choose_key read_key
  read_round s =
      let s' = choose_key (record s { rand = (next s.rand).1 }) in
      given (if f.num == 0 then none else generate_key_from_int f.spec s'.key_rand f.num)
        (λ key. going (read_key key s'))

  module _ (clock : ℕ → ℕ) where
    -- `while (!duration.Done(1))`, on fuel.
    pub read_loop : ℕ → Duration → Locals → Option (Outcome Locals)
    read_loop zero d s = none
    read_loop (suc fuel) d s =
        let (over, d') = done f.granularity 1 (clock s.clock_reads) d in
        let s' : Locals = record s { clock_reads = s.clock_reads + 1 } in
        let rest = loop_on (read_round s') (read_loop fuel d') in
        if over then some (going s) else rest

    -- `ReadRandom`, up to its messages.
    pub read_random : ℕ → State e → Random → Option (Outcome Locals)
    read_random fuel master rand = read_loop fuel (start f.duration f.reads 0 (clock 0)) (record {
      master = master;
      rand = rand;
      read = 0;
      found = 0;
      bytes = 0;
      num_keys = 0;
      key_rand = 0;
      clock_reads = 1;
    })
