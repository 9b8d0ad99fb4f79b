-- ===== src/Bench/Verify.antt =====
-- `RandomWithVerify` of integration/tools/db_bench_tool.cc: reads, writes and deletes of three entries
-- at a time, in turns, over `db_.db`.
pub mod Turns
pub mod Shares
use kvaccel.Base.{ℕ, zero, suc, ◌+◌, ◌-◌, [], Bool, true, false, ◌&&◌, ltb, ◌==◌, if◌then◌else◌}
use kvaccel.Base.Int.{ℤ, pos, negsuc, sub_ℕ}
use kvaccel.Base.Bytes.{Bytes}
use kvaccel.Rocks.{Status, ok, not_found, not_supported, failed, is_ok}
use kvaccel.Bench.{KeySpec, Tools, Outcome, going, exits, given, and_then, random_key}
use kvaccel.Bench.Many.{BatchDb, put_many, delete_many, get_many}
use kvaccel.Bench.Values.{Distribution, RandomGenerator, generate_sized}

-- The flags; the two percentages are validated to lie between 0 and 100 each.
pub record Flags : Type 0 where
  pub spec : KeySpec
  pub numdistinct : ℕ
  pub readwritepercent : ℕ
  pub deletepercent : ℕ
  pub sizes : Distribution

abbrev pub is_zero : ℤ → Bool
is_zero (pos n) = n == 0
is_zero (negsuc n) = false

abbrev pub is_above_zero : ℤ → Bool
is_above_zero (pos n) = ltb 0 n
is_above_zero (negsuc n) = false

-- `weight--`
abbrev pub less_one : ℤ → ℤ
less_one (pos zero) = negsuc 0
less_one (pos (suc n)) = pos n
less_one (negsuc n) = negsuc (n + 1)

module _ (t : Tools) (b : BatchDb) where
  open t use {Random, next, drawn}
  open b use {Db}

  pub record Locals : Type 0 where
    pub db : Db
    pub rand : Random
    pub gen : RandomGenerator
    pub value : Bytes
    pub found : ℕ
    pub get_weight : ℕ
    pub put_weight : ℤ
    pub delete_weight : ℕ
    pub gets_done : ℕ
    pub puts_done : ℕ
    pub deletes_done : ℕ

  -- "one batch completed, reinitialize for next batch"
  unfoldable pub verify_refill : Flags → Locals → Locals
  verify_refill f s =
      if s.get_weight == 0 && (is_zero s.put_weight && s.delete_weight == 0)
      then record s {
        get_weight = f.readwritepercent;
        delete_weight = f.deletepercent;
        put_weight = sub_ℕ 100 (f.readwritepercent + f.deletepercent);
      }
      else s

  -- "we continue after error rather than exiting so that we can find more errors if any"
  unfoldable pub verify_get : Locals → Bytes → Locals
  verify_get s key =
      let (status, value, same, db) = get_many b s.db key s.value in
      record s {
        db = db;
        value = value;
        found = if is_ok status then s.found + 1 else s.found;
        get_weight = s.get_weight - 1;
        gets_done = s.gets_done + 1;
      }

  unfoldable pub verify_put : Flags → Locals → Bytes → Outcome Locals
  verify_put f s key =
      let (value, gen) = generate_sized f.sizes (drawn s.puts_done) s.gen in
      let (status, db) = put_many b s.db key value in
      let s' : Locals = record s { db = db; gen = gen } in
      if is_ok status
      then going (record s' { put_weight = less_one s.put_weight; puts_done = s.puts_done + 1 })
      else exits s'

  unfoldable pub verify_delete : Locals → Bytes → Outcome Locals
  verify_delete s key =
      let (status, db) = delete_many b s.db key in
      let s' : Locals = record s { db = db } in
      if is_ok status
      then going
          (record s' { delete_weight = s.delete_weight - 1; deletes_done = s.deletes_done + 1 })
      else exits s'

  unfoldable pub verify_op : Flags → Locals → Bytes → Outcome Locals
  unfolding verify_get verify_put verify_delete
  verify_op f s key =
      if ltb 0 s.get_weight
      then going (verify_get s key)
      else if is_above_zero s.put_weight
      then verify_put f s key
      else if ltb 0 s.delete_weight
      then verify_delete s key
      else going s

  -- The body of the loop; `SelectDB` takes a number of its own.
  unfoldable pub verify_round : Flags → Locals → Outcome Locals
  unfolding verify_refill verify_op
  verify_round f s =
      let (number, rand) = next (next s.rand).1 in
      let s' = verify_refill f (record s { rand = rand }) in
      given (random_key f.spec f.numdistinct number) (verify_op f s')

  -- `for (i = 0; i < readwrites_; i++)`
  unfoldable pub verify_rounds : Flags → ℕ → Locals → Outcome Locals
  unfolding verify_round
  verify_rounds f zero s = going s
  verify_rounds f (suc n) s = and_then (verify_round f s) (verify_rounds f n)

  -- `RandomWithVerify`, up to its messages.
  unfoldable pub random_with_verify : Flags → ℕ → Db → Random → RandomGenerator → Outcome Locals
  unfolding verify_rounds
  random_with_verify f readwrites db rand gen = verify_rounds f readwrites (record {
    db = db;
    rand = rand;
    gen = gen;
    value = [];
    found = 0;
    get_weight = 0;
    put_weight = pos 0;
    delete_weight = 0;
    gets_done = 0;
    puts_done = 0;
    deletes_done = 0;
  })
