-- ===== src/Bench/Background.antt =====
-- `BGWriter` of integration/tools/db_bench_tool.cc as the workloads "while writing" use it (with
-- `kWrite`), without timestamps and rate limits: the thread that writes while the others read.
pub mod Ends
use kvaccel.Base.{
  ℕ, zero, suc, ◌+◌, ◌-◌, ◌/◌, ◌%◌, ◌^◌, Bool, false, not, ◌&&◌, ◌||◌, some, none, Option, ltb, leb,
  ◌==◌, if◌then◌else◌, length,
}
use kvaccel.Base.Bytes.{Bytes}
use kvaccel.Rocks.{Status, is_ok}
use kvaccel.Master.{Env, State}
use kvaccel.Master.Write.{put}
use kvaccel.Bench.{
  KeySpec, Tools, Outcome, going, exits, given, loop_on, random_key, generate_key_from_int,
}
use kvaccel.Bench.Values.{Distribution, RandomGenerator, generate_sized}

-- The flags and members that `BGWriter` reads. `num` is `FLAGS_num`.
pub record Flags : Type 0 where
  pub spec : KeySpec
  pub num : ℕ
  pub writes : ℕ
  pub finish_after_writes : Bool
  pub writes_per_range_tombstone : ℕ
  pub writes_before_delete_range : ℕ
  pub max_num_range_tombstones : ℕ
  pub range_tombstone_width : ℕ
  pub expand_range_tombstones : Bool
  pub sizes : Distribution

-- The RocksDB database `db_.db`, which is another than that of `db_master`, as far as it is used.
pub record PlainDb : Type 1 where
  pub Db : Type 0
  pub delete : Db → Bytes → Status × Db
  pub delete_range : Db → Bytes → Bytes → Status × Db

-- "Other threads have finished", for `num_done` and `num_initialized`.
abbrev pub others_finished : ℕ × ℕ → Bool
others_finished (num_done, num_initialized) = leb num_initialized (num_done + 1)

-- Whether the loop is left.
unfoldable pub stops : Flags → ℕ × ℕ → ℕ → Bool
stops f shared written =
    (f.finish_after_writes && written == f.writes)
    || (others_finished shared && not f.finish_after_writes)

unfoldable pub is_tombstone_due : Flags → ℕ → Bool
is_tombstone_due f written =
    let after = written - f.writes_before_delete_range in
    let every = f.writes_per_range_tombstone in
    ltb 0 every
    && (ltb f.writes_before_delete_range written
        && (leb (after / every) f.max_num_range_tombstones && after % every == 0))

module _ (e : Env) (t : Tools) (d : PlainDb) where
  open t use {Random, next, drawn}
  open d use {Db, delete, delete_range}

  -- `db_master`, `db_.db`, `thread->rand` and the local variables; `passes` is how often the loop
  -- has begun. `written` is a `uint32_t`.
  pub record Locals : Type 0 where
    pub master : State e
    pub db : Db
    pub rand : Random
    pub gen : RandomGenerator
    pub written : ℕ
    pub bytes : ℕ
    pub num_range_deletions : ℕ
    pub hint_printed : Bool
    pub passes : ℕ

  -- A deletion and its check.
  abbrev pub deleted : Status × Db → Locals → (Locals → Outcome Locals) → Outcome Locals
  deleted (status, db) s after =
      let s' : Locals = record s { db = db } in if is_ok status then after s' else exits s'

  unfoldable pub delete_keys : Flags → ℕ → ℕ → Locals → Outcome Locals
  delete_keys f zero number s = going s
  delete_keys f (suc n) number s =
      let rest = delete_keys f n (number + 1) in
      given (generate_key_from_int f.spec number f.num) (λ key. deleted (delete s.db key) s rest)

  unfoldable pub delete_numbers : Flags → ℕ → Locals → Outcome Locals
  unfolding delete_keys
  delete_numbers f begin_num s =
      if f.expand_range_tombstones
      then delete_keys f f.range_tombstone_width begin_num s
      else given (generate_key_from_int f.spec begin_num f.num) (λ begin_key.
        given (generate_key_from_int f.spec (begin_num + f.range_tombstone_width) f.num)
          (λ end_key. deleted (delete_range s.db begin_key end_key) s going))

  unfoldable pub write_tombstone : Flags → Locals → Outcome Locals
  unfolding is_tombstone_due delete_numbers
  write_tombstone f s =
      let (number, rand) = next s.rand in
      if is_tombstone_due f s.written
      then delete_numbers f (number % f.num)
          (record s { num_range_deletions = s.num_range_deletions + 1; rand = rand })
      else going s

  -- The write and what follows it.
  unfoldable pub write_key : Flags → Locals → Bytes → Outcome Locals
  unfolding write_tombstone
  write_key f s key =
      let (value, gen) = generate_sized f.sizes (drawn s.passes) s.gen in
      let (status, master) = put e s.master key value in
      let s' : Locals = record s {
        master = master;
        gen = gen;
        written = (s.written + 1) % 2 ^ 32;
      } in
      if is_ok status
      then write_tombstone f (record s' { bytes = s.bytes + (length key + length value) })
      else exits s'

  -- The beginning of the loop, where it is not left: `SelectDB` has taken a number.
  unfoldable pub begin_pass : Flags → ℕ × ℕ → Locals → Locals
  begin_pass f shared s = record s {
    rand = (next s.rand).1;
    hint_printed = s.hint_printed || (others_finished shared && f.finish_after_writes);
    passes = s.passes + 1;
  }

  unfoldable pub background_round : Flags → Locals → Outcome Locals
  unfolding write_key
  background_round f s =
      let (number, rand) = next s.rand in
      given (random_key f.spec f.num number) (λ key. write_key f (record s { rand = rand }) key)

  -- `shared` is what each pass sees of the other threads under the mutex.
  module _ (f : Flags) (shared : ℕ → ℕ × ℕ) where
    -- `while (true)`, on fuel.
    unfoldable pub background_loop : ℕ → Locals → Option (Outcome Locals)
    unfolding stops begin_pass background_round
    background_loop zero s = none
    background_loop (suc fuel) s =
        let seen = shared s.passes in
        let s' : Locals = begin_pass f seen s in
        let rest = loop_on (background_round f s') (background_loop fuel) in
        if stops f seen s.written then some (going (record s { rand = s'.rand })) else rest

    -- `BGWriter`, up to its messages.
    unfoldable pub bg_writer : ℕ → State e → Db → Random → RandomGenerator → Option (Outcome Locals)
    unfolding background_loop
    bg_writer fuel master db rand gen = background_loop fuel (record {
      master = master;
      db = db;
      rand = rand;
      gen = gen;
      written = 0;
      bytes = 0;
      num_range_deletions = 0;
      hint_printed = false;
      passes = 0;
    })
