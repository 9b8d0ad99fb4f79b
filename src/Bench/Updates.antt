-- ===== src/Bench/Updates.antt =====
-- `UpdateRandom`, `XORUpdateRandom`, `AppendRandom`, `MergeRandom` and `ReadRandomMergeRandom` of
-- integration/tools/db_bench_tool.cc, over `db_.db` with one column family and without timestamps and
-- rate limits.
pub mod Appended
use kvaccel.Base.{
  ℕ, zero, suc, ◌+◌, ◌%◌, ◌≡◌, ◌≢◌, Bool, true, false, ◌||◌, Option, some, none, List, [], ◌∷◌,
  ◌++◌, ltb, leb, if◌then◌else◌, length,
}
use kvaccel.Base.Bytes.{Bytes}
use kvaccel.Rocks.{Status, ok, not_found, not_supported, failed, is_ok}
use kvaccel.Bench.{KeySpec, Tools, Outcome, going, exits, given, loop_on, random_key}
use kvaccel.Bench.Duration.{Duration, start, done}
use kvaccel.Bench.Values.{Distribution, RandomGenerator, generate, generate_sized}

-- RocksDB as these workloads call it, and `BytesXOROperator::XOR`, which is RocksDB's too. Where a
-- read answers another status than OK, it leaves the value.
pub record MergeDb : Type 1 where
  pub Db : Type 0
  pub get : Db → Bytes → Status × Bytes
  pub put : Db → Bytes → Bytes → Status × Db
  pub merge : Db → Bytes → Bytes → Status × Db
  pub xor : Option Bytes → Bytes → Bytes

-- What RocksDB documents of a write: it is read back, and changes no other key.
pub record IsMergeDb (b : MergeDb) : Type 0 where
  pub get-put : (d : b.Db) (k v : Bytes) → (b.put d k v).0 ≡ ok → b.get (b.put d k v).1 k ≡ (ok, v)
  pub get-put_ne : (d : b.Db) (k j v : Bytes) → k ≢ j → b.get (b.put d k v).1 j ≡ b.get d j

-- `num` is `FLAGS_num`, `readwrites` the larger of the numbers of reads and of writes.
pub record Flags : Type 0 where
  pub spec : KeySpec
  pub num : ℕ
  pub merge_keys : ℕ
  pub readwrites : ℕ
  pub duration : ℕ
  pub granularity : ℕ
  pub mergereadpercent : ℕ
  pub sizes : Distribution

abbrev pub is_missing : Status → Bool
is_missing ok = false
is_missing not_found = true
is_missing not_supported = false
is_missing (failed n) = false

-- "Use a delimiter to match the semantics for StringAppendOperator"
unfoldable pub append_value : Bytes → Bytes → Bytes
append_value value operand =
    if ltb 0 (length value) then (value ++ b',' ∷ []) ++ operand else value ++ operand

module _ (t : Tools) (b : MergeDb) (f : Flags) where
  open t use {Random, next, drawn}
  open b use {Db, get, put, merge, xor}

  -- `value` is `existing_value` in `XORUpdateRandom`. `updates` counts the finished operations, and
  -- numbers the sizes that are drawn.
  pub record Locals : Type 0 where
    pub db : Db
    pub rand : Random
    pub gen : RandomGenerator
    pub value : Bytes
    pub found : ℕ
    pub bytes : ℕ
    pub updates : ℕ
    pub clock_reads : ℕ

  -- `SelectDB` takes a number, and the key another.
  abbrev pub drawn_key : ℕ → Locals → Option Bytes × Locals
  drawn_key num s =
      let (number, rand) = next (next s.rand).1 in
      (random_key f.spec num number, record s { rand = rand })

  -- A read, which ends the program where it answers neither OK nor NotFound.
  read_old : Locals → Bytes → Outcome Locals
  read_old s key =
      let (status, value) = get s.db key in
      if is_ok status
      then going (record s {
        value = value;
        found = s.found + 1;
        bytes = s.bytes + (length key + length value);
      })
      else if is_missing status
      then going s
      else exits s

  -- A write, which ends the program where it is not OK.
  write_new : Locals → Bytes → Bytes → Outcome Locals
  write_new s key value =
      let (status, db) = put s.db key value in
      let s' : Locals = record s { db = db } in
      if is_ok status
      then going
          (record s' { bytes = s.bytes + (length key + length value); updates = s.updates + 1 })
      else exits s'

  abbrev and_write : Outcome Locals → (Locals → Outcome Locals) → Outcome Locals
  and_write (going s) write = write s
  and_write (exits s) write = exits s
  and_write Outcome.undefined write = Outcome.undefined

  update_key : Locals → Bytes → Outcome Locals
  unfolding read_old write_new
  update_key s key = and_write (read_old s key) (λ s'.
      let (value, gen) = generate_sized f.sizes (drawn s'.updates) s'.gen in
      write_new (record s' { gen = gen }) key value)

  unfoldable pub update_round : Locals → Outcome Locals
  unfolding update_key
  update_round s = let (made, s') = drawn_key f.num s in given made (update_key s')

  -- As `value` is not cleared where nothing is found, the random value has the length of the last
  -- value that was found. The source counts no bytes here.
  xor_key : Locals → Bytes → Outcome Locals
  unfolding read_old write_new
  xor_key s key = and_write (read_old s key) (λ s'.
      let (value, gen) = generate (length s'.value) s'.gen in
      let old = if is_ok (get s.db key).0 then some s'.value else none in
      write_new (record s' { gen = gen }) key (xor old value))

  unfoldable pub xor_round : Locals → Outcome Locals
  unfolding xor_key
  xor_round s = let (made, s') = drawn_key f.num s in given made (xor_key s')

  append_key : Locals → Bytes → Outcome Locals
  unfolding read_old write_new append_value
  append_key s key = and_write (read_old s key) (λ s'.
      let old = if is_ok (get s.db key).0 then s'.value else [] in
      let (operand, gen) = generate_sized f.sizes (drawn s'.updates) s'.gen in
      let value = append_value old operand in
      write_new (record s' { gen = gen; value = value }) key value)

  unfoldable pub append_round : Locals → Outcome Locals
  unfolding append_key
  append_round s = let (made, s') = drawn_key f.num s in given made (append_key s')

  merge_key : Locals → Bytes → Outcome Locals
  merge_key s key =
      let (operand, gen) = generate_sized f.sizes (drawn s.updates) s.gen in
      let (status, db) = merge s.db key operand in
      let s' : Locals = record s { db = db; gen = gen } in
      if is_ok status
      then going
          (record s' { bytes = s.bytes + (length key + length operand); updates = s.updates + 1 })
      else exits s'

  unfoldable pub merge_round : Locals → Outcome Locals
  unfolding merge_key
  merge_round s = let (made, s') = drawn_key f.merge_keys s in given made (merge_key s')

  -- `ReadRandomMergeRandom` has other local variables.
  pub record Mixture : Type 0 where
    pub base : Locals
    pub num_hits : ℕ
    pub num_gets : ℕ
    pub num_merges : ℕ
    pub max_length : ℕ

  -- "we continue after error rather than exiting so that we can find more errors if any"
  mixed_get : Mixture → Bytes → Mixture
  mixed_get s key =
      let (status, found) = get s.base.db key in
      let value = if is_ok status then found else s.base.value in
      record s {
        base = record (s.base) { value = value };
        max_length = if ltb s.max_length (length value) then length value else s.max_length;
        num_hits = if is_ok status then s.num_hits + 1 else s.num_hits;
        num_gets = s.num_gets + 1;
      }

  mixed_merge : Mixture → Bytes → Outcome Mixture
  mixed_merge s key =
      let (operand, gen) = generate_sized f.sizes (drawn s.num_merges) s.base.gen in
      let (status, db) = merge s.base.db key operand in
      let s' : Mixture = record s { base = record (s.base) { db = db; gen = gen } } in
      if is_ok status then going (record s' { num_merges = s.num_merges + 1 }) else exits s'

  unfoldable pub mixture_round : Mixture → Outcome Mixture
  unfolding mixed_get mixed_merge
  mixture_round s =
      let (made, base) = drawn_key f.merge_keys (s.base) in
      let (percent, rand) = next base.rand in
      let s' : Mixture = record s { base = record base { rand = rand } } in
      given made (λ key.
        if ltb (percent % 100) f.mergereadpercent
        then mixed_merge s' key
        else going (mixed_get s' key))

  module _ (clock : ℕ → ℕ) where
    -- `while (!duration.Done(1))`, on fuel, with the body of one of the workloads.
    unfoldable pub update_loop :
        (Locals → Outcome Locals) → ℕ → Duration → Locals → Option (Outcome Locals)
    update_loop round zero d s = none
    update_loop round (suc fuel) d s =
        let (over, d') = done f.granularity 1 (clock s.clock_reads) d in
        let s' : Locals = record s { clock_reads = s.clock_reads + 1 } in
        let rest = loop_on (round s') (update_loop round fuel d') in
        if over then some (going s) else rest

    unfoldable pub updates_from :
        (Locals → Outcome Locals) → ℕ → Db → Random → RandomGenerator → Option (Outcome Locals)
    unfolding update_loop
    updates_from round fuel db rand gen =
        update_loop round fuel (start f.duration f.readwrites 0 (clock 0)) (record {
          db = db;
          rand = rand;
          gen = gen;
          value = [];
          found = 0;
          bytes = 0;
          updates = 0;
          clock_reads = 1;
        })

    -- The workloads, up to their messages.
    update_random : ℕ → Db → Random → RandomGenerator → Option (Outcome Locals)
    update_random = updates_from update_round

    xor_update_random : ℕ → Db → Random → RandomGenerator → Option (Outcome Locals)
    xor_update_random = updates_from xor_round

    unfoldable pub append_random : ℕ → Db → Random → RandomGenerator → Option (Outcome Locals)
    unfolding updates_from
    append_random = updates_from append_round

    merge_random : ℕ → Db → Random → RandomGenerator → Option (Outcome Locals)
    merge_random = updates_from merge_round

    unfoldable pub mixture_loop : ℕ → Duration → Mixture → Option (Outcome Mixture)
    unfolding mixture_round
    mixture_loop zero d s = none
    mixture_loop (suc fuel) d s =
        let (over, d') = done f.granularity 1 (clock s.base.clock_reads) d in
        let s' : Mixture = record s {
          base = record (s.base) { clock_reads = s.base.clock_reads + 1 };
        } in
        let rest = loop_on (mixture_round s') (mixture_loop fuel d') in
        if over then some (going s) else rest

    read_random_merge_random : ℕ → Db → Random → RandomGenerator → Option (Outcome Mixture)
    unfolding mixture_loop
    read_random_merge_random fuel db rand gen =
        mixture_loop fuel (start f.duration f.readwrites 0 (clock 0)) (record {
          base = record {
            db = db;
            rand = rand;
            gen = gen;
            value = [];
            found = 0;
            bytes = 0;
            updates = 0;
            clock_reads = 1;
          };
          num_hits = 0;
          num_gets = 0;
          num_merges = 0;
          max_length = 0;
        })
