-- ===== src/Bench/Seeks.antt =====
-- `SeekRandom` of integration/tools/db_bench_tool.cc over one database, without bounds on the
-- iterators (no `--max_scan_distance`, no `--auto_prefix_mode`), timestamps and rate limits.
pub mod Found
pub mod Ends
use kvaccel.Base.{
  ℕ, zero, suc, ◌+◌, ◌%◌, Bool, not, ◌&&◌, none, some, Option, ◌==◌, if◌then◌else◌, length,
}
use kvaccel.Base.Bytes.{Bytes}
use kvaccel.Master.{Env, State}
use kvaccel.Master.Iterate.{
  iterator_reset, iterator_seek, iterator_compare, iterator_next, iterator_prev, iterator_key,
  iterator_value, iterator_destroy,
}
use kvaccel.Bench.{
  KeySpec, Tools, Outcome, going, exits, undefined, given, loop_on, generate_key_for_seek,
}
use kvaccel.Bench.Duration.{Duration, start, done}

-- The flags. `num` is `FLAGS_num`.
pub record Flags : Type 0 where
  pub spec : KeySpec
  pub num : ℕ
  pub reads : ℕ
  pub duration : ℕ
  pub granularity : ℕ
  pub seek_missing_prefix : Bool
  pub seek_nexts : ℕ
  pub reverse_iterator : Bool
  pub use_tailing_iterator : Bool

-- The key of a seek, from the number drawn.
unfoldable pub seek_key : Flags → ℕ → Option Bytes
seek_key f number =
    if f.num == 0
    then none
    else generate_key_for_seek f.spec f.seek_missing_prefix (number % f.num) f.num

module _ (e : Env) (t : Tools) where
  open t use {Random, next}
  open e.main use {Iter, valid}

  pub record Locals : Type 0 where
    pub master : State e
    pub rand : Random
    pub read : ℕ
    pub found : ℕ
    pub bytes : ℕ
    pub clock_reads : ℕ

  -- `Next` or `Prev`.
  unfoldable pub advance : Flags → Iter → Locals → Iter × Locals
  advance f it s =
      if f.reverse_iterator
      then (iterator_prev e it, s)
      else let (it', master) = iterator_next e it s.master in (it', record s { master = master })

  -- RocksDB's iterators have a value and a key only where they are valid, and nobody asks.
  abbrev asks_invalid : Iter → Locals → Bool
  asks_invalid it s = s.master.iter_location == 0 && not (valid it)

  unfoldable pub read_nexts : Flags → ℕ → Iter → Locals → Outcome Locals
  unfolding advance
  read_nexts f zero it s = going s
  read_nexts f (suc n) it s =
      let value = iterator_value e it s.master in
      let key = iterator_key e it s.master in
      let (it', s') = advance f it (record s { bytes = s.bytes + (length key + length value) }) in
      let rest = read_nexts f n it' s' in if asks_invalid it s then undefined else rest

  -- A seek and what is read behind it. With `--use_tailing_iterator`, `IteratorGet` copies a null
  -- pointer.
  unfoldable pub seek_once : Flags → Locals → Bytes → Outcome Locals
  unfolding read_nexts
  seek_once f s key =
      let (fresh, m) = iterator_reset e s.master in
      let (it, m') = iterator_seek e fresh m key in
      let found = iterator_compare e it m' key in
      let went = read_nexts f f.seek_nexts it (record s {
        master = m';
        read = s.read + 1;
        found = if found then s.found + 1 else s.found;
      }) in
      if f.use_tailing_iterator then undefined else went

  unfoldable pub seek_round : Flags → Locals → Outcome Locals
  unfolding seek_key seek_once
  seek_round f s =
      let (number, rand) = next s.rand in
      given (seek_key f number) (seek_once f (record s { rand = rand }))

  -- `db_master.DestroyIter()`
  abbrev then_destroy : Option (Outcome Locals) → Option (Outcome Locals)
  then_destroy none = none
  then_destroy (some (going s)) = some (going (record s { master = iterator_destroy e s.master }))
  then_destroy (some (exits s)) = some (exits s)
  then_destroy (some undefined) = some undefined

  module _ (f : Flags) (clock : ℕ → ℕ) where
    -- `while (!duration.Done(1))`, on fuel.
    unfoldable pub seek_loop : ℕ → Duration → Locals → Option (Outcome Locals)
    unfolding seek_round
    seek_loop zero d s = none
    seek_loop (suc fuel) d s =
        let (over, d') = done f.granularity 1 (clock s.clock_reads) d in
        let s' : Locals = record s { clock_reads = s.clock_reads + 1 } in
        let rest = loop_on (seek_round f s') (seek_loop fuel d') in
        if over then some (going s) else rest

    -- `SeekRandom`, up to its messages.
    unfoldable pub seek_random : ℕ → State e → Random → Option (Outcome Locals)
    unfolding seek_loop
    seek_random fuel master rand = then_destroy (
        seek_loop fuel (start f.duration f.reads 0 (clock 0)) (record {
          master = master;
          rand = rand;
          read = 0;
          found = 0;
          bytes = 0;
          clock_reads = 1;
        }))
