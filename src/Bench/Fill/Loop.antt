-- ===== src/Bench/Fill/Loop.antt =====
-- The loops of `DoWrite` in integration/tools/db_bench_tool.cc. Without column families, a new stage
-- creates nothing; and the status that is checked behind each batch is never assigned.
use kvaccel.Base.{
  ℕ, zero, suc, ◌+◌, Bool, true, false, ◌||◌, Option, some, none, [], leb, ◌==◌, if◌then◌else◌,
}
use kvaccel.Master.{Env, State}
use kvaccel.Bench.{Tools, Outcome, going, exits, and_then, loop_on}
use kvaccel.Bench.Duration.{Duration, start, done}
use kvaccel.Bench.Numbers.{WriteMode, random, sequential, unique_random, key_generator}
use kvaccel.Bench.Values.{RandomGenerator}
use kvaccel.Bench.Fill.{Flags, Inputs, is_valid, Locals}
use kvaccel.Bench.Fill.Entry.{write_entry}

-- `num_ops`: of one database, also `max_ops`.
abbrev pub num_ops : Flags → ℕ
num_ops f = if f.writes == 0 then f.num else f.writes

-- `num_per_key_gen`
abbrev pub num_per_key_gen : Flags → ℕ
num_per_key_gen f = f.num + f.max_num_range_tombstones

abbrev pub test_duration : WriteMode → ℕ → ℕ
test_duration random duration = duration
test_duration sequential duration = 0
test_duration unique_random duration = 0

abbrev pub is_sequential : WriteMode → Bool
is_sequential random = false
is_sequential sequential = true
is_sequential unique_random = false

module _ (e : Env) (t : Tools) (f : Flags) (x : Inputs) where
  abbrev L : Type 0
  L = Locals e t

  -- `for (int64_t j = 0; j < entries_per_batch_; j++)`
  unfoldable pub write_entries : ℕ → L → Outcome L
  write_entries zero s = going s
  write_entries (suc n) s = and_then (write_entry e t f x s) (write_entries n)

  -- Which database: there is one. "Logic error. Filled all databases" ends the process.
  unfoldable pub select : L → Outcome L
  select s =
      if is_sequential f.write_mode
      then (if leb s.next_seq_db_at s.num_written
          then exits (record s { next_seq_db_at = s.next_seq_db_at + num_ops f })
          else going s)
      else going (record s { rand = (t.next s.rand).1 })

  -- The body of the outer loop.
  unfoldable pub write_batch : L → Outcome L
  write_batch s =
      and_then (select s) (λ s'. write_entries f.entries_per_batch (record s' { batch = [] }))

  -- `while ((num_per_key_gen != 0) && !duration.Done(entries_per_batch_))`, on fuel; `none` where
  -- that runs out. A reading of the clock may be skipped.
  unfoldable pub write_loop : ℕ → Duration → L → Option (Outcome L)
  write_loop zero d s = none
  write_loop (suc fuel) d s =
      let (over, d') = done f.granularity f.entries_per_batch (x.clock s.clock_reads) d in
      let s' : L = record s { clock_reads = s.clock_reads + 1 } in
      let rest = loop_on (write_batch s') (write_loop fuel d') in
      if num_per_key_gen f == 0 || over then some (going s) else rest

  -- The variables before the loop.
  unfoldable pub fresh_locals : State e → t.Random → RandomGenerator → L
  fresh_locals master rand gen = record {
    master = master;
    rand = rand;
    gen = gen;
    key_gen = key_generator x.shuffle f.write_mode (num_per_key_gen f);
    batch = [];
    bytes = 0;
    num_overwrites = 0;
    num_unique_keys = 0;
    num_selective_deletes = 0;
    inserted_key_window = [];
    is_disposable_entry = true;
    disposable_entries_index = 0;
    persistent_ent_and_del_index = 0;
    disposable_entries_q = [];
    num_written = 0;
    next_seq_db_at = num_ops f;
    num_range_deletions = 0;
    clock_reads = 1;
    decisions = 0;
    reservoir_reads = 0;
    strings = 0;
  }

  -- `DoWrite`, up to its messages.
  unfoldable pub do_write : ℕ → State e → t.Random → RandomGenerator → Option (Outcome L)
  unfolding fresh_locals
  do_write fuel master rand gen =
      let s = fresh_locals master rand gen in
      let d = start (test_duration f.write_mode f.duration) (num_ops f) (num_ops f) (x.clock 0) in
      if is_valid f then write_loop fuel d s else some (exits s)
