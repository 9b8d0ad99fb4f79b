-- ===== src/Bench/Fill.antt =====
-- `DoWrite` of integration/tools/db_bench_tool.cc over one database with one column family, without
-- stacked databases, timestamps and rate limits: the workload that fills the store. The numbers
-- are `int64_t` and `uint64_t` that stay below 2^63.
pub mod Entry
pub mod Loop
pub mod Sequential
pub mod Unwritten
use kvaccel.Base.{
  ℕ, ◌+◌, ◌-◌, ◌*◌, ◌/◌, Bool, true, false, not, ◌&&◌, ◌||◌, some, none, Option, List, [], ◌∷◌, ltb,
  ◌==◌, if◌then◌else◌, length, push_back, drop, get_elem?, get_or,
}
use kvaccel.Base.Bytes.{Bytes}
use kvaccel.Rocks.{is_ok}
use kvaccel.Master.{Env, State}
use kvaccel.Bench.{KeySpec, Tools}
use kvaccel.Bench.Duration.{Duration}
use kvaccel.Bench.Numbers.{KeyGenerator, WriteMode, random, sequential, unique_random}
use kvaccel.Bench.Values.{Distribution, RandomGenerator}

-- The flags and members that `DoWrite` reads. `overwrites` says that `p` is above 0.
pub record Flags : Type 0 where
  pub spec : KeySpec
  pub flags_num : ℕ
  pub num : ℕ
  pub writes : ℕ
  pub duration : ℕ
  pub granularity : ℕ
  pub entries_per_batch : ℕ
  pub write_mode : WriteMode
  pub overwrites : Bool
  pub overwrite_window_size : ℕ
  pub disposable_entries_batch_size : ℕ
  pub persistent_entries_batch_size : ℕ
  pub disposable_entries_value_size : ℕ
  pub persistent_entries_value_size : ℕ
  pub disposable_entries_delete_delay : ℕ
  pub writes_per_range_tombstone : ℕ
  pub writes_before_delete_range : ℕ
  pub max_num_range_tombstones : ℕ
  pub range_tombstone_width : ℕ
  pub expand_range_tombstones : Bool
  pub sizes : Distribution

-- What comes from outside: the shuffle, the clock by the number of its readings, the Bernoulli
-- trials and the window's random numbers by theirs, and the random strings.
pub record Inputs : Type 0 where
  pub shuffle : List ℕ → List ℕ
  pub clock : ℕ → ℕ
  pub overwrite_decider : ℕ → Bool
  pub reservoir_id : ℕ → ℕ
  pub random_string : ℕ → ℕ → Bytes

-- What `WriteBatch` takes. In `DoWrite`, nobody writes the batch: the call is commented out.
pub data BatchOp : Type 0 where
  delete : Bytes → BatchOp
  delete_range : Bytes → Bytes → BatchOp

-- `kNumDispAndPersEntries`
abbrev pub num_disp_and_pers : Flags → ℕ
num_disp_and_pers f = f.disposable_entries_batch_size + f.persistent_entries_batch_size

abbrev pub is_unique : WriteMode → Bool
is_unique random = false
is_unique sequential = false
is_unique unique_random = true

-- The checks before the loop: where they fail, the process exits.
unfoldable pub is_valid : Flags → Bool
is_valid f =
    let unique = is_unique f.write_mode in
    let tombstones = ltb 0 f.writes_per_range_tombstone in
    let window_ok = not (f.overwrites && (unique && f.overwrite_window_size == 0)) in
    let disposable_ok =
      not (ltb 0 (num_disp_and_pers f) && (not unique || (tombstones || f.overwrites))) in
    window_ok && disposable_ok

module _ (e : Env) (t : Tools) where
  open t use {Random}

  -- `db_master`, `thread->rand` and the local variables of `DoWrite`, with the numbers of the
  -- inputs that were read.
  pub record Locals : Type 0 where
    pub master : State e
    pub rand : Random
    pub gen : RandomGenerator
    pub key_gen : KeyGenerator
    pub batch : List BatchOp
    pub bytes : ℕ
    pub num_overwrites : ℕ
    pub num_unique_keys : ℕ
    pub num_selective_deletes : ℕ
    pub inserted_key_window : List ℕ
    pub is_disposable_entry : Bool
    pub disposable_entries_index : ℕ
    pub persistent_ent_and_del_index : ℕ
    pub disposable_entries_q : List (ℕ × ℕ)
    pub num_written : ℕ
    pub next_seq_db_at : ℕ
    pub num_range_deletions : ℕ
    pub clock_reads : ℕ
    pub decisions : ℕ
    pub reservoir_reads : ℕ
    pub strings : ℕ
