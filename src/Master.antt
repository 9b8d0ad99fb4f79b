-- ===== src/Master.antt =====
-- kvaccel/include/rocksdb/db_master.h: the state of `DB_MASTER`, which puts writes into the
-- Main-LSM or, during a write stall, into the Dev-LSM.
pub mod Monitor
pub mod Write
pub mod Bloom
pub mod Iterate
pub mod Lifecycle
pub mod Coherence
pub mod Frames
pub mod Rollback
pub mod Reopen
pub mod Steps
pub mod Pinned
pub mod History
pub mod Stop
use kvaccel.Base.{ℕ, ◌+◌, ◌*◌, ◌%◌, ◌^◌, Bool, List, [], ◌∷◌, get_or}
use kvaccel.Base.Int.{ℤ}
use kvaccel.Base.Bytes.{Bytes, first_word}
use kvaccel.HashMap.{HashMap}
use kvaccel.Rocks.{MainLsm}
use kvaccel.DevLsm.{DevLsm}

pub data Level : Type 0 where
  level_zero level_low level_middle level_high : Level

-- `num_buckets` of `HashMap<uint64_t, std::string>`: the template's default.
abbrev pub tracker_size : ℕ
tracker_size = 128

pub record Master (Main : Type 0) (Dev : Type 0) : Type 0 where
  -- `dbptr_array[0]` and `ilsm_db_`
  pub main : Main
  pub dev : Dev
  pub num_instances : ℕ
  pub kache_flag : ℕ
  pub rollback_flag : ℕ
  pub key_tracker : HashMap Bytes
  -- the monitor's verdict, and what it measures against
  pub monitor_l0_status : Level
  pub rollback_status : ℤ
  pub l0_high : ℤ
  pub set_memtable_size : ℕ
  pub soft_limit : ℕ
  pub hard_limit : ℕ
  -- the merged iterator
  pub ilsm_iter_id : ℕ
  pub iter_location : ℕ
  -- how many entries `times_get` has
  pub times_get : ℕ
  pub should_exit : Bool
  pub rollback_should_exit : Bool
  -- what `Open` copies from the options or resets
  pub l0_stop_trigger : ℤ
  pub l0_compaction_trigger : ℤ
  pub l0_size : List ℤ
  pub l0_compaction_db_num : ℕ
  pub total_memtable_size : ℕ
  pub cnt_primary_put : ℕ
  pub cnt_primary_but_over_ctt : ℕ
  pub cnt_primary_get : ℕ
  -- `dbptr_array[0]` points to an open database
  pub is_open : Bool
  -- the file-level `checker`: the thread that opened first, or -1
  pub checker : ℤ
  -- `key()` has been asked of an iterator that is not valid, which RocksDB leaves undefined
  pub asked_invalid : Bool
  -- how many rollback threads run
  pub rollback_threads : ℕ

-- The components that the master drives, and MurmurHash3_x64_128 over the bytes and seed given.
pub record Env : Type 1 where
  pub main : MainLsm
  pub dev : DevLsm
  pub murmur : Bytes → ℕ → ℕ × ℕ

abbrev pub State : Env → Type 0
State e = Master e.main.State e.dev.State

module _ (e : Env) where
  unfoldable pub double_hash : Bytes → ℕ → ℕ
  double_hash key n = let h : ℕ × ℕ = e.murmur (first_word key) 0 in (h.0 + n * h.1) % 2 ^ 64

  -- The number under which `keyTracker` knows a key.
  abbrev pub track : Bytes → ℕ
  track key = double_hash key 1
