-- ===== src/Master/Monitor.antt =====
-- `DB_MASTER::Monitor_Consumer` of kvaccel/db/db_impl/db_impl_master.cc.
pub mod Levels
use kvaccel.Base.{ℕ, ◌+◌, ◌-◌, ◌/◌, ◌%◌, ◌^◌, Bool, false, ◌||◌, leb, ◌==◌, if◌then◌else◌}
use kvaccel.Base.Int.{ℤ, pos, negsuc, leb_ℤ, ◌+ℤ◌, to_int32}
use kvaccel.Master.{Level, Env, State, level_zero, level_low, level_middle, level_high}

-- RESERVE, 2 MB
abbrev pub reserve : ℕ
reserve = 2097152

abbrev pub is_zero : ℤ → Bool
is_zero (pos n) = n == 0
is_zero (negsuc n) = false

-- The `uint64_t` arithmetic wraps.
abbrev pub hard_threshold : ℕ → ℕ
hard_threshold hard = (hard + 2 ^ 64 - reserve) % 2 ^ 64

abbrev pub middle_threshold : ℕ → ℕ → ℕ
middle_threshold soft hard = ((soft + hard) % 2 ^ 64) / 2

-- The level for a number of files at level 0, full memtables, and pending compaction bytes.
unfoldable pub classify : ℤ → ℤ → ℤ → ℕ → ℕ → ℕ → Level
classify high l0_num memtables pending soft hard =
    let by_load =
      if leb_ℤ (pos 36) l0_num
        || leb_ℤ (pos 36) (l0_num +ℤ memtables)
        || leb (hard_threshold hard) pending
      then level_high
      else if leb_ℤ high l0_num || leb (middle_threshold soft hard) pending
      then level_middle
      else level_low in
    if is_zero l0_num then level_zero else by_load

module _ (e : Env) where
  unfoldable pub monitor : State e → State e
  monitor s =
      let l0_num = e.main.num_files_at_level0 s.main in
      let memtables = to_int32 (e.main.size_all_mem_tables s.main / s.set_memtable_size) in
      record s {
        monitor_l0_status =
            classify s.l0_high l0_num memtables (e.main.estimate_pending_compaction_bytes s.main)
              s.soft_limit s.hard_limit;
        rollback_status = l0_num;
      }
