-- ===== src/Master/Lifecycle.antt =====
-- `DB_MASTER::Open` and `DestroyDB_Master` of kvaccel/db/db_impl/db_impl_master.cc.
use kvaccel.Base.{
  ℕ, ◌+◌, ◌*◌, ◌%◌, ◌^◌, ◌≡◌, refl, Bool, true, false, [], ◌∷◌, ◌++◌, ◌==◌, arith, if◌then◌else◌,
}
use kvaccel.Base.Int.{ℤ, pos, negsuc}
use kvaccel.Base.Bytes.{Bytes}
use kvaccel.Rocks.{Status, ok, not_supported, is_ok, Options}
use kvaccel.Master.{Env, State, level_low}
use kvaccel.Master.Coherence.{answer_of, from_main}
use kvaccel.Master.Write.{put, get}

abbrev pub is_minus_one : ℤ → Bool
is_minus_one (pos n) = false
is_minus_one (negsuc n) = n == 0

module _ (e : Env) where
  -- All that `Open` sets once the number of instances is right. The thread is started on the first
  -- call in the process only.
  opened : State e → Options → Bytes → ℕ → Status × State e
  opened s o name tid =
      let r = e.main.open_db o (name ++ b'0' ∷ []) in
      let first = is_minus_one s.checker in
      (
        r.0,
        record s {
          num_instances = 1;
          kache_flag = 0;
          rollback_flag = 0;
          cnt_primary_put = 0;
          cnt_primary_but_over_ctt = 0;
          cnt_primary_get = 0;
          key_tracker = record (s.key_tracker) { count = 0 };
          main = r.1;
          is_open = is_ok r.0;
          dev = (e.dev.open_device s.dev).1;
          l0_stop_trigger = o.level0_stop_writes_trigger;
          l0_compaction_trigger = o.level0_file_num_compaction_trigger;
          l0_size = pos 0 ∷ [];
          l0_high = pos 7;
          l0_compaction_db_num = 0;
          set_memtable_size = o.write_buffer_size;
          total_memtable_size = (o.write_buffer_size * o.max_write_buffer_number) % 2 ^ 64;
          should_exit = false;
          monitor_l0_status = level_low;
          rollback_status = pos 0;
          rollback_should_exit = false;
          rollback_threads = if first then s.rollback_threads + 1 else s.rollback_threads;
          soft_limit = o.soft_pending_compaction_bytes_limit;
          hard_limit = o.hard_pending_compaction_bytes_limit;
          checker = if first then pos tid else s.checker;
        },
      )

  unfoldable pub open_master : State e → Options → Bytes → ℕ → ℕ → Status × State e
  unfolding opened
  open_master s o name num_instances tid =
      if num_instances == 1 then opened s o name tid else (not_supported, s)

  -- One instance at most is destroyed, since `Open` takes no other number.
  unfoldable pub destroy_master : State e → Options → Status × State e
  destroy_master s o =
      let st = e.main.destroy_db (e.main.name_of s.main) o in
      let off = record s { should_exit = true; rollback_should_exit = true } in
      if s.num_instances == 0 then (ok, off) else (st, record off { is_open = false })

  -- Opening one instance, whatever the master did before, which keys it tracked and whether there
  -- was a stall: the call answers the status of RocksDB alone, every key then reads as what the
  -- database that was opened has of it, and the first write goes to that database, with its
  -- status, and leaves the device as opening it has left it.
  pub get-open_master :
      (s : State e) (o : Options) (name : Bytes) (tid : ℕ) (j value k v : Bytes)
      → (let db = e.main.open_db o (name ++ b'0' ∷ []) in
          let r = open_master s o name 1 tid in
          (r.0 ≡ db.0)
          × (answer_of e (get e r.1 j value) ≡ from_main e (record s { main = db.1 }) j value)
          × ((put e r.1 k v).0 ≡ (e.main.put db.1 k v).0)
          × ((put e r.1 k v).1.main ≡ (e.main.put db.1 k v).1)
          × ((put e r.1 k v).1.dev ≡ (e.dev.open_device s.dev).1))
  unfolding open_master get put
  get-open_master s o name tid j value k v = (refl, ground arith, refl, refl, refl)
