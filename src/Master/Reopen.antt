-- ===== src/Master/Reopen.antt =====
-- `DestroyDB_Master` and then `Open` on the same object, as kvaccel/db/db_impl/db_impl_master.cc has
-- them and integration/tools/db_bench_tool.cc calls them before a benchmark with a fresh database.
pub mod Idle
use kvaccel.Base.{◌≡◌, ◌≢◌, refl, ◌∙◌, true, [], arith}
use kvaccel.Base.Bytes.{Bytes}
use kvaccel.HashMap
use kvaccel.HashMap.Laws.{IsSized, contains-insert}
use kvaccel.Rocks.{Options}
use kvaccel.Master.{Env, State, track, tracker_size, level_low, level_high}
use kvaccel.Master.Write.{put, get, is_high}
use kvaccel.Master.Lifecycle.{open_master, destroy_master}
use kvaccel.Master.Coherence.{answer_of, from_dev, put-stalled}

module _ (e : Env) where
  unfoldable pub reopen : State e → Options → Bytes → State e
  unfolding open_master destroy_master
  reopen s o name = (open_master e (destroy_master e s o).1 o name 1 0).1

  pub reopen-keeps :
      (s : State e) (o : Options) (name : Bytes)
      → (let s' = reopen s o name in
          (s'.kache_flag ≡ 0)
          × (s'.monitor_l0_status ≡ level_low)
          × (s'.key_tracker ≡ record (s.key_tracker) { count = 0 })
          × (s'.dev ≡ (e.dev.open_device s.dev).1))
  unfolding reopen open_master destroy_master
  reopen-keeps s o name = ground arith

  pub put-untouched :
      (s : State e) (k v : Bytes)
      → s.kache_flag ≡ 0
      → s.monitor_l0_status ≡ level_low
      → ((put e s k v).1.key_tracker ≡ s.key_tracker) × ((put e s k v).1.dev ≡ s.dev)
  unfolding put
  put-untouched s k v off low = rw (off, low) (refl, refl)

  get-tracked :
      (s : State e) (k value : Bytes)
      → s.kache_flag ≡ 1
      → HashMap.contains tracker_size s.key_tracker (track e k) ≡ true
      → answer_of e (get e s k value) ≡ from_dev e s k value
  unfolding get
  get-tracked s k value on here = ground arith

  -- What a key reads as that is tracked while another is written in a stall.
  get-put_tracked :
      (s : State e) (j k w value : Bytes)
      → IsSized tracker_size s.key_tracker
      → HashMap.contains tracker_size s.key_tracker (track e j) ≡ true
      → is_high s.monitor_l0_status ≡ true
      → answer_of e (get e (put e s k w).1 j value)
        ≡ from_dev e (record s { dev = (e.dev.put s.dev k w).1 }) j value
  get-put_tracked s j k w value sized here high = rw (put-stalled e s k w high) (
      get-tracked _ j value refl (
        ground (
          arith,
          here,
          contains-insert tracker_size s.key_tracker (track e k) (track e j) k sized,
        )))

  -- If a key is tracked when the database is destroyed: after the database is opened again, the
  -- key is written without a stall, and then another key is written in a stall, the first key
  -- reads as what the device answers for it behind that other write, whatever value was written
  -- under it: the Main-LSM, which has that value, is not asked.
  pub get-reopen :
      (s : State e) (o : Options) (name j v k w value : Bytes)
      → IsSized tracker_size s.key_tracker
      → HashMap.contains tracker_size s.key_tracker (track e j) ≡ true
      → (let written = (put e (reopen s o name) j v).1 in
          let later = (put e (record written { monitor_l0_status = level_high }) k w).1 in
          answer_of e (get e later j value)
          ≡ from_dev e (record s { dev = (e.dev.put (e.dev.open_device s.dev).1 k w).1 }) j value)
  unfolding HashMap.contains
  get-reopen s o name j v k w value sized there =
      let (off, low, tracker, dev) = reopen-keeps s o name in
      let (kept, device) = put-untouched (reopen s o name) j v off low in
      let there' = kept ∙ tracker in
      get-put_tracked (record (put e (reopen s o name) j v).1 { monitor_l0_status = level_high }) j
        k w value (rw there' (record { positive = sized.positive; sized = sized.sized }))
        (rw there' there) refl
      ∙ rw (device ∙ dev) refl
