-- ===== src/Master/Frames.antt =====
-- The writes that a `Put` of db_impl_master.cc loses.
use kvaccel.Base.{◌≤◌, ◌≡◌, false, arith}
use kvaccel.Base.Bytes.{Bytes}
use kvaccel.HashMap.Laws.{times}
use kvaccel.Master.{Env, State, track, tracker_size}
use kvaccel.Master.Write.{put, is_high}
use kvaccel.Master.Coherence.{IsCoherent, from_dev, view, put-calm, contains-calm_tracker}

module _ (e : Env) where
  -- In a coherent state that is not stalled, a write of a key whose number the tracker holds at
  -- least twice is lost to the next read: it answers what the Dev-LSM held.
  pub view-put_stale :
      (s : State e) (k v value : Bytes)
      → IsCoherent e s
      → is_high s.monitor_l0_status ≡ false
      → 2 ≤ times tracker_size s.key_tracker (track e k)
      → view e (put e s k v).1 k value ≡ from_dev e s k value
  unfolding view
  view-put_stale s k v value c calm twice =
      rw (put-calm e s k v calm) (ground (arith, contains-calm_tracker e s k (track e k) c))
