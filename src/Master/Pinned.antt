-- ===== src/Master/Pinned.antt =====
-- `GetPin` of kvaccel/db/db_impl/db_impl_master.cc against what `Put` wrote.
use kvaccel.Base.{◌≡◌, false, arith, get_or, ◌==◌, if◌then◌else◌}
use kvaccel.Base.Bytes.{Bytes}
use kvaccel.Rocks.{ok, not_found, IsStore}
use kvaccel.Master.{Env, State}
use kvaccel.Master.Write.{put, get_pin, is_high}
use kvaccel.Master.Coherence.{answer_of, put-calm}

module _ (e : Env) where
  -- Over a Main-LSM that is a store, in a state that is not stalled and with an empty Dev-LSM,
  -- `GetPin` after a write that answers OK gives the written value, with OK if it begins with 'a'
  -- and with NotFound if not.
  pub get_pin-put :
      (s : State e) (k v pinned : Bytes)
      → IsStore e.main
      → is_high s.monitor_l0_status ≡ false
      → s.kache_flag ≡ 0
      → (put e s k v).0 ≡ ok
      → answer_of e (get_pin e (put e s k v).1 k pinned)
        ≡ (if get_or v 0 0 == b'a' then ok else not_found, v)
  unfolding get_pin
  get_pin-put s k v pinned m calm off done =
      let done' : (e.main.put s.main k v).0 ≡ ok = rw (put-calm e s k v calm) at done in
      rw (put-calm e s k v calm) (ground (arith, off, m.get-put s.main k v done'))
