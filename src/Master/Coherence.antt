-- ===== src/Master/Coherence.antt =====
-- Reads and writes of db_impl_master.cc against one map: what `Put` stores and what `Get` answers.
use kvaccel.Base.{
  ℕ, ◌≤◌, ◌≡◌, inl, inr, true, false, [], arith, ◌==◌, ltb, if◌then◌else◌, Bool-cases,
}
use kvaccel.Base.Int.{is_neg}
use kvaccel.Base.Bytes.{Bytes}
use kvaccel.HashMap
use kvaccel.HashMap.Laws.{
  IsSized, times, IsSized-insert, IsSized-delete, contains-delete, contains-eq-ltb,
}
use kvaccel.Rocks.{Status, ok, not_found, is_ok, IsStore}
use kvaccel.Master.{Env, State, track, tracker_size}
use kvaccel.Master.Write.{put, get, is_high}

-- What every operation keeps: the tracker has its buckets, and is empty while the flag says that
-- the Dev-LSM is.
pub record IsCoherent (e : Env) (s : State e) : Type 0 where
  pub sized : IsSized tracker_size s.key_tracker
  pub unused : s.kache_flag ≡ 0 → (k : ℕ) → HashMap.contains tracker_size s.key_tracker k ≡ false

module _ (e : Env) where
  -- A read's status and value, without the state.
  abbrev pub Answer : Type 0
  Answer = Status × Bytes

  abbrev pub answer_of : Status × Bytes × State e → Answer
  answer_of r = (r.0, r.1)

  -- The abstract view: a tracked key is read from the Dev-LSM, any other from the Main-LSM.
  abbrev pub from_main : State e → Bytes → Bytes → Answer
  from_main s key value =
      let r = e.main.get s.main key in if is_ok r.0 then (ok, r.1) else (not_found, value)

  abbrev pub from_dev : State e → Bytes → Bytes → Answer
  from_dev s key value =
      let r = e.dev.get s.dev key [] in if is_neg r.0 then (not_found, value) else (ok, r.1)

  unfoldable pub view : State e → Bytes → Bytes → Answer
  view s key value =
      if HashMap.contains tracker_size s.key_tracker (track e key)
      then from_dev s key value
      else from_main s key value

  -- In a coherent state `Get` answers the abstract view on each of its branches: the Dev-LSM's
  -- value for a tracked key, the Main-LSM's for any other, and NotFound with the value as it was
  -- where the one asked has none.
  pub get-view :
      (s : State e) (key value : Bytes)
      → IsCoherent e s
      → answer_of (get e s key value) ≡ view s key value
  unfolding get view
  get-view s key value c = ground (arith, λ (z : s.kache_flag ≡ 0). c.unused z (track e key))

  -- The tracker after a write that is not stalled.
  abbrev pub calm_tracker : State e → Bytes → HashMap.HashMap Bytes
  calm_tracker s k =
      if s.kache_flag == 0
      then s.key_tracker
      else if HashMap.contains tracker_size s.key_tracker (track e k)
      then HashMap.delete tracker_size s.key_tracker (track e k)
      else s.key_tracker

  pub put-calm :
      (s : State e) (k v : Bytes)
      → is_high s.monitor_l0_status ≡ false
      → put e s k v ≡ (
        (e.main.put s.main k v).0,
        record s { main = (e.main.put s.main k v).1; key_tracker = calm_tracker s k },
      )
  unfolding put
  put-calm s k v calm = ground arith

  pub put-stalled :
      (s : State e) (k v : Bytes)
      → is_high s.monitor_l0_status ≡ true
      → put e s k v ≡ (
        ok,
        record s {
          kache_flag = 1;
          dev = (e.dev.put s.dev k v).1;
          key_tracker = HashMap.insert tracker_size s.key_tracker (track e k) k;
        },
      )
  unfolding put
  put-stalled s k v high = rw high

  -- What a write that is not stalled leaves in the tracker.
  pub contains-calm_tracker :
      (s : State e) (k : Bytes) (j : ℕ)
      → IsCoherent e s
      → HashMap.contains tracker_size (calm_tracker s k) j ≡ (
          if track e k == j
          then ltb 1 (times tracker_size s.key_tracker j)
          else HashMap.contains tracker_size s.key_tracker j)
  contains-calm_tracker s k j c = ground (
    arith,
    λ (z : s.kache_flag ≡ 0). c.unused z j,
    contains-eq-ltb tracker_size s.key_tracker j,
    contains-eq-ltb tracker_size s.key_tracker (track e k),
    contains-delete tracker_size s.key_tracker (track e k) j c.sized,
  )

  IsSized-calm_tracker :
      (s : State e) (k : Bytes) → IsCoherent e s → IsSized tracker_size (calm_tracker s k)
  IsSized-calm_tracker s k c = ground (arith, IsSized-delete tracker_size (track e k) c.sized)

  -- Every write, stalled or not, keeps the state coherent: the tracker has its buckets, and holds
  -- no key while the flag says that the Dev-LSM is empty.
  pub put-IsCoherent : (s : State e) (k v : Bytes) → IsCoherent e s → IsCoherent e (put e s k v).1
  put-IsCoherent s k v c = elim (Bool-cases (is_high s.monitor_l0_status)) [
    | inl high ↦ rw (put-stalled s k v high) (record {
      sized = IsSized-insert tracker_size (track e k) k c.sized;
      unused = λ z j. absurd (omega (arith, z));
    })
    | inr calm ↦ rw (put-calm s k v calm) (record {
      sized = IsSized-calm_tracker s k c;
      unused = λ z j. ground (arith, z, c.unused z j);
    })
  ]

  -- In a coherent state that is not stalled, over a Main-LSM that is a store, a write that answers
  -- OK is what its key reads as, if the tracker holds the key's number at most once.
  pub view-put :
      (s : State e) (k v value : Bytes)
      → IsCoherent e s
      → IsStore e.main
      → is_high s.monitor_l0_status ≡ false
      → (put e s k v).0 ≡ ok
      → times tracker_size s.key_tracker (track e k) ≤ 1
      → view (put e s k v).1 k value ≡ (ok, v)
  unfolding view
  view-put s k v value c m calm done once =
      let done' : (e.main.put s.main k v).0 ≡ ok = rw (put-calm s k v calm) at done in
      rw (put-calm s k v calm)
        (ground (arith, contains-calm_tracker s k (track e k) c, m.get-put s.main k v done'))
