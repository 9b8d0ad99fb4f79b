-- ===== src/Master/History/Effects.antt =====
-- What an event in the history of kvaccel/db/db_impl/db_impl_master.cc does to one key: to the tracker
-- and to what the Main-LSM has.
use kvaccel.Base.{ℕ, sym, ◌-◌, ◌≡◌, refl, ◌∙◌, true, ◌==◌, bit, arith}
use kvaccel.Base.Bytes.{Bytes}
use kvaccel.Master.Rollback.{migrate, reset_device}
use kvaccel.HashMap
use kvaccel.HashMap.Laws.{times, times-delete, contains-eq-ltb, contains-clear}
use kvaccel.Master.{Env, State, track, tracker_size}
use kvaccel.Master.Coherence.{IsCoherent, from_main, calm_tracker}
use kvaccel.Master.History.{Event, counted, own, moved}
use kvaccel.Master.History.Quiet.{Same}

module _ (e : Env) where
  -- The tracker's entries of a key.
  abbrev pub tracked : State e → Bytes → ℕ
  tracked s j = times tracker_size s.key_tracker (track e j)

  pub times-calm :
      (s : State e) (k : Bytes) (j : ℕ)
      → IsCoherent e s
      → times tracker_size (calm_tracker e s k) j
        ≡ times tracker_size s.key_tracker j - bit (track e k == j)
  times-calm s k j c = ground (
    arith,
    λ (z : s.kache_flag ≡ 0). c.unused z j,
    contains-eq-ltb tracker_size s.key_tracker j,
    contains-eq-ltb tracker_size s.key_tracker (track e k),
    times-delete tracker_size s.key_tracker (track e k) j c.sized,
  )

  pub tracked-migrate :
      (s : State e) (k v j : Bytes)
      → IsCoherent e s
      → tracked (migrate e s k v) j ≡ tracked s j - bit (track e k == track e j)
  unfolding migrate
  tracked-migrate s k v j c = ground (
    arith,
    contains-eq-ltb tracker_size s.key_tracker (track e j),
    contains-eq-ltb tracker_size s.key_tracker (track e k),
    times-delete tracker_size s.key_tracker (track e k) (track e j) c.sized,
  )

  tracked-reset_device : (s : State e) (j : Bytes) → tracked (reset_device e s) j ≡ 0
  unfolding reset_device
  tracked-reset_device s j = ground (
    arith,
    contains-clear tracker_size s.key_tracker (track e j),
    contains-eq-ltb tracker_size (HashMap.clear s.key_tracker) (track e j),
  )

  pub tracked-Same : (s s' : State e) (j : Bytes) → Same e s s' → tracked s' j ≡ tracked s j
  tracked-Same s s' j same = rw same.tracker refl

  pub IsCoherent-Same :
      (s s' : State e)
      → Same e s s'
      → s'.kache_flag ≡ s.kache_flag
      → IsCoherent e s
      → IsCoherent e s'
  IsCoherent-Same s s' same kache c = record {
    sized = rw same.tracker c.sized;
    unused = λ z j. rw same.tracker (c.unused (sym kache ∙ z) j);
  }

  pub from_main-Same :
      (s s' : State e) (j value : Bytes)
      → Same e s s'
      → from_main e s' j value ≡ from_main e s j value
  from_main-Same s s' j value same = rw same.main refl

  -- What an event of a step does to a key.
  pub record Told (j value : Bytes) (x : Event) (s s' : State e) : Type 0 where
    pub counts : tracked s' j ≡ counted e j x (tracked s j)
    pub moves :
        own e j x ≡ true
        → from_main e s' j value ≡ moved e j x (tracked s j) (from_main e s j value)

  pub Told-Same : (j value : Bytes) (s s' : State e) → Same e s s' → Told j value Event.other s s'
  Told-Same j value s s' same = record {
    counts = tracked-Same s s' j same;
    moves = λ o. from_main-Same s s' j value same;
  }

  pub Told-reset_device :
      (j value : Bytes) (s : State e) → Told j value Event.ended s (reset_device e s)
  unfolding reset_device
  Told-reset_device j value s = record { counts = tracked-reset_device s j; moves = λ o. refl }
