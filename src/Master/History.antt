-- ===== src/Master/History.antt =====
-- What the calls of `DB_MASTER` (kvaccel/db/db_impl/db_impl_master.cc) and the rounds of its rollback
-- have done to the entries, and what they leave in the Main-LSM
-- and in the tracker.
pub mod Quiet
pub mod Effects
pub mod Writes
pub mod Reads
use kvaccel.Base.{
  ℕ, ◌+◌, ◌-◌, ◌≡◌, Bool, true, false, not, ◌&&◌, ◌||◌, List, [], ◌∷◌, ltb, ◌==◌, if◌then◌else◌,
  bit,
}
use kvaccel.Base.Bytes.{Bytes, bytes_eq}
use kvaccel.Base.Int.{is_neg}
use kvaccel.Rocks.{Status, ok}
use kvaccel.Master.{Env, State, track}
use kvaccel.Master.Write.{is_high}
use kvaccel.Master.Rollback.{Cursor}
use kvaccel.Master.Steps.{Step}

-- A write, stalled or not; a round of the rollback that brings an entry; the end of its scan, with
-- which the tracker is cleared; anything else.
pub data Event : Type 0 where
  written : Bool → Bytes → Bytes → Event
  brought : Bytes → Bytes → Event
  ended other : Event

module _ (e : Env) where
  -- How many entries of a key the tracker has: a stalled write adds one, a write that is not
  -- stalled and a round take one away.
  abbrev pub counted : Bytes → Event → ℕ → ℕ
  counted j (written true k v) n = n + bit (track e k == track e j)
  counted j (written false k v) n = n - bit (track e k == track e j)
  counted j (brought k v) n = n - bit (track e k == track e j)
  counted j ended n = 0
  counted j other n = n

  -- What the Main-LSM has of a key after an event, by the entries of the tracker and by what it had:
  -- a write that is not stalled, and a round where the key is tracked.
  abbrev pub moved : Bytes → Event → ℕ → Status × Bytes → Status × Bytes
  moved j (written true k v) n before = before
  moved j (written false k v) n before = if track e k == track e j then (ok, v) else before
  moved j (brought k v) n before = if track e k == track e j && ltb 0 n then (ok, v) else before
  moved j ended n before = before
  moved j other n before = before

  -- No other key with the same number.
  abbrev pub own : Bytes → Event → Bool
  own j (written b k v) = not (track e k == track e j) || bytes_eq k j
  own j (brought k v) = not (track e k == track e j) || bytes_eq k j
  own j ended = true
  own j other = true

  -- Over all events, of which the newest stands first.
  abbrev pub pending : Bytes → List Event → ℕ
  pending j [] = 0
  pending j (x ∷ xs) = counted j x (pending j xs)

  abbrev pub latest : Bytes → List Event → Status × Bytes → Status × Bytes
  latest j [] before = before
  latest j (x ∷ xs) before = moved j x (pending j xs) (latest j xs before)

  abbrev pub is_own : Bytes → List Event → Bool
  is_own j [] = true
  is_own j (x ∷ xs) = own j x && is_own j xs

  abbrev pub event_of : {s s' : State e} {c c' : Cursor} → Step e s c s' c' → Event
  event_of (Step.write s c k v) = written (is_high s.monitor_l0_status) k v
  event_of (Step.go_on s s' c c' on went) = brought c'.key c'.value
  event_of (Step.leave s s' c c' on went) = ended
  event_of (Step.read s c k value) = other
  event_of (Step.read_pin s c k pinned) = other
  event_of (Step.new_iter s c) = other
  event_of (Step.seek s c it k) = other
  event_of (Step.next s c it) = other
  event_of (Step.drop_iter s c) = other
  event_of (Step.watch s c) = other
  event_of (Step.enter s c low dirty) = other

  -- Any number of steps in any order, with their events.
  pub data History (s : State e) (c : Cursor) : List Event → State e → Cursor → Type 0 where
    nothing : History s c [] s c
    happens :
        {xs : List Event} {m m' : State e} {d d' : Cursor}
        → History s c xs m d
        → (step : Step e m d m' d') → History s c (event_of step ∷ xs) m' d'
