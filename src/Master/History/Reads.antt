-- ===== src/Master/History/Reads.antt =====
-- Any sequence of calls and of rounds of the rollback of kvaccel/db/db_impl/db_impl_master.cc and
-- what a key reads as behind them.
use mathlib.Core.Path.{ap₂}
use kvaccel.Base.{ltb, if◌then◌else◌, [], sym, ◌≡◌, refl, ◌∙◌, ap, subst, true, List, arith}
use kvaccel.Base.Bytes.{Bytes}
use kvaccel.Master.Rollback.{Cursor, again, finished, migrate}
use kvaccel.Rocks.{ok, IsStore}
use kvaccel.Master.{Env, State, tracker_size, track}
use kvaccel.Master.Write.{get}
use kvaccel.HashMap.Laws.{contains-eq-ltb}
use kvaccel.Master.Coherence.{IsCoherent, view, from_dev, answer_of, get-view, from_main}
use kvaccel.Master.Steps.{Step, IsSound, IsSound-Step}
use kvaccel.Master.History.{
  Event, brought, counted, moved, latest, pending, is_own, event_of, History,
}
use kvaccel.Master.History.Quiet.{
  Same, Same-get, Same-get_pin, Same-iterator_reset, Same-iterator_seek, Same-iterator_next,
  Same-iterator_destroy, Same-monitor, Rolled, Rolled-round,
}
use kvaccel.Master.History.Effects.{
  tracked, IsCoherent-Same, Told, Told-Same, Told-reset_device, tracked-Same, from_main-Same,
}
use kvaccel.Master.History.Writes.{Told-put, Told-migrate}

module _ (e : Env) where
  module _ (main : IsStore e.main)
      (accepts : (d : e.main.State) (k v : Bytes) → (e.main.put d k v).0 ≡ ok) where
    -- A step and what leaves the entries, before it and after it.
    Told-between :
        (j value : Bytes) (x : Event) {s m m' s' : State e}
        → Same e s m
        → Told e j value x m m'
        → Same e m' s'
        → Told e j value x s s'
    Told-between j value x {s} {m} {m'} {s'} before told after = record {
      counts =
          tracked-Same e m' s' j after
          ∙ told.counts
          ∙ ap (counted e j x) (tracked-Same e s m j before);
      moves = λ o.
          from_main-Same e m' s' j value after
          ∙ told.moves o
          ∙ ap₂ (moved e j x) (tracked-Same e s m j before) (from_main-Same e s m j value before);
    }

    Told-again :
        (s s' : State e) (c c' : Cursor) (j value : Bytes)
        → IsCoherent e s
        → Rolled e s (again s' c')
        → Told e j value (brought c'.key c'.value) s s'
    Told-again s s' c c' j value coherent (m, same, kache, went) =
        Told-between j value (brought c'.key c'.value) same
          (Told-migrate e main accepts m c'.key c'.value j value
            (IsCoherent-Same e s m same kache coherent))
          (subst (λ x. Same e (migrate e m c'.key c'.value) x) (sym went)
            (Same-monitor e (migrate e m c'.key c'.value)))

    Told-finished :
        (s s' : State e) (c' : Cursor) (j value : Bytes)
        → Rolled e s (finished s' c')
        → Told e j value Event.ended s s'
    Told-finished s s' c' j value (m, same, went) =
        Told-between j value Event.ended same (Told-reset_device e j value m)
          (record { main = ap (λ x. x.main) went; tracker = ap (λ x. x.key_tracker) went })

    Told-Step :
        (j value : Bytes) {s s' : State e} {c c' : Cursor} (step : Step e s c s' c')
        → IsSound e s
        → Told e j value (event_of e step) s s'
    Told-Step j value (Step.write s c k v) i = Told-put e main accepts s k v j value i.coherent
    Told-Step j value (Step.read s c k v) i = Told-Same e j value s _ (Same-get e s k v)
    Told-Step j value (Step.read_pin s c k v) i = Told-Same e j value s _ (Same-get_pin e s k v)
    Told-Step j value (Step.new_iter s c) i = Told-Same e j value s _ (Same-iterator_reset e s)
    Told-Step j value (Step.seek s c it k) i = Told-Same e j value s _ (Same-iterator_seek e s it k)
    Told-Step j value (Step.next s c it) i = Told-Same e j value s _ (Same-iterator_next e s it)
    Told-Step j value (Step.drop_iter s c) i = Told-Same e j value s _ (Same-iterator_destroy e s)
    Told-Step j value (Step.watch s c) i = Told-Same e j value s _ (Same-monitor e s)
    Told-Step j value (Step.enter s c low dirty) i =
        Told-Same e j value s (record s { rollback_flag = 1 })
          (record { main = refl; tracker = refl })
    Told-Step j value (Step.go_on s s' c c' on went) i =
        Told-again s s' c c' j value i.coherent (subst (Rolled e s) went (Rolled-round e s c))
    Told-Step j value (Step.leave s s' c c' on went) i =
        Told-finished s s' c' j value (subst (Rolled e s) went (Rolled-round e s c))

    module _ (s : State e) (c : Cursor) (sound : IsSound e s) where
      History-IsSound :
          {xs : List Event} {m : State e} {d : Cursor} → History e s c xs m d → IsSound e m
      History-IsSound History.nothing = sound
      History-IsSound (History.happens before step) = IsSound-Step e step (History-IsSound before)

      tracked-History :
          (j : Bytes) {xs : List Event} {m : State e} {d : Cursor}
          → tracked e s j ≡ 0
          → History e s c xs m d
          → tracked e m j ≡ pending e j xs
      tracked-History j untracked History.nothing = untracked
      tracked-History j untracked (History.happens before step) =
          (Told-Step j [] step (History-IsSound before)).counts
          ∙ ap (counted e j (event_of e step)) (tracked-History j untracked before)

      from_main-History :
          (j value : Bytes) {xs : List Event} {m : State e} {d : Cursor}
          → tracked e s j ≡ 0
          → is_own e j xs ≡ true
          → History e s c xs m d
          → from_main e m j value ≡ latest e j xs (from_main e s j value)
      from_main-History j value untracked its_own History.nothing = refl
      from_main-History j value untracked its_own (History.happens before step) =
          let told = Told-Step j value step (History-IsSound before) in
          told.moves (ground (arith, its_own))
          ∙ ap₂ (moved e j (event_of e step)) (tracked-History j untracked before)
              (from_main-History j value untracked (ground (arith, its_own)) before)

      view-tracked :
          (m : State e) (j value : Bytes)
          → view e m j value
            ≡ (if ltb 0 (tracked e m j) then from_dev e m j value else from_main e m j value)
      unfolding view
      view-tracked m j value = rw (contains-eq-ltb tracker_size m.key_tracker (track e j)) refl

      -- From a sound state, over a Main-LSM that is a store and takes every write, whatever the
      -- Dev-LSM answers: however writes, reads, iterator calls, looks of the monitor, which may
      -- begin and end stalls, and rounds of the rollback follow one another, a key that is not
      -- tracked at first and with whose number no other key is written or brought reads as what
      -- the Dev-LSM answers then, if a stalled write of it is pending, and otherwise as the last
      -- value that was written under it without a stall or that a round brought while one was
      -- pending, and as before if there is none. A stalled write adds one that is pending, a write
      -- without a stall and a round that brings the key take one away, and the end of a scan takes
      -- all.
      pub get-History :
          (j value : Bytes) {xs : List Event} {m : State e} {d : Cursor}
          → tracked e s j ≡ 0
          → is_own e j xs ≡ true
          → History e s c xs m d
          → answer_of e (get e m j value) ≡ (
              if ltb 0 (pending e j xs)
              then from_dev e m j value
              else latest e j xs (answer_of e (get e s j value)))
      get-History j value {xs} {m} untracked its_own history =
          let first = get-view e s j value sound.coherent ∙ view-tracked s j value in
          let now =
            get-view e m j value (History-IsSound history).coherent ∙ view-tracked m j value in
          now
          ∙ ap₂ (λ n a. if ltb 0 n then from_dev e m j value else a)
              (tracked-History j untracked history)
              (from_main-History j value untracked its_own history
                ∙ ap (latest e j xs) (sym (rw untracked at first)))
