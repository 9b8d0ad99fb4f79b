-- ===== src/Examples.antt =====
-- Runs of kvaccel/db/db_impl/db_impl_master.cc and kvaccel/util/hash_map.h on small inputs, and the
-- theorems applied to them.
use kvaccel.Base.{◌≡◌, refl, inl, inr, some, [], ◌∷◌, arith, List, true, false}
use kvaccel.Base.Int.{pos}
use kvaccel.Base.Bytes.{Bytes, bytes_eq, load32}
use kvaccel.HashMap.{create, insert, contains}
use kvaccel.HashMap.Laws.{contains-create}
use kvaccel.Rocks.{ok}
use kvaccel.Master.{State, level_low, double_hash}
use kvaccel.Master.Write.{put, get}
use kvaccel.Master.Coherence.{IsCoherent, answer_of, view, get-view, put-IsCoherent}
use kvaccel.Master.Monitor.{monitor, classify}
use kvaccel.Master.History.{Event, written, brought, History}
use kvaccel.Master.History.Reads.{get-History}
use kvaccel.Master.Rollback.{
  migrate, Cursor, rollback_turn, fresh_cursor, round, Round, again, finished, start_scan,
  continue_scan, reset_device,
}
use kvaccel.Master.Steps.{Step}
use kvaccel.HashMap.Bucket.{find_if}
use kvaccel.Master.Frames.{view-put_stale}
use kvaccel.Master.Rollback.Drain.{Delivers}
use kvaccel.Master.Rollback.Preserve.{rollback_turn-view, IsCovered}
use kvaccel.Toy.{toy, start, stalled, key_a, value_1, value_2, main-IsStore}

put_get : (get toy (put toy start key_a value_1).1 key_a []).1 ≡ value_1
unfolding put get bytes_eq
put_get = refl

start-IsCoherent : IsCoherent toy start
unfolding create
start-IsCoherent = record {
  sized = record { positive = omega arith; sized = refl };
  unused = λ z k. contains-create Bytes 128 k;
}

stalled-IsCoherent : IsCoherent toy stalled
stalled-IsCoherent = record { sized = start-IsCoherent.sized; unused = start-IsCoherent.unused }

-- After one stalled write.
abbrev waiting : State toy
waiting = (put toy stalled key_a value_1).1

abbrev calmed : State toy
calmed = record waiting { monitor_l0_status = level_low }

waiting-IsCoherent : IsCoherent toy waiting
waiting-IsCoherent = put-IsCoherent toy stalled key_a value_1 stalled-IsCoherent

put-IsCoherent_example : IsCoherent toy waiting
put-IsCoherent_example = put-IsCoherent toy stalled key_a value_1 stalled-IsCoherent

calmed-IsCoherent : IsCoherent toy calmed
calmed-IsCoherent = record { sized = waiting-IsCoherent.sized; unused = waiting-IsCoherent.unused }

get-view_example : answer_of toy (get toy calmed key_a []) ≡ view toy calmed key_a []
get-view_example = get-view toy calmed key_a [] calmed-IsCoherent

-- Two stalled writes of one key, then calm.
abbrev doubled : State toy
doubled = record ((put toy (put toy stalled key_a value_1).1 key_a value_2).1) {
  monitor_l0_status = level_low;
}

doubled-IsCoherent : IsCoherent toy doubled
doubled-IsCoherent = record { sized = both.sized; unused = both.unused }
  where
    both : IsCoherent toy (put toy waiting key_a value_2).1
    both = put-IsCoherent toy waiting key_a value_2 waiting-IsCoherent

view-put_stale_example : view toy (put toy doubled key_a (9 ∷ [])).1 key_a [] ≡ (ok, value_2)
unfolding put insert double_hash load32 bytes_eq
view-put_stale_example =
    view-put_stale toy doubled key_a (9 ∷ []) [] doubled-IsCoherent refl (omega arith)

rollback_turn-view_example :
    (s' : State toy) × (c' : Cursor) × (rollback_turn toy 2 calmed fresh_cursor ≡ some (s', c'))
    × (view toy s' key_a [] ≡ view toy calmed key_a [])
    × (s'.kache_flag ≡ 0)
    × (s'.rollback_flag ≡ 0)
unfolding put double_hash load32 bytes_eq
rollback_turn-view_example =
    rollback_turn-view toy calmed fresh_cursor (pos 0) 0 key_a value_1 calmed.dev _ _ [] refl refl
      refl refl refl refl (Delivers.over refl) calmed-IsCoherent main-IsStore (λ s k v. refl) key_a
      [] (IsCovered.waiting value_1 refl (inr (refl, refl), tt) (inl refl)) 1 (omega arith)

-- A stalled write, the end of the stall, the rollback, and another write of the key.
abbrev entering : State toy
entering = record (monitor toy waiting) { rollback_flag = 1 }

abbrev state_of : Round (State toy) → State toy
state_of (again s c) = s
state_of (finished s c) = s

abbrev cursor_of : Round (State toy) → Cursor
cursor_of (again s c) = c
cursor_of (finished s c) = c

abbrev first_round : Round (State toy)
first_round = round toy entering fresh_cursor

abbrev last_round : Round (State toy)
last_round = round toy (state_of first_round) (cursor_of first_round)

abbrev over_again : State toy
over_again = (put toy (state_of last_round) key_a value_2).1

abbrev their_events : List Event
their_events =
    written false key_a value_2
    ∷ Event.ended
    ∷ brought key_a value_1
    ∷ Event.other
    ∷ Event.other
    ∷ written true key_a value_1
    ∷ []

to_over_again : History toy stalled fresh_cursor their_events over_again (cursor_of last_round)
unfolding put monitor classify bytes_eq migrate double_hash load32 insert contains find_if round
    start_scan continue_scan reset_device
to_over_again =
    History.happens
      (History.happens
        (History.happens
          (History.happens
            (History.happens
              (History.happens History.nothing (Step.write stalled fresh_cursor key_a value_1))
              (Step.watch waiting fresh_cursor))
            (Step.enter (monitor toy waiting) fresh_cursor refl refl))
          (Step.go_on entering (state_of first_round) fresh_cursor (cursor_of first_round) refl
            refl))
        (Step.leave (state_of first_round) (state_of last_round) (cursor_of first_round)
          (cursor_of last_round) refl refl))
      (Step.write (state_of last_round) (cursor_of last_round) key_a value_2)

get-History_example : answer_of toy (get toy over_again key_a []) ≡ (ok, value_2)
unfolding bytes_eq double_hash load32 get to_over_again
get-History_example =
    get-History toy main-IsStore (λ d k v. refl) stalled fresh_cursor
      (record { coherent = stalled-IsCoherent; rolling = λ on. absurd (omega (arith, on)) }) key_a
      [] refl refl to_over_again

-- Without the last write, it is what the rollback brought.
get_brought : answer_of toy (get toy (state_of last_round) key_a []) ≡ (ok, value_1)
unfolding put get monitor classify bytes_eq migrate double_hash load32 insert contains find_if round
    start_scan continue_scan reset_device
get_brought = refl
