-- ===== src/WholeExamples.antt =====
-- The theorems on the rollback's rounds, on every order of steps, on `GetPin`, on flushes and on the
-- master over its device, applied to small inputs.
use kvaccel.Base.{ℕ, ◌≡◌, refl, true, false, none, [], ◌∷◌, ◌++◌, arith, set, replicate}
use kvaccel.Base.Int.{pos}
use kvaccel.Base.Bytes.{Bytes, load32, bytes_eq, bytes32}
use kvaccel.Memory.{zeroed, write_at, word_at}
use kvaccel.HashMap.{create, insert, contains}
use kvaccel.HashMap.Bucket.{find_if}
use kvaccel.HashMap.Laws.{IsSized-create, contains-create}
use kvaccel.Rocks.{ok, not_found}
use kvaccel.Ilsm.{Ilsm, BufferingInfo}
use kvaccel.Ilsm.Device.{initial}
use kvaccel.Ilsm.Buffer.{fresh_info, append_entry, flush}
use kvaccel.Ilsm.Buffer.Contents.{IsBuffer}
use kvaccel.Ilsm.Buffer.Flushed.{Log, recorder, parts, pair_command, flush-parts, IsFull}
use kvaccel.Master.{Env, State, level_high, tracker_size, track, double_hash}
use kvaccel.Master.Write.{put, get, get_pin}
use kvaccel.Master.Coherence.{IsCoherent, view, answer_of, from_dev}
use kvaccel.Master.Rollback.{fresh_cursor, migrate, rollback_turn, round, again, Cursor}
use kvaccel.Master.Rollback.Rounds.{IsBarren, view-migrate, rollback_turn-barren}
use kvaccel.Master.Steps.{Step, Run, IsSound, Run-IsSound}
use kvaccel.Master.Pinned.{get_pin-put}
use kvaccel.Ilsm.Scan.Pairing.{HasBatch}
use kvaccel.Whole.Moved.{main-round_pair}
use kvaccel.Toy.{
  key_b, value_2, toy, start, stalled, main, main-IsStore, dev, quiet, key_a, value_1, ToyDev,
}
use kvaccel.Whole.{whole, view-put_pending}

get_pin-put_example :
    answer_of toy (get_pin toy (put toy start key_a value_1).1 key_a []) ≡ (not_found, value_1)
unfolding put
get_pin-put_example = get_pin-put toy start key_a value_1 [] main-IsStore refl refl refl

pub start-IsSound : IsSound toy stalled
start-IsSound = record {
  coherent = record {
    sized = record { positive = omega arith; sized = refl };
    unused = λ z k. unfold create in contains-create Bytes tracker_size k;
  };
  rolling = λ on. absurd (omega (arith, on));
}

-- A stalled write and a read.
abbrev written : State toy
written = (put toy stalled key_a value_1).1

Run-IsSound_example : IsSound toy (get toy written key_a []).2
Run-IsSound_example =
    Run-IsSound toy
      (Run.and_then (Step.write stalled fresh_cursor key_a value_1)
        (Run.and_then (Step.read written fresh_cursor key_a []) (Run.stop _ _)))
      start-IsSound

written-IsSound : IsSound toy written
written-IsSound =
    Run-IsSound toy (Run.and_then (Step.write stalled fresh_cursor key_a value_1) (Run.stop _ _))
      start-IsSound

view-migrate_example :
    view toy (migrate toy written key_a value_1) key_a [] ≡ view toy written key_a []
unfolding put insert double_hash load32 bytes_eq
view-migrate_example =
    view-migrate toy written key_a value_1 key_a [] written-IsSound.coherent main-IsStore refl
      (omega arith) refl (λ same. refl)

-- The flag says that the Dev-LSM is in use, but it holds nothing.
abbrev emptied : State toy
emptied = record start { kache_flag = 1 }

abbrev HoldsNothing : ToyDev → Type 0
HoldsNothing d = d.store ≡ []

dev-IsBarren : IsBarren dev HoldsNothing
dev-IsBarren = record { created = λ d id h. h; sought = λ d id k v h. rw h (refl, refl) }

rollback_turn-barren_example : rollback_turn toy 5 emptied fresh_cursor ≡ none
rollback_turn-barren_example =
    rollback_turn-barren toy HoldsNothing 5 emptied fresh_cursor dev-IsBarren refl refl refl refl
      refl

-- One pair in the buffer of a device that records.
abbrev one_pair : BufferingInfo
one_pair = append_entry (fresh_info zeroed zeroed) key_a value_1

abbrev recording : Ilsm Log
recording = record (initial {W = Log} []) { buffering_info = one_pair }

one_pair-IsFull : IsFull one_pair
unfolding append_entry write_at word_at bytes32
one_pair-IsFull = record {
  some_pairs = omega arith;
  few_pairs = omega arith;
  last_page = omega arith;
  within = omega arith;
}

flush-parts_example :
    ((flush recorder recording).0 ≡ pos 0)
    × ((flush recorder recording).1.world
        ≡ parts one_pair 0 1 ++ (pair_command one_pair, one_pair.kv_pair) ∷ [])
    × ((flush recorder recording).1.buffering_info ≡ record one_pair {
      is_init_required = true;
      kv_pair_offset = 0;
      value_log_offset = 0;
      buffering_cnt = 0;
    })
unfolding append_entry
flush-parts_example =
    flush-parts recording 1 one_pair-IsFull (omega arith) (omega arith) (omega arith)

-- The master over the device of this repository, in a stall, with an empty buffer.
abbrev pub joined : Env
joined = whole main toy.murmur quiet

abbrev fresh_device : Ilsm ℕ
fresh_device = record (initial {W = ℕ} 0) { buffering_info = fresh_info zeroed zeroed }

abbrev pub joined_start : State joined
joined_start = record {
  main = [];
  dev = fresh_device;
  num_instances = 1;
  kache_flag = 1;
  rollback_flag = 0;
  key_tracker = create Bytes tracker_size;
  monitor_l0_status = level_high;
  rollback_status = pos 0;
  l0_high = pos 7;
  set_memtable_size = 64;
  soft_limit = 100;
  hard_limit = 4194304;
  ilsm_iter_id = 0;
  iter_location = 0;
  times_get = 0;
  should_exit = false;
  rollback_should_exit = false;
  l0_stop_trigger = pos 36;
  l0_compaction_trigger = pos 4;
  l0_size = pos 0 ∷ [];
  l0_compaction_db_num = 0;
  total_memtable_size = 128;
  cnt_primary_put = 0;
  cnt_primary_but_over_ctt = 0;
  cnt_primary_get = 0;
  is_open = true;
  checker = pos 1;
  asked_invalid = false;
  rollback_threads = 1;
}

joined_start-IsCoherent : IsCoherent joined joined_start
joined_start-IsCoherent = record {
  sized = IsSized-create {V = Bytes} tracker_size (omega arith);
  unused = λ z k. absurd (omega (arith, z));
}

empty-IsBuffer : IsBuffer (fresh_info zeroed zeroed) []
empty-IsBuffer = record { held = tt; pair_count = refl; page_count = refl; entry_count = refl }

view-put_pending_example :
    ((put joined joined_start key_a value_1).0 ≡ ok)
    × (view joined (put joined joined_start key_a value_1).1 key_a []
        ≡ from_dev joined joined_start key_a [])
view-put_pending_example =
    view-put_pending main toy.murmur quiet joined_start [] key_a value_1 [] (λ w. refl)
      joined_start-IsCoherent refl refl empty-IsBuffer (omega arith) (omega arith)

-- A longer key with the same first four bytes.
abbrev key_aa : Bytes
key_aa = 97 ∷ 49 ∷ 49 ∷ 49 ∷ 50 ∷ []

abbrev tracking : State joined
tracking = record joined_start {
  key_tracker = insert tracker_size (create Bytes tracker_size) (track joined key_a) key_a;
}

-- Two keys and two values that wait for iterator 0.
abbrev two_pairs : Ilsm ℕ
two_pairs = record fresh_device {
  keys = set (replicate 10 []) 0 (key_a ∷ key_b ∷ []);
  values = set (replicate 10 []) 0 (value_1 ∷ value_2 ∷ []);
}

two_pairs-HasBatch : HasBatch two_pairs 0 (key_a ∷ key_b ∷ []) (value_1 ∷ value_2 ∷ [])
two_pairs-HasBatch = record {
  keys_left = refl;
  values_left = refl;
  keys_sized = omega arith;
  values_sized = omega arith;
}

abbrev scanning : State joined
scanning = record tracking { dev = two_pairs }

abbrev inside : Cursor
inside = record fresh_cursor { flag = pos 1 }

main-round_pair_example :
    (s' : State joined) × (c' : Cursor) × (round joined scanning inside ≡ again s' c')
    × (s'.main ≡ (key_a, value_2) ∷ [])
unfolding insert create double_hash load32 contains find_if
main-round_pair_example =
    main-round_pair main toy.murmur quiet scanning inside key_a value_2 _ _ refl two_pairs-HasBatch
      refl refl
