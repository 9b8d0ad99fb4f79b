-- ===== src/MasterExamples.antt =====
-- The theorems on the monitor, the Bloom filter, the iterator, the opening and the closing of
-- kvaccel/db/db_impl/db_impl_master.cc, applied to small inputs.
use kvaccel.Base.{◌≤◌, ◌≡◌, refl, true, false, [], ◌∷◌, arith, ◌+◌, ◌↔◌, ◌⊎◌, ◌<◌}
use kvaccel.Base.Int.{pos}
use kvaccel.Base.Bytes.{bytes_eq, load32}
use kvaccel.HashMap
use kvaccel.HashMap.Bucket.{find_if}
use kvaccel.Rocks.{ok, not_found, Options}
use kvaccel.Master.{Env, State, level_high, double_hash}
use kvaccel.Master.Monitor.{classify, reserve}
use kvaccel.Master.Monitor.Levels.{classify-high}
use kvaccel.Master.Bloom.{BloomFilter}
use kvaccel.Master.Coherence.{answer_of}
use kvaccel.Master.Lifecycle.{open_master, get-open_master}
use kvaccel.Master.Iterate.Plain.{Travel, travel, shown, shown-travel}
use kvaccel.Master.Write.{put, get}
use kvaccel.Master.Reopen.{reopen, get-reopen}
use kvaccel.Master.Reopen.Idle.{IsIdle, reopen-IsIdle}
use kvaccel.Master.Rollback.{fresh_cursor}
use kvaccel.Master.Steps.{Step, Run}
use kvaccel.Toy.{toy, start, stalled, key_a, key_b, value_1, value_2, main}

classify-high_example :
    (classify (pos 7) (pos 1) (pos 0) 900000 0 2097153 ≡ level_high)
    ↔ ((0 < 1) × ((36 ≤ 1 + 0) ⊎ (2097153 ≤ 900000 + reserve)))
classify-high_example = classify-high (pos 7) 1 0 900000 0 2097153 (omega arith) (omega arith)

abbrev empty_filter : BloomFilter
empty_filter = record { bit_array = λ i. 0; overruns = [] }

-- A Main-LSM whose iterator always stands on the key "z".
abbrev at_z : Env
at_z = record toy { main = record main { valid = λ i. true; key = λ i. 122 ∷ [] } }

abbrev options : Options
options = record {
  write_buffer_size = 64;
  max_write_buffer_number = 2;
  level0_stop_writes_trigger = pos 36;
  level0_file_num_compaction_trigger = pos 4;
  soft_pending_compaction_bytes_limit = 100;
  hard_pending_compaction_bytes_limit = 4194304;
}

-- Opened in a stall in which a key waits in the Dev-LSM.
get-open_master_example :
    (let s = (put toy stalled key_a value_1).1 in
      let r = open_master toy s options [] 1 5 in
      (r.0 ≡ ok)
      × (answer_of toy (get toy r.1 key_a []) ≡ (not_found, []))
      × ((put toy r.1 key_b value_2).0 ≡ ok)
      × ((put toy r.1 key_b value_2).1.main ≡ (main.put [] key_b value_2).1)
      × ((put toy r.1 key_b value_2).1.dev ≡ s.dev))
get-open_master_example =
    get-open_master toy (put toy stalled key_a value_1).1 options [] 5 key_a [] key_b value_2

shown-travel_example :
    shown at_z key_a
      (travel at_z (Travel.to_key key_a ∷ Travel.forward ∷ Travel.back ∷ []) ([], start))
    ≡ (true, 122 ∷ [], [], false)
unfolding bytes_eq
shown-travel_example =
    shown-travel at_z (Travel.to_key key_a ∷ Travel.forward ∷ Travel.back ∷ []) key_a [] start refl
      refl

-- The database is destroyed while one stalled write waits in the Dev-LSM.
abbrev left_waiting : State toy
left_waiting = (put toy stalled key_a value_1).1

abbrev new_db : State toy
new_db = (put toy (reopen toy left_waiting options []) key_a value_2).1

get-reopen_example :
    answer_of toy (
      get toy (put toy (record new_db { monitor_l0_status = level_high }) key_b value_2).1 key_a [])
    ≡ (ok, value_1)
unfolding double_hash load32 bytes_eq put HashMap.insert HashMap.contains find_if
get-reopen_example =
    get-reopen toy left_waiting options [] key_a value_2 key_b value_2 []
      (record { positive = omega arith; sized = refl }) refl

-- A write and a read of a client behind the second `Open`.
abbrev served : State toy
served = (get toy new_db key_a []).2

reopen-IsIdle_example :
    ((reopen toy left_waiting options []).rollback_threads ≡ 1)
    × IsIdle toy served
    × ((put toy served key_b value_1).1.dev ≡ served.dev)
    × ((put toy served key_b value_1).1.main ≡ (main.put served.main key_b value_1).1)
unfolding put
reopen-IsIdle_example =
    reopen-IsIdle toy left_waiting options [] key_b value_1 refl
      (Run.and_then (Step.write (reopen toy left_waiting options []) fresh_cursor key_a value_2)
        (Run.and_then (Step.read new_db fresh_cursor key_a []) (Run.stop served fresh_cursor)))
      (tt, (tt, tt))
