-- ===== src/DeviceExamples.antt =====
-- The theorems on kvaccel/db/db_impl/iLSM.cc, applied to small inputs.
use kvaccel.Base.{ℕ, ◌≡◌, refl, some, [], ◌∷◌, ◌++◌, arith, set, replicate, ◌+◌}
use kvaccel.Base.Int.{pos}
use kvaccel.Base.Bytes.{bytes32}
use kvaccel.Memory.{Memory, zeroed, write_at, read_at, word_at}
use kvaccel.Ilsm.{Ilsm, stat_index, Stat, BufferingInfo}
use kvaccel.Ilsm.Passthru.{Answer, finish_passthru, kv_reset}
use kvaccel.Ilsm.Device.{initial}
use kvaccel.Ilsm.Stats.{faults-finish_passthru}
use kvaccel.Ilsm.Buffer.{append_entry, fresh_info, flush_chunks, value_flush}
use kvaccel.Ilsm.Point
use kvaccel.Ilsm.Bulk.{parse_bulk, push_batch}
use kvaccel.Ilsm.Bulk.RoundTrip.{parse_bulk-Pairs}
use kvaccel.Ilsm.Scan.{next_scan_now}
use kvaccel.Ilsm.Scan.Pairing.{HasBatch}
use kvaccel.Ilsm.Scan.Leftovers.{scan-destroyed}
use kvaccel.Ilsm.Buffer.Fuel.{value_flush-fuel}
use kvaccel.Toy.{quiet, key_a, key_b, value_1, value_2}

faults-finish_passthru_example :
    (finish_passthru {W = ℕ} kv_reset (pos 5) (initial 0)).1.faults ≡ stat_index 10 ∷ []
faults-finish_passthru_example =
    faults-finish_passthru {W = ℕ} (initial 0) kv_reset (pos 5) refl (omega arith) (omega arith)

-- The device with an empty buffer that is allocated.
abbrev buffered : Ilsm ℕ
buffered = record (initial {W = ℕ} 0) { buffering_info = fresh_info zeroed zeroed }

-- The same with one pair in the buffer.
abbrev buffered_pair : BufferingInfo
buffered_pair = append_entry (fresh_info zeroed zeroed) key_a value_1

abbrev holding : Ilsm ℕ
holding = record buffered { buffering_info = buffered_pair }

value_flush-fuel_example :
    flush_chunks quiet (1 + 1 + 9) buffered_pair 0 holding ≡ value_flush quiet holding
unfolding append_entry
value_flush-fuel_example = value_flush-fuel quiet holding 9 (omega arith)

-- A transfer of one pair.
abbrev transfer : Memory
transfer = write_at (write_at zeroed 0 (bytes32 2 ++ key_a)) 4096 value_1

parse_bulk-Pairs_example : parse_bulk transfer ≡ (key_a ∷ [], value_1 ∷ [])
unfolding write_at read_at word_at bytes32
parse_bulk-Pairs_example =
    parse_bulk-Pairs transfer ((key_a, value_1) ∷ []) (omega arith) (refl, omega arith, refl, refl)
      (refl, tt)

-- Two keys and two values that wait for iterator 0.
abbrev batch : Ilsm ℕ
batch = record (initial {W = ℕ} 0) {
  keys = set (replicate 10 []) 0 (key_a ∷ key_b ∷ []);
  values = set (replicate 10 []) 0 (value_1 ∷ value_2 ∷ []);
}

batch-HasBatch : HasBatch batch 0 (key_a ∷ key_b ∷ []) (value_1 ∷ value_2 ∷ [])
batch-HasBatch = record {
  keys_left = refl;
  values_left = refl;
  keys_sized = omega arith;
  values_sized = omega arith;
}

abbrev destroy_answer : Answer
destroy_answer = record { err = pos 0; result = some 0; contents = zeroed }

scan-destroyed_example :
    (next_scan_now quiet 0 [] []
      (push_batch quiet 0
        (key_b ∷ [], value_2 ∷ [])
        (Point.destroyed quiet 0 destroy_answer batch).1).1).0
    ≡ (pos 1, key_a, value_2)
scan-destroyed_example =
    scan-destroyed quiet batch 0 destroy_answer key_a (key_b ∷ []) (value_1 ∷ value_2 ∷ [])
      (key_b ∷ []) (value_2 ∷ []) value_2 [] [] (omega arith) refl refl batch-HasBatch refl

-- Two keys and two values that wait for iterator 1.
abbrev second_batch : Ilsm ℕ
second_batch = record (initial {W = ℕ} 0) {
  keys = set (replicate 10 []) 1 (key_a ∷ key_b ∷ []);
  values = set (replicate 10 []) 1 (value_1 ∷ value_2 ∷ []);
}

second_batch-HasBatch : HasBatch second_batch 1 (key_a ∷ key_b ∷ []) (value_1 ∷ value_2 ∷ [])
second_batch-HasBatch = record {
  keys_left = refl;
  values_left = refl;
  keys_sized = omega arith;
  values_sized = omega arith;
}

-- Two puts of 5 ns together and no read.
abbrev two_puts : Stat
two_puts = record { t = pos 5 ∷ pos 0 ∷ []; c = 2 ∷ 0 ∷ [] }
