-- ===== src/BenchUpdates.antt =====
-- The updates, deletes and scans of integration/tools/db_bench_tool.cc on small inputs, and the
-- theorems on them.
use kvaccel.Base.{true, false, ◌≡◌, refl, some, [], ◌∷◌, arith}
use kvaccel.Base.Bytes.{Bytes}
use kvaccel.Rocks.{ok, not_found, MainLsm, Status}
use kvaccel.Master.{Env, State}
use kvaccel.Toy.{Pairs, find, main, toy, stalled, key_a, key_b, value_1, value_2}
use kvaccel.BenchExamples.{counting}
use kvaccel.BenchRuns.{four_bytes}
use kvaccel.Bench.{going, fill_field}
use kvaccel.Bench.Values.{fixed}
use kvaccel.BenchStore.{replaying, replaying-IsBatchDb}
use kvaccel.Bench.Deletes
use kvaccel.Bench.Deletes.{do_delete}
use kvaccel.Bench.Deletes.Gone.{read_back, read_back-do_delete}
use kvaccel.Bench.Scans.{read_sequential}
use kvaccel.Bench.Scans.Unread.{Entries, put_all, read_sequential-stalled}
use kvaccel.Bench.Updates.{MergeDb, Flags, Locals}

abbrev pairs : MergeDb
pairs = record {
  Db = Pairs;
  get = find;
  put = λ d k v. (ok, (k, v) ∷ d);
  merge = λ d k v. (ok, d);
  xor = λ old v. v;
}

abbrev flags : Flags
flags = record {
  spec = four_bytes;
  num = 1;
  merge_keys = 1;
  readwrites = 3;
  duration = 0;
  granularity = 1000;
  mergereadpercent = 50;
  sizes = fixed 1;
}

abbrev delete_flags : Deletes.Flags
delete_flags = record {
  spec = four_bytes;
  num = 5;
  deletes = 5;
  duration = 0;
  granularity = 1000;
  entries_per_batch = 2;
}

-- Every key reads as a value.
abbrev full : Bytes → Status × Bytes
full k = (ok, 7 ∷ [])

-- The number 3 lies in the second batch.
read_back-do_delete_example :
    (s : Deletes.Locals counting replaying delete_flags) × (do_delete counting replaying
        delete_flags
        (λ i. i)
        true
        6
        full
        0
      ≡ some (going s))
    × (read_back counting replaying delete_flags s.db (0 ∷ 0 ∷ 0 ∷ 3 ∷ []) ≡ (not_found, []))
unfolding fill_field
read_back-do_delete_example =
    read_back-do_delete counting replaying delete_flags
      (record { no_keys = refl; no_prefix = refl; some_entries = omega arith }) replaying-IsBatchDb
      (λ d ops. refl) (λ i. i) 6 3 full 0 (omega arith) (omega arith)

-- A Main-LSM whose iterator goes through what was written.
abbrev walking : MainLsm
walking = record main {
  valid = λ i. elim i [ [] ↦ false | p ∷ i' ↦ true ];
  key = λ i. elim i [ [] ↦ [] | p ∷ i' ↦ p.0 ];
  value = λ i. elim i [ [] ↦ [] | p ∷ i' ↦ p.1 ];
  next = λ i. elim i [ [] ↦ [] | p ∷ i' ↦ i' ];
}

abbrev walker : Env
walker = record toy { main = walking }

abbrev holding : State walker
holding = record stalled { main = (key_a, value_1) ∷ [] }

read_sequential-stalled_example :
    read_sequential walker 5 (put_all walker ((key_b, value_2) ∷ []) holding) ≡ (1, 6)
read_sequential-stalled_example =
    read_sequential-stalled walker ((key_b, value_2) ∷ []) holding 5 ((key_a, value_1) ∷ []) refl
      (Entries.entry refl (Entries.over refl))
