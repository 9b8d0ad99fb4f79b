-- ===== src/BenchStore.antt =====
-- The theorems on what the benchmark's workloads leave in a store, applied to small inputs.
use kvaccel.Base.{◌+◌, ◌≡◌, refl, true, false, some, [], ◌∷◌, arith}
use kvaccel.Base.Bytes.{Bytes}
use kvaccel.Rocks.{Status, ok, not_found}
use kvaccel.Master.Write.{get}
use kvaccel.Toy.{toy, start, main-IsStore}
use kvaccel.BenchExamples.{counting}
use kvaccel.BenchRuns.{four_bytes, values}
use kvaccel.Bench.{going, generate_key_from_int, fill_field}
use kvaccel.Bench.Values.{fixed}
use kvaccel.Bench.Numbers.{sequential, unique_random, fetch, key_generator, ascending}
use kvaccel.Bench.Fill
use kvaccel.Bench.Fill.{Inputs, delete}
use kvaccel.Bench.Fill.Entry.{
  write_entry, choose, choose_disposable, by_queue, do_job, delete_disposable, pop_job,
}
use kvaccel.Bench.Fill.Unwritten.{write_entry-skipped}
use mathlib.Core.Option
use kvaccel.Bench.Fill.Loop.{do_write, fresh_locals}
use kvaccel.Bench.Fill.Sequential
use kvaccel.Bench.Fill.Sequential.Readback.{get-do_write}
use kvaccel.Bench.Reads
use kvaccel.Bench.Reads.{read_random}
use kvaccel.Bench.Reads.Found
use kvaccel.Bench.Session.{read_random-do_write}
use kvaccel.Bench.Many.{BatchDb, IsBatchDb, replayed, put_many, get_many}
use kvaccel.Bench.Many.Verified.{get_many-put_many}

abbrev pub fill_flags : Fill.Flags
fill_flags = record {
  spec = four_bytes;
  flags_num = 3;
  num = 3;
  writes = 0;
  duration = 0;
  granularity = 1000;
  entries_per_batch = 1;
  write_mode = sequential;
  overwrites = false;
  overwrite_window_size = 0;
  disposable_entries_batch_size = 0;
  persistent_entries_batch_size = 0;
  disposable_entries_value_size = 0;
  persistent_entries_value_size = 0;
  disposable_entries_delete_delay = 0;
  writes_per_range_tombstone = 0;
  writes_before_delete_range = 0;
  max_num_range_tombstones = 0;
  range_tombstone_width = 0;
  expand_range_tombstones = false;
  sizes = fixed 2;
}

abbrev pub inputs : Inputs
inputs = record {
  shuffle = λ xs. xs;
  clock = λ i. i;
  overwrite_decider = λ i. false;
  reservoir_id = λ i. i;
  random_string = λ i n. [];
}

pub fill_flags-IsPlain : Sequential.IsPlain fill_flags
fill_flags-IsPlain = record {
  in_order = refl;
  no_jobs = refl;
  no_tombstones = refl;
  no_keys = refl;
  no_prefix = refl;
}

get-do_write_example :
    (s : Fill.Locals toy counting) × (do_write toy counting fill_flags inputs 4 start 0 values
      ≡ some (going s))
    × (s.num_written ≡ 3)
    × ((get toy s.master (0 ∷ 0 ∷ 0 ∷ 2 ∷ []) []).0 ≡ ok)
unfolding generate_key_from_int
get-do_write_example =
    get-do_write toy counting fill_flags inputs main-IsStore (λ s k v. refl) fill_flags-IsPlain 4 2
      (0 ∷ 0 ∷ 0 ∷ 2 ∷ []) [] start 0 values (omega arith) (omega arith) (omega arith) (omega arith)
      refl refl (omega arith) refl

abbrev read_flags : Reads.Flags
read_flags = record {
  spec = four_bytes;
  num = 3;
  reads = 5;
  duration = 0;
  granularity = 1000;
  entries_per_batch = 1;
  multiread_stride = 0;
  exponential = false;
  scaled = λ n. n;
}

read_flags-IsPlain : Found.IsPlain read_flags
read_flags-IsPlain = record {
  no_keys = refl;
  no_prefix = refl;
  no_stride = refl;
  untimed = refl;
  some_keys = omega arith;
}

read_random-do_write_example :
    (s : Fill.Locals toy counting) × (r : Reads.Locals toy counting read_flags) × (do_write toy
        counting fill_flags inputs 6 start 0 values
      ≡ some (going s))
    × (read_random toy counting read_flags (λ i. i) 6 s.master 7 ≡ some (going r))
    × (r.read ≡ 5)
    × (r.found ≡ 5)
read_random-do_write_example =
    read_random-do_write toy counting fill_flags inputs read_flags 6 start 0 7 values (λ i. i)
      main-IsStore (λ s k v. refl) fill_flags-IsPlain read_flags-IsPlain refl (omega arith)
      (omega arith) (omega arith) (omega arith) (omega arith) (omega arith) refl refl

-- A database that replays its batches; a snapshot is the database.
abbrev pub replaying : BatchDb
replaying = record {
  Db = Bytes → Status × Bytes;
  Snapshot = Bytes → Status × Bytes;
  write = λ d ops. (ok, λ k. replayed ops k (d k));
  get_snapshot = λ d. (d, d);
  get = λ d snap k. snap k;
  release_snapshot = λ d snap. d;
}

pub replaying-IsBatchDb : IsBatchDb replaying
replaying-IsBatchDb = record { get-write = λ d ops k done. refl }

abbrev nothing : Bytes → Status × Bytes
nothing k = (not_found, [])

get_many-put_many_example :
    let r = get_many replaying (put_many replaying nothing (7 ∷ []) (8 ∷ [])).1 (7 ∷ []) [] in
    (r.0 ≡ ok) × (r.1 ≡ 8 ∷ []) × (r.2 ≡ true)
unfolding put_many
get_many-put_many_example =
    get_many-put_many replaying nothing (7 ∷ []) (8 ∷ []) [] replaying-IsBatchDb refl

-- One disposable entry and no persistent one, whose delete is due.
abbrev job_flags : Fill.Flags
job_flags = record fill_flags { write_mode = unique_random; disposable_entries_batch_size = 1 }

abbrev job_due : Fill.Locals toy counting
job_due = record (fresh_locals toy counting job_flags inputs start 0 values) {
  disposable_entries_q = (0, 0) ∷ [];
}

abbrev job_done : Fill.Locals toy counting
job_done = record job_due {
  clock_reads = 3;
  disposable_entries_q = [];
  persistent_ent_and_del_index = 0;
  batch = delete (0 ∷ 0 ∷ 0 ∷ 0 ∷ []) ∷ [];
  bytes = 4;
  num_selective_deletes = 1;
}

write_entry-skipped_example :
    (write_entry toy counting job_flags inputs job_due ≡ going job_done)
    × (job_done.master ≡ job_due.master)
    × (job_done.num_selective_deletes ≡ job_due.num_selective_deletes + 1)
unfolding choose choose_disposable by_queue do_job delete_disposable pop_job fetch fresh_locals
    key_generator generate_key_from_int fill_field ascending Option.bind
write_entry-skipped_example =
    write_entry-skipped toy counting job_flags inputs job_due job_done refl
