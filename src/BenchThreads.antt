-- ===== src/BenchThreads.antt =====
-- The theorems on the benchmark's seeks, on its thread that writes in the background, and on its
-- workloads together, applied to small runs.
use kvaccel.Base.{ℕ, zero, suc, ◌+◌, ◌<◌, ◌≡◌, refl, true, false, some, [], ◌∷◌, arith}
use kvaccel.Base.Bytes.{Bytes, bytes_eq}
use kvaccel.Rocks.{ok, is_ok, MainLsm, IsStore}
use kvaccel.Master.{Env}
use kvaccel.Toy.{Pairs, main, main-IsStore, toy, start, stalled, key_a, value_1, find}
use kvaccel.BenchExamples.{counting}
use kvaccel.BenchRuns.{four_bytes, values}
use kvaccel.BenchStore.{fill_flags, fill_flags-IsPlain, inputs}
use kvaccel.Bench.{going, undefined}
use kvaccel.Bench.Values.{fixed}
use kvaccel.Bench.Fill
use kvaccel.Bench.Fill.Loop.{do_write}
use kvaccel.Bench.Seeks
use kvaccel.Bench.Seeks.{seek_once, seek_random}
use kvaccel.Bench.Seeks.Found
use kvaccel.Bench.Seeks.Found.{IsSeekable}
use kvaccel.Bench.Seeks.Ends.{steps, seek_once-past_end}
use kvaccel.Bench.Session.{seek_random-do_write}
use kvaccel.Bench.Background
use kvaccel.Bench.Background.{
  PlainDb, others_finished, background_round, write_key, write_tombstone, is_tombstone_due,
  bg_writer,
}
use kvaccel.Bench.Background.Ends.{IsSteady, bg_writer-finishing}
use kvaccel.Bench.Graph.{SeekDb}

-- A database that takes every deletion and counts them.
abbrev counts : PlainDb
counts = record { Db = ℕ; delete = λ n k. (ok, n + 1); delete_range = λ n a b. (ok, n + 1) }

-- A database without entries.
abbrev empty_db : SeekDb
empty_db = record {
  Iter = Bytes;
  seek = λ k. k;
  valid = λ i. false;
  key = λ i. i;
  value = λ i. i;
  next = λ i. i;
}

abbrev background_flags : Background.Flags
background_flags = record {
  spec = four_bytes;
  num = 3;
  writes = 2;
  finish_after_writes = true;
  writes_per_range_tombstone = 0;
  writes_before_delete_range = 0;
  max_num_range_tombstones = 0;
  range_tombstone_width = 0;
  expand_range_tombstones = false;
  sizes = fixed 2;
}

background_flags-IsSteady : IsSteady toy background_flags
background_flags-IsSteady = record {
  accepts = λ s k v. refl;
  some_keys = λ none_there. omega (arith, none_there);
  no_keys = refl;
  no_prefix = refl;
  no_tombstones = refl;
}

-- The readers are already done.
bg_writer-finishing_example :
    (s : Background.Locals toy counting counts) × (bg_writer toy counting counts background_flags
        (λ i. (1, 2))
        3
        stalled
        0
        5
        values
      ≡ some (going s))
    × (s.written ≡ 2)
bg_writer-finishing_example =
    bg_writer-finishing toy counting counts background_flags background_flags-IsSteady (λ i. (1, 2))
      3 stalled 0 5 values refl (omega arith) (omega arith)

abbrev background_start : Background.Locals toy counting counts
background_start = record {
  master = stalled;
  db = 0;
  rand = 0;
  gen = values;
  written = 0;
  bytes = 0;
  num_range_deletions = 0;
  hint_printed = false;
  passes = 0;
}

-- A store whose iterators stand on a key that they sought, if it is there.
abbrev seeking : MainLsm
seeking = record main {
  Iter = Pairs × Bytes;
  new_iterator = λ s. (s, []);
  seek = λ i k. (i.0, k);
  seek_to_first = λ i. (i.0, []);
  seek_to_last = λ i. (i.0, []);
  valid = λ i. is_ok (find i.0 i.1).0;
  key = λ i. i.1;
  value = λ i. (find i.0 i.1).1;
  next = λ i. ([], i.1);
  prev = λ i. ([], i.1);
}

seeking-IsSeekable : IsSeekable seeking
seeking-IsSeekable = record { seek-there = λ s k there. (there, refl) }

seeking-IsStore : IsStore seeking
seeking-IsStore = record { get-put = main-IsStore.get-put; get-put_ne = main-IsStore.get-put_ne }

abbrev seekable : Env
seekable = record toy { main = seeking }

abbrev seek_flags : Seeks.Flags
seek_flags = record {
  spec = four_bytes;
  num = 3;
  reads = 5;
  duration = 0;
  granularity = 1000;
  seek_missing_prefix = false;
  seek_nexts = 0;
  reverse_iterator = false;
  use_tailing_iterator = false;
}

seek_flags-IsPlain : Found.IsPlain seek_flags
seek_flags-IsPlain = record {
  no_keys = refl;
  no_prefix = refl;
  untimed = refl;
  some_keys = omega arith;
  no_missing = refl;
  no_nexts = refl;
  no_tailing = refl;
}

seek_random-do_write_example :
    (s : Fill.Locals seekable counting) × (r : Seeks.Locals seekable counting) × (do_write seekable
        counting fill_flags inputs 6 start 0 values
      ≡ some (going s))
    × (seek_random seekable counting seek_flags (λ i. i) 6 s.master 7 ≡ some (going r))
    × (r.read ≡ 5)
    × (r.found ≡ 5)
seek_random-do_write_example =
    seek_random-do_write seekable counting fill_flags inputs seek_flags 6 start 0 7 values (λ i. i)
      seeking-IsStore seeking-IsSeekable (λ s k v. refl) fill_flags-IsPlain seek_flags-IsPlain refl
      (omega arith) (omega arith) (omega arith) (omega arith) (omega arith) (omega arith) refl refl

-- A store of one entry, and seeks that read two.
abbrev last_seek : Seeks.Locals seekable counting
last_seek = record {
  master = record start { main = (key_a, value_1) ∷ [] };
  rand = 0;
  read = 0;
  found = 0;
  bytes = 0;
  clock_reads = 0;
}

abbrev two_nexts : Seeks.Flags
two_nexts = record seek_flags { seek_nexts = 2 }

here :
    (i : ℕ)
    → i < 1
    → seeking.valid (steps seekable counting two_nexts i ((key_a, value_1) ∷ [], key_a)) ≡ true
unfolding bytes_eq
here zero less = refl
here (suc i) less = absurd (omega (arith, less))

seek_once-past_end_example : seek_once seekable counting two_nexts last_seek key_a ≡ undefined
seek_once-past_end_example =
    seek_once-past_end seekable counting two_nexts 1 last_seek key_a refl refl refl refl here refl
      (omega arith)
