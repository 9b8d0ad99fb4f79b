-- ===== src/BenchStats.antt =====
-- `Stats` of integration/tools/db_bench_tool.cc with two threads, and the theorems applied to them.
use kvaccel.Base.{ℕ, ◌+◌, ◌≡◌, refl, true, some, [], ◌∷◌, arith}
use kvaccel.Base.Int.{pos}
use mathlib.Core.Path.{ap₂}
use mathlib.Core.List.{Permᴰ}
use kvaccel.Bench.Stats.{
  Meter, Flags, Stats, OperationType, construct, restart, finished_ops, stop, merge_stats, elapsed,
}
use kvaccel.Bench.Stats.Reported.{hist-finished_ops}
use kvaccel.Bench.Stats.Merged.{IsAdditive, figures, figures-merge_stats, elapsed-merge_stats}

-- Histograms that count and sum.
abbrev simple : Meter
simple = record {
  Histogram = ℕ × ℕ;
  empty = (0, 0);
  add = λ h micros. (h.0 + 1, h.1 + micros);
  merge_into = λ h g. (h.0 + g.0, h.1 + g.1);
  Seconds = ℕ;
  no_seconds = 0;
  plus = λ a b. a + b;
  of_micros = λ n. n;
}

simple-IsAdditive : IsAdditive simple
simple-IsAdditive = record {
  comm = λ h g. ap₂ (λ a b. (a, b)) (omega arith) (omega arith);
  right_comm = λ h g k. ap₂ (λ a b. (a, b)) (omega arith) (omega arith);
}

abbrev timing : Flags
timing = record {
  histogram = true;
  progress_reports = true;
  stats_interval = 0;
  stats_interval_seconds = 0;
}

-- Made at 10, started at 500, one read until 530, stopped at 540.
abbrev thread_1 : Stats simple
thread_1 = stop simple 540 (
    finished_ops simple timing 1 OperationType.read 530 531
      (restart simple timing (pos 0) 500 501 (construct simple timing 10 11)))

-- Made at 20, started at 510, two writes until 560, stopped at 570.
abbrev thread_2 : Stats simple
thread_2 = stop simple 570 (
    finished_ops simple timing 2 OperationType.write 560 561
      (restart simple timing (pos 1) 510 511 (construct simple timing 20 21)))

-- Another 30 microseconds after the start, 520 are counted.
hist-finished_ops_example :
    (finished_ops simple timing 1 OperationType.read 530 531
        (restart simple timing (pos 0) 500 501 (construct simple timing 10 11))).hist
      OperationType.read
    ≡ some (1, 520)
hist-finished_ops_example =
    hist-finished_ops simple timing 10 11 (pos 0) 500 501 1 OperationType.read 530 531 refl

figures-merge_stats_example :
    figures simple (merge_stats simple timing 900 901 (thread_1 ∷ thread_2 ∷ []))
    ≡ figures simple (merge_stats simple timing 900 901 (thread_2 ∷ thread_1 ∷ []))
figures-merge_stats_example =
    figures-merge_stats simple timing 900 901 (thread_1 ∷ thread_2 ∷ []) (thread_2 ∷ thread_1 ∷ [])
      simple-IsAdditive (Permᴰ.swap refl refl)

-- The last thread stopped at 570, the statistics were merged at 900.
elapsed-merge_stats_example :
    elapsed (merge_stats simple timing 900 901 (thread_1 ∷ thread_2 ∷ [])) ≡ 400
unfolding construct finished_ops restart stop
elapsed-merge_stats_example =
    elapsed-merge_stats simple timing 900 901 (thread_1 ∷ thread_2 ∷ []) (omega arith) refl
