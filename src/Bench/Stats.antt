-- ===== src/Bench/Stats.antt =====
-- `Stats` of integration/tools/db_bench_tool.cc, what a thread counts, and how `RunBenchmark` merges
-- it. The clock's readings are arguments; what is printed is left out.
pub mod Reported
pub mod Merged
use kvaccel.Base.{
  ℕ, ◌+◌, ◌-◌, ◌*◌, ◌%◌, ◌^◌, ◌<◌, ◌≤◌, ◌≡◌, refl, Bool, true, false, not, ◌&&◌, Option, none, some,
  List, [], ◌∷◌, ltb, leb, ◌==◌, if◌then◌else◌, arith, ◌++◌,
}
use kvaccel.Base.Int.{ℤ, pos, negsuc}
use kvaccel.Base.Bytes.{Bytes}

pub data OperationType : Type 0 where
  read write delete seek merging update compress uncompress crc hash others : OperationType

-- The numbers of the enumeration.
unfoldable pub code : OperationType → ℕ
code read = 0
code write = 1
code delete = 2
code seek = 3
code merging = 4
code update = 5
code compress = 6
code uncompress = 7
code crc = 8
code hash = 9
code others = 10

-- `HistogramImpl`, and `double` as far as `seconds_` needs it.
pub record Meter : Type 1 where
  pub Histogram : Type 0
  pub empty : Histogram
  pub add : Histogram → ℕ → Histogram
  pub merge_into : Histogram → Histogram → Histogram
  pub Seconds : Type 0
  pub no_seconds : Seconds
  pub plus : Seconds → Seconds → Seconds
  pub of_micros : ℕ → Seconds

pub record Flags : Type 0 where
  pub histogram : Bool
  pub progress_reports : Bool
  pub stats_interval : ℕ
  pub stats_interval_seconds : ℕ

pub record Stats (t : Meter) : Type 0 where
  pub id_ : ℤ
  pub start_ : ℕ
  pub sine_interval : ℕ
  pub finish_ : ℕ
  pub seconds : t.Seconds
  pub done : ℕ
  pub last_report_done : ℕ
  pub next_report : ℕ
  pub bytes : ℕ
  pub last_op_finish : ℕ
  pub last_report_finish : ℕ
  pub hist : OperationType → Option t.Histogram
  pub message : Bytes
  pub exclude_from_merge : Bool

-- When the next message comes without `--stats_interval`.
unfoldable pub next_after : ℕ → ℕ
next_after n =
    if ltb n 1000
    then n + 100
    else if ltb n 5000
    then n + 500
    else if ltb n 10000
    then n + 1000
    else if ltb n 50000
    then n + 5000
    else if ltb n 100000
    then n + 10000
    else if ltb n 500000
    then n + 50000
    else n + 100000

-- `AppendWithSpace`
unfoldable pub append_with_space : Bytes → Bytes → Bytes
append_with_space str [] = str
append_with_space [] (c ∷ cs) = c ∷ cs
append_with_space (b ∷ bs) (c ∷ cs) = (b ∷ bs) ++ 32 ∷ c ∷ cs

-- Just keep the message of one thread.
unfoldable pub kept : Bytes → Bytes → Bytes
kept [] msg = msg
kept (c ∷ cs) msg = c ∷ cs

module _ (t : Meter) where
  -- The histogram of an operation, which is made where there is none.
  unfoldable pub latencies : Option t.Histogram → ℕ → t.Histogram
  latencies none micros = t.add t.empty micros
  latencies (some h) micros = t.add h micros

  -- `FinishedOps` with `--histogram`: the time since the last operation.
  unfoldable pub note_latency : OperationType → ℕ → Stats t → Stats t
  unfolding code latencies
  note_latency op now s = record s {
    hist = λ o.
        if code o == code op
        then some (latencies (s.hist o) ((now + 2 ^ 64 - s.last_op_finish) % 2 ^ 64))
        else s.hist o;
    last_op_finish = now;
  }

  -- `Stop`
  unfoldable pub stop : ℕ → Stats t → Stats t
  stop now s = record s {
    finish_ = now;
    seconds = t.of_micros ((now + 2 ^ 64 - s.start_) % 2 ^ 64);
  }

  unfoldable pub add_message : Bytes → Stats t → Stats t
  unfolding append_with_space
  add_message msg s = record s { message = append_with_space s.message msg }

  -- One operation's histograms in `Merge`; no thread counts any more when its histogram is shared.
  unfoldable pub both : Option t.Histogram → Option t.Histogram → Option t.Histogram
  both h none = h
  both none (some g) = some g
  both (some h) (some g) = some (t.merge_into h g)

  -- `Merge`
  unfoldable pub merge : Stats t → Stats t → Stats t
  unfolding both kept
  merge s other = if other.exclude_from_merge then s else record s {
    hist = λ o. both (s.hist o) (other.hist o);
    done = (s.done + other.done) % 2 ^ 64;
    bytes = (s.bytes + other.bytes) % 2 ^ 64;
    seconds = t.plus s.seconds other.seconds;
    start_ = if ltb other.start_ s.start_ then other.start_ else s.start_;
    finish_ = if ltb s.finish_ other.finish_ then other.finish_ else s.finish_;
    message = kept s.message other.message;
  }

  -- The loop of `RunBenchmark` over its threads.
  unfoldable pub merge_all : Stats t → List (Stats t) → Stats t
  unfolding merge
  merge_all s [] = s
  merge_all s (x ∷ xs) = merge_all (merge s x) xs

module _ (t : Meter) (f : Flags) where
  -- What `Start` leaves, by the `start_` that it finds; it reads the clock twice.
  unfoldable pub started : ℤ → ℕ → ℕ → ℕ → Stats t
  started id before now later = record {
    id_ = id;
    start_ = now;
    sine_interval = later;
    finish_ = now;
    seconds = t.no_seconds;
    done = 0;
    last_report_done = 0;
    next_report = if f.stats_interval == 0 then 100 else f.stats_interval;
    bytes = 0;
    last_op_finish = before;
    last_report_finish = now;
    hist = λ o. none;
    message = [];
    exclude_from_merge = false;
  }

  -- `Stats()`, where `start_` is 0.
  unfoldable pub construct : ℕ → ℕ → Stats t
  unfolding started
  construct now later = started (negsuc 0) 0 now later

  -- `Start`
  unfoldable pub restart : ℤ → ℕ → ℕ → Stats t → Stats t
  unfolding started
  restart id now later s = started id s.start_ now later

  -- With it; a status is printed only when `--stats_interval_seconds` have gone by.
  unfoldable pub by_interval : ℕ → Stats t → Stats t
  by_interval now s =
      let since = (now + 2 ^ 64 - s.last_report_finish) % 2 ^ 64 in
      let next = (s.next_report + f.stats_interval) % 2 ^ 64 in
      if not (f.stats_interval_seconds == 0) && ltb since (f.stats_interval_seconds * 1000000)
      then record s { next_report = next }
      else record s { next_report = next; last_report_finish = now; last_report_done = s.done }

  -- Behind `done_ += num_ops`.
  unfoldable pub reported : ℕ → Stats t → Stats t
  unfolding by_interval next_after
  reported now s =
      if leb s.next_report s.done && f.progress_reports
      then (if f.stats_interval == 0
          then record s { next_report = next_after s.next_report % 2 ^ 64 }
          else by_interval now s)
      else s

  -- `FinishedOps`, without a reporter.
  unfoldable pub finished_ops : ℕ → OperationType → ℕ → ℕ → Stats t → Stats t
  unfolding note_latency reported
  finished_ops num_ops op now later s =
      let at = if f.histogram then note_latency t op now s else s in
      reported later (record at { done = (at.done + num_ops) % 2 ^ 64 })

  -- `merge_stats`, which is made when all threads are done.
  unfoldable pub merge_stats : ℕ → ℕ → List (Stats t) → Stats t
  unfolding construct merge_all
  merge_stats now later xs = merge_all t (construct now later) xs

-- The microseconds that `Report` divides by.
unfoldable pub elapsed : {t : Meter} → Stats t → ℕ
elapsed s = (s.finish_ + 2 ^ 64 - s.start_) % 2 ^ 64
