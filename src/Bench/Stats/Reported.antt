-- ===== src/Bench/Stats/Reported.antt =====
-- What `FinishedOps` of integration/tools/db_bench_tool.cc makes of a thread's `Stats`.
use kvaccel.Base.{
  ℕ, ◌+◌, ◌-◌, ◌%◌, ◌^◌, ◌<◌, ◌≤◌, ◌≡◌, refl, ◌∙◌, ap, inl, inr, Bool-cases, ==_refl, true, some,
  leb, if◌then◌else◌, arith,
}
use kvaccel.Base.Int.{ℤ}
use native.Mathlib.Nat.{mod-eq_of_lt}
use kvaccel.Bench.Stats.{
  Meter, Flags, Stats, OperationType, code, construct, restart, started, latencies, note_latency,
  reported, by_interval, next_after, finished_ops,
}

-- A step of at least a hundred operations.
next_after-above : (n : ℕ) → n + 100 ≤ next_after n
unfolding next_after
next_after-above n = ground arith

next_after-below : (n : ℕ) → next_after n ≤ n + 100000
unfolding next_after
next_after-below n = ground arith

module _ (t : Meter) (f : Flags) where
  hist-by_interval : (now : ℕ) (s : Stats t) → (by_interval t f now s).hist ≡ s.hist
  unfolding by_interval
  hist-by_interval now s = ground arith

  hist-reported : (now : ℕ) (s : Stats t) → (reported t f now s).hist ≡ s.hist
  unfolding reported
  hist-reported now s = ground arith

  hist-finished :
      (n : ℕ) (op : OperationType) (now later : ℕ) (s : Stats t)
      → (finished_ops t f n op now later s).hist
        ≡ (if f.histogram then note_latency t op now s else s).hist
  unfolding finished_ops
  hist-finished n op now later s = hist-reported later _

  -- With `--histogram`, the time that is counted for the first operation of a thread is that from
  -- when its `Stats` were made, not from its `Start`.
  pub hist-finished_ops :
      (made made' : ℕ) (id : ℤ) (now now' : ℕ) (n : ℕ) (op : OperationType) (later later' : ℕ)
      → f.histogram ≡ true
      → (finished_ops t f n op later later'
            (restart t f id now now' (construct t f made made'))).hist
          op
        ≡ some (t.add t.empty ((later + 2 ^ 64 - made) % 2 ^ 64))
  unfolding note_latency restart construct started latencies
  hist-finished_ops made made' id now now' n op later later' on =
      let s = restart t f id now now' (construct t f made made') in
      ap (λ h. h op) (hist-finished n op later later' s) ∙ rw (on, ==_refl (code op)) refl

  done-reported : (now : ℕ) (s : Stats t) → (reported t f now s).done ≡ s.done
  unfolding reported by_interval
  done-reported now s = ground arith

  next_report-reported :
      (now : ℕ) (s : Stats t)
      → f.stats_interval ≡ 0
      → f.progress_reports ≡ true
      → s.next_report + 100000 < 2 ^ 64
      → s.done < s.next_report + 100
      → s.done < (reported t f now s).next_report
  unfolding reported
  next_report-reported now s each on room near =
      let above = next_after-above s.next_report in
      let below = next_after-below s.next_report in
      let wrapped : next_after s.next_report % 2 ^ 64 ≡ next_after s.next_report =
        mod-eq_of_lt (omega arith) in
      elim (Bool-cases (leb s.next_report s.done)) [
        | inl over ↦ rw (over, on, each, wrapped) (omega arith)
        | inr ahead ↦ rw ahead (ground arith)
      ]

  counting-ahead :
      (n later : ℕ) (s : Stats t)
      → f.stats_interval ≡ 0
      → f.progress_reports ≡ true
      → n ≤ 100
      → s.next_report + 100000 < 2 ^ 64
      → s.done < s.next_report
      → let s' = reported t f later (record s { done = (s.done + n) % 2 ^ 64 }) in
        s'.done < s'.next_report
  counting-ahead n later s each on few room h =
      let small : (s.done + n) % 2 ^ 64 ≡ s.done + n = mod-eq_of_lt (omega arith) in
      rw (done-reported later (record s { done = (s.done + n) % 2 ^ 64 })) (
        next_report-reported later (record s { done = (s.done + n) % 2 ^ 64 }) each on room
          (rw small (omega arith)))

  -- Without `--stats_interval`, with messages, at most a hundred operations at once and room in the
  -- number: the number at which the next message comes stays above the number of operations done.
  pub next_report-finished_ops :
      (n : ℕ) (op : OperationType) (now later : ℕ) (s : Stats t)
      → f.stats_interval ≡ 0
      → f.progress_reports ≡ true
      → n ≤ 100
      → s.next_report + 100000 < 2 ^ 64
      → s.done < s.next_report
      → (finished_ops t f n op now later s).done < (finished_ops t f n op now later s).next_report
  unfolding finished_ops note_latency
  next_report-finished_ops n op now later s each on few room h = elim (Bool-cases f.histogram) [
    | inl timing ↦ rw timing (counting-ahead n later (note_latency t op now s) each on few room h)
    | inr plain ↦ rw plain (counting-ahead n later s each on few room h)
  ]
