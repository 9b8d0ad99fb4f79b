-- ===== src/Bench/Scans.antt =====
-- `ReadSequential`, `ReadReverse`, `ReadToRowCache` and `BGScan` of
-- integration/tools/db_bench_tool.cc, with one column family and without timestamps and rate limits.
pub mod Unread
use kvaccel.Base.{
  ℕ, zero, suc, ◌+◌, Option, some, none, [], Bool, true, false, if◌then◌else◌, length,
}
use kvaccel.Base.Bytes.{Bytes}
use kvaccel.Rocks.{Status, ok, not_found, not_supported, failed, is_ok, MainLsm}
use kvaccel.Master.{Env, State}
use kvaccel.Bench.{KeySpec, Outcome, going, exits, given, and_then, generate_key_from_int}
use kvaccel.Bench.Duration.{Duration, start, done}

module _ (m : MainLsm) where
  open m use {Iter, valid, key, value, next, prev, seek_to_first, seek_to_last, new_iterator}

  -- `for (...; i < reads_ && iter->Valid(); ...)`: how many entries are read, and their bytes.
  abbrev pub read_on : (Iter → Iter) → ℕ → Iter → ℕ × ℕ
  read_on step zero it = (0, 0)
  read_on step (suc reads) it =
      let (read, bytes) = read_on step reads (step it) in
      if valid it then (read + 1, length (key it) + length (value it) + bytes) else (0, 0)

  -- `ReadReverse` of a database.
  unfoldable pub read_reverse : ℕ → m.State → ℕ × ℕ
  read_reverse reads db = read_on prev reads (seek_to_last (new_iterator db))

  -- `ReadSequential` of a database.
  unfoldable pub read_forward : ℕ → m.State → ℕ × ℕ
  read_forward reads db = read_on next reads (seek_to_first (new_iterator db))

  pub record Scanner : Type 0 where
    pub iter : Iter
    pub num_seek_to_first : ℕ
    pub num_next : ℕ

  -- A round of `BGScan`, which aborts where the iterator's status is not OK.
  scan_round : (Iter → Bool) → Scanner → Outcome Scanner
  scan_round status_ok s =
      if valid s.iter
      then (if status_ok s.iter
          then going (record s { iter = next s.iter; num_next = s.num_next + 1 })
          else exits s)
      else going
          (record s { iter = seek_to_first s.iter; num_seek_to_first = s.num_seek_to_first + 1 })

  -- `while (!duration.Done(1))`, on fuel; `i` counts the readings of the clock.
  scan_loop : (Iter → Bool) → ℕ → (ℕ → ℕ) → ℕ → ℕ → Duration → Scanner → Option (Outcome Scanner)
  unfolding scan_round
  scan_loop status_ok granularity clock zero i d s = none
  scan_loop status_ok granularity clock (suc fuel) i d s =
      let (over, d') = done granularity 1 (clock i) d in
      let rest = elim (scan_round status_ok s) as (λ o. Option (Outcome Scanner)) [
        | going s' ↦ scan_loop status_ok granularity clock fuel (i + 1) d' s'
        | exits s' ↦ some (exits s')
        | Outcome.undefined ↦ some Outcome.undefined
      ] in
      if over then some (going s) else rest

  bg_scan : (Iter → Bool) → ℕ → ℕ → ℕ → (ℕ → ℕ) → ℕ → m.State → Option (Outcome Scanner)
  unfolding scan_loop
  bg_scan status_ok duration reads granularity clock fuel db =
      scan_loop status_ok granularity clock fuel 1 (start duration reads 0 (clock 0))
        (record { iter = new_iterator db; num_seek_to_first = 0; num_next = 0 })

  -- The local variables of `ReadToRowCache`; `read` is `key_rand` too.
  pub record CacheReader : Type 0 where
    pub read : ℕ
    pub found : ℕ
    pub bytes : ℕ

  abbrev is_absent : Status → Bool
  is_absent ok = false
  is_absent not_found = true
  is_absent not_supported = false
  is_absent (failed n) = false

  cache_key : m.State → Bytes → CacheReader → Outcome CacheReader
  cache_key db k s =
      let (status, found) = m.get db k in
      let s' = record s { read = s.read + 1 } in
      if is_ok status
      then going (record s' { found = s.found + 1; bytes = s.bytes + (length k + length found) })
      else if is_absent status
      then going s'
      else exits s'

  -- `while (key_rand < FLAGS_num)`, with so many rounds to go.
  cache_loop : KeySpec → ℕ → m.State → ℕ → CacheReader → Outcome CacheReader
  unfolding cache_key
  cache_loop spec num db zero s = going s
  cache_loop spec num db (suc n) s =
      and_then (given (generate_key_from_int spec s.read num) (λ k. cache_key db k s))
        (cache_loop spec num db n)

  read_to_row_cache : KeySpec → ℕ → m.State → Outcome CacheReader
  unfolding cache_loop
  read_to_row_cache spec num db =
      cache_loop spec num db num (record { read = 0; found = 0; bytes = 0 })

-- `ReadSequential` goes over the databases of `db_master`, of which there is one.
unfoldable pub read_sequential : (e : Env) → ℕ → State e → ℕ × ℕ
unfolding read_forward
read_sequential e reads s = read_forward e.main reads s.main
