-- ===== src/Bench/Scans/Unread.antt =====
-- What `ReadSequential` of integration/tools/db_bench_tool.cc reads, and what it does not.
use kvaccel.Base.{
  ℕ, zero, suc, ◌+◌, ◌≡◌, refl, ◌∙◌, List, [], ◌∷◌, true, false, take, length, arith,
}
use Prim.Native.Nat.{min}
use kvaccel.Base.Bytes.{Bytes}
use kvaccel.Rocks.{MainLsm}
use kvaccel.Master.{Env, State}
use kvaccel.Master.Write.{put, is_high}
use kvaccel.Master.Coherence.{put-stalled}
use kvaccel.Bench.Scans.{read_on, read_sequential}

-- An iterator stands in front of these entries, and then is not valid.
pub data Entries (m : MainLsm) : m.Iter → List (Bytes × Bytes) → Type 0 where
  over : {it : m.Iter} → m.valid it ≡ false → Entries m it []
  entry :
      {it : m.Iter} {es : List (Bytes × Bytes)}
      → m.valid it ≡ true
      → Entries m (m.next it) es
      → Entries m it ((m.key it, m.value it) ∷ es)

abbrev pub total : List (Bytes × Bytes) → ℕ
total [] = 0
total ((k, v) ∷ es) = length k + length v + total es

read_on-Entries :
    (m : MainLsm) (reads : ℕ) {it : m.Iter} {es : List (Bytes × Bytes)}
    → Entries m it es
    → read_on m m.next reads it ≡ (min reads (length es), total (take reads es))
read_on-Entries m zero entries = ground arith
read_on-Entries m (suc reads) (over past) = rw past (ground arith)
read_on-Entries m (suc reads) (entry {it = it} {es = es} there rest) =
    rw (there, read_on-Entries m reads rest) (ground arith)

module _ (e : Env) where
  -- Writes one after the other.
  abbrev pub put_all : List (Bytes × Bytes) → State e → State e
  put_all [] s = s
  put_all ((k, v) ∷ ws) s = put_all ws (put e s k v).1

  main-put_all :
      (ws : List (Bytes × Bytes)) (s : State e)
      → is_high s.monitor_l0_status ≡ true
      → (put_all ws s).main ≡ s.main
  main-put_all [] s high = refl
  main-put_all ((k, v) ∷ ws) s high =
      main-put_all ws (put e s k v).1 (rw (put-stalled e s k v high) high)
      ∙ rw (put-stalled e s k v high) refl

  -- After any writes in a stall, `readseq` reads the first so many entries that the Main-LSM had
  -- before them, or all if there are fewer, and none of what was written.
  pub read_sequential-stalled :
      (ws : List (Bytes × Bytes)) (s : State e) (reads : ℕ) (es : List (Bytes × Bytes))
      → is_high s.monitor_l0_status ≡ true
      → Entries e.main (e.main.seek_to_first (e.main.new_iterator s.main)) es
      → read_sequential e reads (put_all ws s) ≡ (min reads (length es), total (take reads es))
  unfolding read_sequential
  read_sequential-stalled ws s reads es high entries =
      rw (main-put_all ws s high) (read_on-Entries e.main reads entries)
