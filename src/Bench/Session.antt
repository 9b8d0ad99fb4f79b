-- ===== src/Bench/Session.antt =====
-- `--benchmarks=fillseq,readrandom` and `--benchmarks=fillseq,seekrandom` of
-- integration/tools/db_bench_tool.cc: the one workload after the other on the same `DB_MASTER`.
use kvaccel.Base.{ℕ, ◌*◌, ◌/◌, ◌≤◌, ◌<◌, ◌^◌, ◌≡◌, false, some}
use Prim.Native.Nat.{min}
use native.Mathlib.Nat.{le_trans}
use kvaccel.Rocks.{IsStore}
use kvaccel.Master.{Env, State}
use kvaccel.Master.Write.{is_high}
use kvaccel.Bench.{Tools, going}
use kvaccel.Bench.Values.{RandomGenerator}
use kvaccel.Bench.Fill
use kvaccel.Bench.Fill.{Inputs}
use kvaccel.Bench.Fill.Loop.{do_write, num_ops}
use kvaccel.Bench.Fill.Sequential.{Accepts}
use kvaccel.Bench.Fill.Sequential
use kvaccel.Bench.Fill.Sequential.Readback.{do_write-IsFilled}
use kvaccel.Bench.Reads
use kvaccel.Bench.Reads.{read_random}
use kvaccel.Bench.Reads.Found
use kvaccel.Bench.Reads.Found.{found-read_random}
use kvaccel.Bench.Seeks
use kvaccel.Bench.Seeks.{seek_random}
use kvaccel.Bench.Seeks.Found.{IsSeekable, found-seek_random}
use kvaccel.Bench.Seeks.Found as Sought

module _ (e : Env) (t : Tools) (f : Fill.Flags) (x : Inputs) (g : Reads.Flags) where
  -- `fillseq` and then `readrandom`, both plain and with the same size of keys, on a master that
  -- is calm, whose Dev-LSM is empty and whose Main-LSM is a store that takes every write: with
  -- fuel above the numbers of operations, if there are keys and the batches are not empty, the
  -- numbers fit into the keys, and whole batches cover all numbers below `--num` of the reads,
  -- both end without an error and every read finds its key.
  pub read_random-do_write :
      (fuel : ℕ) (master : State e) (rand rand' : t.Random) (gen : RandomGenerator) (clock : ℕ → ℕ)
      → IsStore e.main
      → Accepts e t f x
      → Sequential.IsPlain f
      → Found.IsPlain g
      → g.spec.key_size ≡ f.spec.key_size
      → 0 < f.num
      → 0 < f.entries_per_batch
      → num_ops f ≤ 2 ^ (8 * min f.spec.key_size 8)
      → g.num ≤ num_ops f / f.entries_per_batch * f.entries_per_batch
      → num_ops f < fuel
      → g.reads < fuel
      → master.kache_flag ≡ 0
      → is_high master.monitor_l0_status ≡ false
      → (s : Fill.Locals e t) × (r : Reads.Locals e t g) × (do_write e t f x fuel master rand gen
          ≡ some (going s))
        × (read_random e t g clock fuel s.master rand' ≡ some (going r))
        × (r.read ≡ g.reads)
        × (r.found ≡ g.reads)
  read_random-do_write fuel master rand rand' gen clock store accepts p q size some_keys batches
        room covered enough enough' unstalled calm =
      let (s, ran, i) =
        do_write-IsFilled e t f x store accepts p fuel master rand gen some_keys batches room enough
          unstalled calm in
      let (r, ran', read, found) =
        found-read_random e t g q clock fuel s.master rand' enough' i.unstalled
          (λ j less. rw size (i.stored j (le_trans less covered))) in
      (s, r, ran, ran', read, found)

module _ (e : Env) (t : Tools) (f : Fill.Flags) (x : Inputs) (g : Seeks.Flags) where
  -- `fillseq` and then `seekrandom`, both plain and with the same size of keys, on a master that
  -- is calm, whose Dev-LSM is empty and whose Main-LSM is a store that takes every write and whose
  -- new iterators find the keys that are there: with fuel above the numbers of operations, if
  -- there are keys and the batches are not empty, the numbers fit into the keys, and whole batches
  -- cover all numbers below `--num` of the seeks, both end without an error and every seek finds
  -- its key.
  pub seek_random-do_write :
      (fuel : ℕ) (master : State e) (rand rand' : t.Random) (gen : RandomGenerator) (clock : ℕ → ℕ)
      → IsStore e.main
      → IsSeekable e.main
      → Accepts e t f x
      → Sequential.IsPlain f
      → Sought.IsPlain g
      → g.spec.key_size ≡ f.spec.key_size
      → 0 < f.num
      → 0 < f.entries_per_batch
      → num_ops f ≤ 2 ^ (8 * min f.spec.key_size 8)
      → g.num ≤ num_ops f / f.entries_per_batch * f.entries_per_batch
      → num_ops f < fuel
      → g.reads < fuel
      → master.kache_flag ≡ 0
      → is_high master.monitor_l0_status ≡ false
      → (s : Fill.Locals e t) × (r : Seeks.Locals e t) × (do_write e t f x fuel master rand gen
          ≡ some (going s))
        × (seek_random e t g clock fuel s.master rand' ≡ some (going r))
        × (r.read ≡ g.reads)
        × (r.found ≡ g.reads)
  seek_random-do_write fuel master rand rand' gen clock store seekable accepts p q size some_keys
        batches room covered enough enough' unstalled calm =
      let (s, ran, i) =
        do_write-IsFilled e t f x store accepts p fuel master rand gen some_keys batches room enough
          unstalled calm in
      let (r, ran', read, found) =
        found-seek_random e t g seekable q clock fuel s.master rand' enough' i.unstalled
          (λ j less. rw size (i.stored j (le_trans less covered))) in
      (s, r, ran, ran', read, found)
