-- ===== src/Lib.antt =====
-- KVAccel: a key-value store that sends writes to an LSM tree inside an SSD (the Dev-LSM) while
-- RocksDB (the Main-LSM) stalls, and moves them back once the stall is over.
--
-- The parts, and the files that model them:
--
-- Base, Memory: bytes as numbers, lists, C integers, and memory as a function from offset to byte
--   (a read past a buffer answers what the function has there).
-- HashMap: kvaccel/util/hash_map.h. `HashMap` is `HashMap<uint64_t, V, size>`, a bucket
--   (`autovector`) is a list; `contains`, `insert`, `delete`, `pop`, `clear` and `get` are the
--   methods. Laws and Lookup say what they do to the number of entries of a key.
-- Rocks, DevLsm: the two stores as the master calls them. `MainLsm` is RocksDB, which is not in this
--   repository; `IsStore` is what is relied upon of it. `DevLsm` is the interface of `iLSM::DB`,
--   which Ilsm.Device implements.
-- Master: kvaccel/include/rocksdb/db_master.h and kvaccel/db/db_impl/db_impl_master.cc. `Master`
--   is the state of `DB_MASTER`. Write is `Put`, `Get` and `GetPin`; Rollback is
--   `Rollback_Consumer`; Monitor is `Monitor_Consumer`; Iterate is the merged iterator; Bloom is
--   the Bloom filter; Lifecycle is `Open` and `DestroyDB_Master`, and Reopen the one after the
--   other. The parts meet in the state: the monitor sets the level that `Put` reads, `Put` sets
--   the flag that `Get` and the rollback read, and all of them share the tracker. `view`
--   (Master.Coherence) is the map that the two stores and the tracker stand for; History has what
--   any sequence of steps leaves in the Main-LSM and in the tracker, and Quiet the steps that change
--   neither.
-- Ilsm: kvaccel/include/rocksdb/iLSM.h and kvaccel/db/db_impl/iLSM.cc. `Ilsm` is the state of
--   `iLSM::DB` and of the file-level arrays. Passthru is `nvme_passthru` and the statistics; Buffer
--   is `Put` with its buffer and flushes; Point is `Get`, `Seek`, `Next`, `CreateIter`,
--   `DestroyIter` and `Reset`; Bulk is `DoBulkyScan` and `DoBulkyNextScan`; Scan is `RangeScan`,
--   `SeekScan` and `NextScan`; Report is `Report`; Device is `Open`, the construction and the
--   interface.
-- Whole: the master over the device of Ilsm.Device, as the program is put together. Master.Steps is
--   the relation of its calls and of the rounds of the thread in any order.
-- Bench: integration/tools/db_bench_tool.cc, the benchmark that drives one `DB_MASTER`. Bench
--   itself is `GenerateKeyFromInt`; Duration is `Duration`, Values is `RandomGenerator`, Numbers
--   is `KeyGenerator`, Ranges is `GenerateTwoTermExpKeys`, Threads is `ThreadBody` and
--   `RunBenchmark`, Stats is `Stats`. The workloads are Fill (`DoWrite`), Reads (`ReadRandom`), Mixed
--   (`ReadRandomWriteRandom`), Seeks (`SeekRandom`), Graph (`MixGraph`), Background (`BGWriter`),
--   Verify (`RandomWithVerify`), Updates (`UpdateRandom`, `AppendRandom` and the like), Deletes
--   (`DoDelete`), Scans (`ReadSequential`, `ReadReverse`, `ReadToRowCache`, `BGScan`) and Many
--   (`PutMany`, `DeleteMany`, `GetMany`). Session runs one after the other. Calls says which calls
--   of `DB_MASTER` their rounds make, and Together is their rounds in any order, as in
--   `ReadWhileWriting`. Choice and Command are `Run`: what it makes of --benchmarks.
-- Toy, BenchCommand, BenchExamples, BenchRuns, BenchStats, BenchStore, BenchThreads, BenchUpdates,
--   Examples, MasterExamples, DeviceExamples, WholeExamples: small stand-ins, tests, and the theorems
--   at concrete inputs.
--
-- Choices:
--
-- - The variants are those that are compiled: ROLLBACK_CTRL, BUFFERING_MODE and THREAD_SAFE_ILSM on;
--   DEVICE_SERIALIZATION, STATELESS_ITERATOR and GET_FOR_SEEK_AND_NEXT_ILSM off.
-- - A call is one step. The locks make `Put` and the rollback exclude each other while the
--   Dev-LSM is in use; a lock is not modelled. The operating system, the device, the clock and
--   MurmurHash are parameters (`Host`, `Env`).
-- - The threads of a benchmark sleep on their condition variable until a `SignalAll`; that it may
--   also wake of its own accord is left out. What one does between taking the mutex and giving it up
--   is one step.
-- - Where `DB_MASTER` compares the key of RocksDB's iterator without a test whether it is valid, the
--   state notes it (`asked_invalid`), and the key is whatever the parameter has there.
-- - `unsigned`, `uint32_t`, `uint64_t` and `size_t` wrap as written out. Where C++ leaves the
--   behaviour undefined, the model notes a `Fault` and goes on as the comment there says. The byte
--   that a read of a key shorter than four bytes finds is 0. A division by a write buffer size of 0
--   is what the library's division answers.
-- - The benchmark's workloads are those with one database, one column family, no stacked
--   database, no timestamps and no rate limit, `SeekRandom` without bounds on its iterators and
--   `BGWriter` with `kWrite`, `MixGraph` without `--sine_mix_rate`; `db_.db` is another
--   database than that of `DB_MASTER`. The clock, the random numbers and what floating-point
--   code makes of them are arguments. Its `int64_t` numbers are natural numbers. `Run` answers the
--   list of what it carries out, without traces, read options and the settings of range deletions.
-- - Fuel: the loops of the workloads need more than their number of operations. `flush_chunks` has
--   one unit more than the pages in the buffer, and each round sends up to 128 of them;
--   `rollback_loop` answers nothing when its fuel ends. `parse_heads` makes at most MAX_CMD_NUM
--   rounds, as the source does.
-- - Not modelled: printing; the text of a row of `Report`;
--   `IteratorGet`, which copies a pointer; `totalL0`, `totalCE`, which return variables that nothing
--   sets;
--   kvaccel/db/compaction/clue_entry_set.cc, which is one comment; the other files under integration/
--   and the rest of db_bench_tool.cc (options, reports, and the workloads on other
--   databases), which are RocksDB's.
pub mod Base
pub mod HashMap
pub mod Rocks
pub mod DevLsm
pub mod Memory
pub mod Ilsm
pub mod Master
pub mod Toy
pub mod Examples
pub mod DeviceExamples
pub mod Whole
pub mod WholeExamples
pub mod MasterExamples
pub mod Bench
pub mod BenchCommand
pub mod BenchExamples
pub mod BenchRuns
pub mod BenchStats
pub mod BenchStore
pub mod BenchThreads
pub mod BenchUpdates
