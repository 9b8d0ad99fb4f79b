-- ===== src/Bench/Choice.antt =====
-- The choice of a benchmark by its name, and the numbers it runs with, in `Run` of
-- integration/tools/db_bench_tool.cc.
use kvaccel.Base.{
  ℕ, ◌+◌, ◌*◌, ◌/◌, Bool, true, false, not, ◌&&◌, ◌||◌, Option, some, none, List, [], ◌∷◌, ltb,
  ◌==◌, if◌then◌else◌,
}
use kvaccel.Base.Int.{ℤ, pos, negsuc}
use kvaccel.Base.Bytes.{Bytes, bytes_eq, codes}
use Prim.Native.String.{String}

-- The command-line flags that `Run` looks at; `num` is not negative.
pub record Flags : Type 0 where
  pub num : ℕ
  pub reads : ℤ
  pub writes : ℤ
  pub deletes : ℤ
  pub value_size : ℕ
  pub key_size : ℕ
  pub batch_size : ℕ
  pub sync : Bool
  pub threads : ℕ
  pub use_existing_db : Bool
  pub use_existing_keys : Bool
  pub row_cache_size : ℕ
  pub disable_auto_compactions : Bool
  pub has_merge_operator : Bool
  pub has_trace_file : Bool
  pub expires_by_filter : Bool

-- The members of `Benchmark` that a benchmark may find_name changed; `fresh_db` and `num_threads` are
-- local variables.
pub record Settings : Type 0 where
  pub num : ℕ
  pub reads : ℕ
  pub writes : ℕ
  pub deletes : ℕ
  pub value_size : ℕ
  pub key_size : ℕ
  pub entries_per_batch : ℕ
  pub sync : Bool
  pub num_threads : ℕ
  pub fresh_db : Bool

given_or : ℤ → ℕ → ℕ
given_or (pos n) num = n
given_or (negsuc n) num = num

unfoldable pub sanitize : Flags → Settings
unfolding given_or
sanitize f = record {
  num = f.num;
  reads = given_or f.reads f.num;
  writes = given_or f.writes f.num;
  deletes = given_or f.deletes f.num;
  value_size = f.value_size;
  key_size = f.key_size;
  entries_per_batch = f.batch_size;
  sync = f.sync;
  num_threads = f.threads;
  fresh_db = false;
}

-- The methods of `Benchmark` that become `method`.
pub data Method : Type 0 where
  write_seq_deterministic write_unique_random_deterministic write_seq write_random : Method
  write_unique_random random_replace_keys time_series : Method
  read_sequential read_to_row_cache read_reverse read_random read_random_fast : Method
  multi_read_random multi_read_while_writing approximate_size_random mix_graph : Method
  iterator_creation iterator_creation_while_writing seek_random seek_random_while_writing : Method
  seek_random_while_merging delete_seq delete_random read_while_writing : Method
  read_while_merging read_while_scanning read_random_write_random : Method
  read_random_merge_random update_random xor_update_random append_random merge_random : Method
  random_with_verify write_seq_seek_seq compact crc32c xx_hash xx_hash64 xxh3 : Method
  acquire_load compress uncompress random_transaction replay get_merge_operands : Method
  verify_checksum verify_file_checksums backup restore : Method

-- What is done at once.
pub data Action : Type 0 where
  compact_all compact_level_0 compact_level_1 wait_for_compaction flush print_stats : Action
  reset_stats verify_db_from_db print_stats_history : Action

-- `exits` is `ErrorExit` or `exit`.
pub data Chosen : Type 0 where
  runs : Method → Settings → Chosen
  does : Action → Chosen
  idle exits : Chosen

abbrev pub is_name : Bytes → String → Bool
is_name name word = bytes_eq name (codes word)

abbrev find_name : {A : Type 0} → Bytes → List (String × A) → Option A
find_name name [] = none
find_name name ((word, a) ∷ rest) =
    let later = find_name name rest in if is_name name word then some a else later

-- The names that only choose a method.
abbrev methods : List (String × Method)
methods =
    ("overwrite", write_random)
    ∷ ("readseq", read_sequential)
    ∷ ("readreverse", read_reverse)
    ∷ ("readrandom", read_random)
    ∷ ("readrandomfast", read_random_fast)
    ∷ ("multireadrandom", multi_read_random)
    ∷ ("approximatesizerandom", approximate_size_random)
    ∷ ("mixgraph", mix_graph)
    ∷ ("newiterator", iterator_creation)
    ∷ ("seekrandom", seek_random)
    ∷ ("deleteseq", delete_seq)
    ∷ ("deleterandom", delete_random)
    ∷ ("readrandomwriterandom", read_random_write_random)
    ∷ ("updaterandom", update_random)
    ∷ ("xorupdaterandom", xor_update_random)
    ∷ ("appendrandom", append_random)
    ∷ ("randomwithverify", random_with_verify)
    ∷ ("fillseekseq", write_seq_seek_seq)
    ∷ ("compact", compact)
    ∷ ("crc32c", crc32c)
    ∷ ("xxhash", xx_hash)
    ∷ ("xxhash64", xx_hash64)
    ∷ ("xxh3", xxh3)
    ∷ ("acquireload", acquire_load)
    ∷ ("compress", compress)
    ∷ ("uncompress", uncompress)
    ∷ ("randomtransaction", random_transaction)
    ∷ ("getmergeoperands", get_merge_operands)
    ∷ ("verifychecksum", verify_checksum)
    ∷ ("verifyfilechecksums", verify_file_checksums)
    ∷ ("readrandomoperands", read_random)
    ∷ ("backup", backup)
    ∷ ("restore", restore)
    ∷ []

-- The names whose benchmark has one thread more, which writes, merges or scans.
abbrev accompanied : List (String × Method)
accompanied =
    ("multireadwhilewriting", multi_read_while_writing)
    ∷ ("newiteratorwhilewriting", iterator_creation_while_writing)
    ∷ ("seekrandomwhilewriting", seek_random_while_writing)
    ∷ ("seekrandomwhilemerging", seek_random_while_merging)
    ∷ ("readwhilewriting", read_while_writing)
    ∷ ("readwhilemerging", read_while_merging)
    ∷ ("readwhilescanning", read_while_scanning)
    ∷ []

abbrev actions : List (String × Action)
actions =
    ("compactall", compact_all)
    ∷ ("compact0", compact_level_0)
    ∷ ("compact1", compact_level_1)
    ∷ ("waitforcompaction", wait_for_compaction)
    ∷ ("flush", flush)
    ∷ ("block_cache_entry_stats", print_stats)
    ∷ ("stats", print_stats)
    ∷ ("resetstats", reset_stats)
    ∷ ("verify", verify_db_from_db)
    ∷ ("levelstats", print_stats)
    ∷ ("memstats", print_stats)
    ∷ ("sstables", print_stats)
    ∷ ("stats_history", print_stats_history)
    ∷ []

abbrev when : Bool → Chosen → Chosen
when b c = if b then c else exits

abbrev or_else : {A : Type 0} → Option A → (A → Chosen) → Chosen → Chosen
or_else none f c = c
or_else (some a) f c = f a

module _ (f : Flags) where
  -- One thread at most.
  single : Settings → Settings
  single s = record s { num_threads = if ltb 1 s.num_threads then 1 else s.num_threads }

  -- The benchmarks that ask for a fresh database; `none` for other names. What `timeseries` leaves in
  -- the options is in `lasting_after` (Command).
  fill_benchmark : Settings → Bytes → Option Chosen
  unfolding single
  fill_benchmark s' name =
      let s = record s' { fresh_db = true } in
      if is_name name "fillseqdeterministic"
      then some (when f.disable_auto_compactions (runs write_seq_deterministic (single s)))
      else if is_name name "filluniquerandomdeterministic"
      then some
          (when f.disable_auto_compactions (runs write_unique_random_deterministic (single s)))
      else if is_name name "fillseq"
      then some (runs write_seq s)
      else if is_name name "fillbatch"
      then some (runs write_seq (record s { entries_per_batch = 1000 }))
      else if is_name name "fillrandom"
      then some (runs write_random s)
      else if is_name name "filluniquerandom" || is_name name "fillanddeleteuniquerandom"
      then some (runs write_unique_random (single s))
      else if is_name name "fillsync"
      then some (runs write_random (record s { num = s.num / 1000; sync = true }))
      else if is_name name "fill100K"
      then some (runs write_random (record s { num = s.num / 1000; value_size = 100 * 1000 }))
      else if is_name name "randomreplacekeys"
      then some (runs random_replace_keys s)
      else if is_name name "timeseries"
      then some (runs time_series s)
      else none

  -- The names that check a flag or change a number; `none` for other names.
  special_benchmark : Settings → Bytes → Option Chosen
  special_benchmark s name =
      if is_name name "readtorowcache"
      then some
          (when (f.use_existing_keys && not (f.row_cache_size == 0)) (runs read_to_row_cache s))
      else if is_name name "readtocache"
      then some (runs read_sequential (record s { num_threads = 1; reads = s.num }))
      else if is_name name "readmissing"
      then some (runs read_random (record s { key_size = s.key_size + 1 }))
      else if is_name name "readrandomsmall"
      then some (runs read_random (record s { reads = s.reads / 1000 }))
      else if is_name name "readrandommergerandom"
      then some (when f.has_merge_operator (runs read_random_merge_random s))
      else if is_name name "mergerandom"
      then some (when f.has_merge_operator (runs merge_random s))
      else if is_name name "replay"
      then some (when (not (ltb 1 s.num_threads) && f.has_trace_file) (runs replay s))
      else none

  -- The chain of `if`; an unknown name is an error, an empty one is not.
  unfoldable pub select_benchmark : Settings → Bytes → Chosen
  unfolding fill_benchmark special_benchmark
  select_benchmark s name =
      let more = record s { num_threads = s.num_threads + 1 } in
      or_else (fill_benchmark s name) (λ c. c)
        (or_else (special_benchmark s name) (λ c. c)
          (or_else (find_name name methods) (λ m. runs m s)
            (or_else (find_name name accompanied) (λ m. runs m more)
              (or_else (find_name name actions) does (if bytes_eq name [] then idle else exits)))))
