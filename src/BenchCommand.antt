-- ===== src/BenchCommand.antt =====
-- Command lines of integration/tools/db_bench_tool.cc and what `Run` makes of them.
use kvaccel.Base.{◌≡◌, refl, true, false, [], ◌∷◌}
use kvaccel.Base.Int.{negsuc}
use kvaccel.Base.Bytes.{codes, bytes_eq}
use kvaccel.Bench.Choice.{Flags, Method, sanitize, select_benchmark}
use kvaccel.Bench.Command.{
  run_benchmark, destroy_db, open_db, getlines, parse_name, one_benchmark, all_benchmarks,
  run_benchmarks,
}

abbrev defaults : Flags
defaults = record {
  num = 5000;
  reads = negsuc 0;
  writes = negsuc 0;
  deletes = negsuc 0;
  value_size = 100;
  key_size = 16;
  batch_size = 1;
  sync = false;
  threads = 1;
  use_existing_db = false;
  use_existing_keys = false;
  row_cache_size = 0;
  disable_auto_compactions = false;
  has_merge_operator = false;
  has_trace_file = false;
  expires_by_filter = false;
}

run_example :
    run_benchmarks defaults (codes "readrandomsmall[X2-W1],,fillsync,nosuch,stats") ≡ record {
      jobs =
          (let plain = record (sanitize defaults) { reads = 5 } in
            let synced = record (sanitize defaults) { num = 5; sync = true; fresh_db = true } in
            let small = run_benchmark (codes "readrandomsmall") Method.read_random plain false in
            small
            ∷ small
            ∷ small
            ∷ destroy_db
            ∷ open_db false
            ∷ run_benchmark (codes "fillsync") Method.write_random synced false
            ∷ []);
      exited = true;
      lasting = record { read_operands = false; compaction_filter = false };
    }
unfolding run_benchmarks getlines all_benchmarks one_benchmark parse_name select_benchmark sanitize
    bytes_eq
run_example = refl

-- `readrandom` behind `readrandomoperands` reads merge operands.
operands_kept :
    (run_benchmarks defaults (codes "readrandomoperands,readrandom")).jobs
    ≡ run_benchmark (codes "readrandomoperands") Method.read_random (sanitize defaults) true
      ∷ run_benchmark (codes "readrandom") Method.read_random (sanitize defaults) true
      ∷ []
unfolding run_benchmarks getlines all_benchmarks one_benchmark parse_name select_benchmark sanitize
    bytes_eq
operands_kept = refl
