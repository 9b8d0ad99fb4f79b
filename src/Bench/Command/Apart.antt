-- ===== src/Bench/Command/Apart.antt =====
-- The benchmarks of a command line, which `Run` of integration/tools/db_bench_tool.cc carries out one
-- after the other, do not change one another's settings.
use kvaccel.Base.{Bool, false, ◌||◌, List, [], ◌∷◌, Option, some, none}
use kvaccel.Base.Bytes.{Bytes}
use kvaccel.Bench.Choice.{Flags}
use kvaccel.Bench.Command.{parse_name, asks_operands, sets_filter, Counts}

-- One of the names leaves something set: `readrandomoperands`, or with the compaction filter as
-- --expire_style `timeseries`.
abbrev asks : Flags → Option (Bytes × Counts) → Bool
asks f none = false
asks f (some (base, n)) = asks_operands base || sets_filter f base

unfoldable pub some_asks : Flags → List Bytes → Bool
some_asks f [] = false
some_asks f (name ∷ names) = asks f (parse_name name) || some_asks f names
