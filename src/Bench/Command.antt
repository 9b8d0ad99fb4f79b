-- ===== src/Bench/Command.antt =====
-- How `Run` of integration/tools/db_bench_tool.cc reads --benchmarks: a list of names with arguments
-- becomes a list of jobs.

pub mod Apart
use kvaccel.Base.{
  ℕ, zero, suc, ◌+◌, ◌-◌, ◌*◌, ◌^◌, Bool, true, false, ◌&&◌, ◌||◌, Option, some, none, List, [],
  ◌∷◌, ◌++◌, ◌==◌, leb, if◌then◌else◌, pop_back, push_back, back?, replicate,
}
use kvaccel.Base.Int.{ℤ, pos, negsuc, pos_part}
use kvaccel.Base.Bytes.{Bytes}
use kvaccel.Bench.Choice.{
  Flags, Settings, Method, Action, Chosen, runs, does, idle, exits, is_name, sanitize,
  select_benchmark,
}

-- `std::getline` until it fails: what stands behind the last separator is a part if it is not empty.
unfoldable pub getlines : ℕ → Bytes → Bytes → List Bytes
getlines sep [] [] = []
getlines sep [] (c ∷ cur) = (c ∷ cur) ∷ []
getlines sep (c ∷ s) cur =
    let rest = getlines sep s [] in
    let longer = getlines sep s (cur ++ c ∷ []) in if c == sep then cur ∷ rest else longer

-- `std::stoi`: blanks, a sign, and digits up to the first other character; `none` where it throws.
leading : Bytes → Option ℕ → Option ℕ
leading [] n = n
leading (c ∷ s) none =
    let more = leading s (some (c - 48)) in if leb 48 c && leb c 57 then more else none
leading (c ∷ s) (some n) =
    let more = leading s (some (n * 10 + (c - 48))) in if leb 48 c && leb c 57 then more else some n

as_positive : Option ℕ → Option ℤ
as_positive none = none
as_positive (some n) = if leb n (2 ^ 31 - 1) then some (pos n) else none

as_negative : Option ℕ → Option ℤ
as_negative none = none
as_negative (some zero) = some (pos 0)
as_negative (some (suc n)) = if leb n (2 ^ 31 - 1) then some (negsuc n) else none

stoi : Bytes → Option ℤ
unfolding leading as_positive as_negative
stoi [] = none
stoi (c ∷ s) =
    let later = stoi s in
    if c == 32 || (leb 9 c && leb c 13)
    then later
    else if c == b'-'
    then as_negative (leading s none)
    else if c == b'+'
    then as_positive (leading s none)
    else as_positive (leading (c ∷ s) none)

-- What stands before the first such character, and behind it.
abbrev behind_first : ℕ → Option (Bytes × Bytes) → Option (Bytes × Bytes)
behind_first x none = none
behind_first x (some (before, behind)) = some (x ∷ before, behind)

find_char : ℕ → Bytes → Option (Bytes × Bytes)
find_char c [] = none
find_char c (x ∷ s) =
    let later = behind_first x (find_char c s) in if x == c then some ([], s) else later

-- `num_repeat` and `num_warmup`.
pub record Counts : Type 0 where
  pub repeat : ℤ
  pub warmup : ℤ

-- One argument, as X3 or W2; anything else is passed over.
read_argument : Bytes → Counts → Option Counts
read_argument [] n = some n
read_argument (c ∷ digits) n =
    let read = stoi digits in
    if c == b'X'
    then elim read [ none ↦ none | some i ↦ some (record n { repeat = i }) ]
    else if c == b'W'
    then elim read [ none ↦ none | some i ↦ some (record n { warmup = i }) ]
    else some n

read_arguments : List Bytes → Counts → Option Counts
unfolding read_argument
read_arguments [] n = some n
read_arguments (a ∷ rest) n = elim (read_argument a n) [
  | none ↦ none
  | some n' ↦ read_arguments rest n'
]

abbrev once : Counts
once = record { repeat = pos 1; warmup = pos 0 }

is_close : Option ℕ → Bool
is_close none = false
is_close (some c) = c == b']'

-- The name without its arguments, and these; `none` where the program ends.
unfoldable pub parse_name : Bytes → Option (Bytes × Counts)
unfolding find_char read_arguments is_close getlines stoi
parse_name name =
    if is_close (back? name)
    then elim (find_char b'[' name) [
      | none ↦ none
      | some (base, behind) ↦ elim (read_arguments (getlines b'-' (pop_back behind) []) once) [
        | none ↦ none
        | some n ↦ some (base, n)
      ]
    ]
    else some (name, once)

-- What a benchmark leaves set for the later ones: `read_operands_`, from `readrandomoperands` on, and
-- `open_options_.compaction_filter`, from `timeseries` on with --expire_style=compaction_filter.
-- `timestamp_emulator_` is read by `timeseries` alone and by that filter.
pub record Lasting : Type 0 where
  pub read_operands : Bool
  pub compaction_filter : Bool

-- A database is opened with or without a compaction filter; a benchmark runs with its settings and
-- with `read_operands_`.
pub data Job : Type 0 where
  destroy_db : Job
  open_db : Bool → Job
  run_benchmark : Bytes → Method → Settings → Bool → Job
  perform : Action → Job
  verify_transactions : Job

pub record Jobs : Type 0 where
  pub jobs : List Job
  pub exited : Bool
  pub lasting : Lasting

is_transaction : Method → Bool
is_transaction Method.random_transaction = true
is_transaction m = false

-- With an existing database it is opened again, and the benchmark is skipped.
run_method : Flags → Bytes → Method → Settings → Lasting → Counts → List Job
unfolding is_transaction
run_method f name m s l n =
    let times =
      replicate (pos_part n.warmup + pos_part n.repeat) (run_benchmark name m s l.read_operands) in
    let after = if is_transaction m then verify_transactions ∷ [] else [] in
    if s.fresh_db
    then (if f.use_existing_db
        then open_db l.compaction_filter ∷ []
        else destroy_db ∷ open_db l.compaction_filter ∷ times ++ after)
    else times ++ after

chosen_jobs : Flags → Bytes → Lasting → Counts → Chosen → List Job
unfolding run_method
chosen_jobs f name l n (runs m s) = run_method f name m s l n
chosen_jobs f name l n (does a) = perform a ∷ []
chosen_jobs f name l n idle = []
chosen_jobs f name l n exits = []

is_exit : Chosen → Bool
is_exit exits = true
is_exit c = false

-- Names that leave something set.
abbrev pub asks_operands : Bytes → Bool
asks_operands base = is_name base "readrandomoperands"

abbrev pub sets_filter : Flags → Bytes → Bool
sets_filter f base = f.expires_by_filter && is_name base "timeseries"

abbrev pub lasting_after : Flags → Bytes → Lasting → Lasting
lasting_after f base l = record {
  read_operands = l.read_operands || asks_operands base;
  compaction_filter = l.compaction_filter || sets_filter f base;
}

-- The body of the loop.
pub parsed_benchmark : Flags → Lasting → Option (Bytes × Counts) → Jobs
unfolding sanitize select_benchmark chosen_jobs is_exit
parsed_benchmark f l none = record { jobs = []; exited = true; lasting = l }
parsed_benchmark f l (some (base, n)) =
    let l' = lasting_after f base l in
    let chosen = select_benchmark f (sanitize f) base in
    record { jobs = chosen_jobs f base l' n chosen; exited = is_exit chosen; lasting = l' }

unfoldable pub one_benchmark : Flags → Lasting → Bytes → Jobs
unfolding parse_name parsed_benchmark
one_benchmark f l name = parsed_benchmark f l (parse_name name)

unfoldable pub all_benchmarks : Flags → Lasting → List Bytes → Jobs
all_benchmarks f l [] = record { jobs = []; exited = false; lasting = l }
all_benchmarks f l (name ∷ names) =
    let one = one_benchmark f l name in
    let rest = all_benchmarks f one.lasting names in
    if one.exited then one else record rest { jobs = one.jobs ++ rest.jobs }

abbrev pub unset : Lasting
unset = record { read_operands = false; compaction_filter = false }

-- The jobs of a command line, behind the `Open` with which `Run` begins. `db_.db` is never null.
unfoldable pub run_benchmarks : Flags → Bytes → Jobs
unfolding getlines
run_benchmarks f benchmarks = all_benchmarks f unset (getlines b',' benchmarks [])
