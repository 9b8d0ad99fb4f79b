-- ===== src/Bench.antt =====
-- integration/tools/db_bench_tool.cc: the benchmark that opens one `DB_MASTER` and drives it. Here
-- are the flags that its workloads read and the keys that they generate.
pub mod Keys
pub mod Prefixes
pub mod Duration
pub mod Threads
pub mod Values
pub mod Mixed
pub mod Numbers
pub mod Fill
pub mod Reads
pub mod Session
pub mod Many
pub mod Verify
pub mod Updates
pub mod Deletes
pub mod Scans
pub mod Ranges
pub mod Background
pub mod Seeks
pub mod Graph
pub mod Calls
pub mod Choice
pub mod Command
pub mod Together
pub mod Stats
use kvaccel.Base.{
  ℕ, zero, suc, ◌+◌, ◌-◌, ◌*◌, ◌/◌, ◌%◌, ◌^◌, Bool, Option, none, some, List, [], ◌∷◌, ◌++◌,
  get_elem?, set, replicate, ltb, ◌==◌, ◌||◌, if◌then◌else◌,
}
use Prim.Native.Nat.{min}
use kvaccel.Base.Bytes.{Bytes}
use mathlib.Core.Option

-- `key_size_`, `prefix_size_`, `keys_per_prefix_` and `keys_`, which is filled from a database
-- where `--use_existing_keys` asks for it.
pub record KeySpec : Type 0 where
  pub key_size : ℕ
  pub prefix_size : ℕ
  pub keys_per_prefix : ℕ
  pub keys : List Bytes

-- `pos[i] = (v >> ((n - i - 1) << 3)) & 0xFF` for each i below n
unfoldable pub big_endian : ℕ → ℕ → Bytes
big_endian zero v = []
big_endian (suc n) v = v / 2 ^ (8 * n) % 256 ∷ big_endian n v

-- At most eight bytes of a number, then '0' up to the width.
unfoldable pub fill_field : ℕ → ℕ → Bytes
unfolding big_endian
fill_field width v = big_endian (min width 8) v ++ replicate (width - 8) b'0'

-- `none` where C++ leaves it open what happens: a remainder by 0, a prefix that is longer than the
-- key (which the constructor of `Benchmark` excludes), an index past the keys.
unfoldable pub generate_key_from_int : KeySpec → ℕ → ℕ → Option Bytes
unfolding fill_field
generate_key_from_int spec v num_keys =
    let num_prefix = num_keys / spec.keys_per_prefix in
    let prefixed =
      if num_prefix == 0 || ltb spec.key_size spec.prefix_size
      then none
      else some (
          fill_field spec.prefix_size (v % num_prefix)
          ++ fill_field (spec.key_size - spec.prefix_size) v) in
    elim spec.keys [
      | [] ↦ if ltb 0 spec.keys_per_prefix then prefixed else some (fill_field spec.key_size v)
      | k ∷ ks ↦ get_elem? (k ∷ ks) v
    ]

-- A '1' behind the eight bytes of the prefix, which no generated key has there.
unfoldable pub generate_key_for_seek : KeySpec → Bool → ℕ → ℕ → Option Bytes
unfolding generate_key_from_int
generate_key_for_seek spec seek_missing_prefix v num_keys =
    let made = generate_key_from_int spec v num_keys in
    if seek_missing_prefix then Option.map (λ key. set key 8 b'1') made else made

-- How one round of a workload ends: the process goes on, it exits (`ErrorExit`, `abort`), or it has
-- done what C++ leaves open.
pub data Outcome (A : Type 0) : Type 0 where
  going exits : A → Outcome A
  undefined : Outcome A

-- `GenerateKeyFromInt(number % num, num, &key)`
unfoldable pub random_key : KeySpec → ℕ → ℕ → Option Bytes
unfolding generate_key_from_int
random_key spec num number =
    if num == 0 then none else generate_key_from_int spec (number % num) num

-- What is done with a key or a number, where there is one.
abbrev pub given : {A B : Type 0} → Option B → (B → Outcome A) → Outcome A
given none use_it = undefined
given (some b) use_it = use_it b

-- One piece of code and then the next, which an exit skips.
abbrev pub and_then : {A : Type 0} → Outcome A → (A → Outcome A) → Outcome A
and_then (going s) after = after s
and_then (exits s) after = exits s
and_then undefined after = undefined

-- A round of a loop on fuel and then the rest of the loop.
abbrev pub loop_on : {A : Type 0} → Outcome A → (A → Option (Outcome A)) → Option (Outcome A)
loop_on (going s) rest = rest s
loop_on (exits s) rest = some (exits s)
loop_on undefined rest = some undefined

-- A property of the state that a round leaves, if it leaves one.
abbrev pub Leaves : {A : Type 0} → (A → Type 0) → Outcome A → Type 0
Leaves P (going s) = P s
Leaves P (exits s) = P s
Leaves P undefined = Unit {0}

-- `Random64`, which is RocksDB's, and the standard library's draws of a size by their number.
pub record Tools : Type 1 where
  pub Random : Type 0
  pub next : Random → ℕ × Random
  pub drawn : ℕ → ℕ

pub Leaves-given :
    {A B : Type 0} (P : A → Type 0) (made : Option B) (use_it : B → Outcome A)
    → ((b : B) → Leaves P (use_it b))
    → Leaves P (given made use_it)
Leaves-given P none use_it kept = tt
Leaves-given P (some b) use_it kept = kept b
