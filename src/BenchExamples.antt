-- ===== src/BenchExamples.antt =====
-- The theorems on the benchmark's keys, threads and workloads, applied to small inputs.
use kvaccel.Base.{ℕ, ◌+◌, ◌≡◌, refl, true, [], ◌∷◌, arith, length}
use kvaccel.Base.Bytes.{Bytes, load32}
use kvaccel.HashMap.{insert, contains, create}
use kvaccel.HashMap.Bucket.{find_if}
use kvaccel.Master.{State, double_hash, tracker_size, track}
use kvaccel.Master.Iterate.{bytes_lt}
use kvaccel.Master.Coherence.{view}
use kvaccel.WholeExamples.{joined, joined_start}
use kvaccel.Toy.{toy, main, quiet}
use kvaccel.Bench.{KeySpec, Tools, generate_key_from_int}
use kvaccel.Bench.Keys.{bytes_lt-generate_key_from_int, length-generate_key_from_int}
use kvaccel.Bench.Prefixes.{view-generate_key_from_int}
use kvaccel.Bench.Values.{RandomGenerator, IsReady}

-- The keys of the workload script, of four bytes.
abbrev four_bytes : KeySpec
four_bytes = record { key_size = 4; prefix_size = 0; keys_per_prefix = 0; keys = [] }

bytes_lt-generate_key_from_int_example : bytes_lt (0 ∷ 0 ∷ 1 ∷ 2 ∷ []) (0 ∷ 0 ∷ 2 ∷ 1 ∷ []) ≡ true
unfolding generate_key_from_int
bytes_lt-generate_key_from_int_example =
    bytes_lt-generate_key_from_int four_bytes 258 513 1000 _ _ refl refl (omega arith) (omega arith)
      refl refl

-- Keys of ten bytes with a prefix of nine.
abbrev prefixed : KeySpec
prefixed = record { key_size = 10; prefix_size = 9; keys_per_prefix = 2; keys = [] }

abbrev key_three : Bytes
key_three = 0 ∷ 0 ∷ 0 ∷ 0 ∷ 0 ∷ 0 ∷ 0 ∷ 1 ∷ 48 ∷ 3 ∷ []

abbrev missing_three : Bytes
missing_three = 0 ∷ 0 ∷ 0 ∷ 0 ∷ 0 ∷ 0 ∷ 0 ∷ 1 ∷ 49 ∷ 3 ∷ []

length-generate_key_from_int_example : length key_three ≡ 10
unfolding generate_key_from_int
length-generate_key_from_int_example = length-generate_key_from_int prefixed 3 4 _ refl refl

-- The keys of 16 bytes that are the default.
abbrev sixteen_bytes : KeySpec
sixteen_bytes = record { key_size = 16; prefix_size = 0; keys_per_prefix = 0; keys = [] }

abbrev padded : ℕ → Bytes
padded n = 0 ∷ 0 ∷ 0 ∷ 0 ∷ 0 ∷ 0 ∷ 0 ∷ n ∷ 48 ∷ 48 ∷ 48 ∷ 48 ∷ 48 ∷ 48 ∷ 48 ∷ 48 ∷ []

abbrev tracking_five : State joined
tracking_five = record joined_start {
  key_tracker =
      insert tracker_size (create Bytes tracker_size) (track joined (padded 5)) (padded 5);
}

view-generate_key_from_int_example :
    view joined tracking_five (padded 5) [] ≡ view joined tracking_five (padded 9) []
unfolding generate_key_from_int insert create double_hash load32 contains find_if
view-generate_key_from_int_example =
    view-generate_key_from_int main toy.murmur quiet sixteen_bytes 5 9 1000 _ _ [] tracking_five
      refl refl (omega arith) (omega arith) (omega arith) refl refl refl

abbrev four_values : RandomGenerator
four_values = record { data_ = 1 ∷ 2 ∷ 3 ∷ 4 ∷ []; pos_ = 3 }

four_values-IsReady : IsReady four_values
four_values-IsReady = record { small = omega arith; inside = omega arith }

-- A generator that counts.
abbrev pub counting : Tools
counting = record { Random = ℕ; next = λ r. (r, r + 1); drawn = λ i. 2 }
