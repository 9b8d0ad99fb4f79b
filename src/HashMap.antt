-- ===== src/HashMap.antt =====
-- kvaccel/util/hash_map.h: `HashMap<K, V, size>`, the host's table of the keys that wait in the
-- device (`keyTracker`). The key type is `uint64_t`, the only one that the program uses. A bucket
-- (`autovector`) is a list, whose end is the end of the vector.
pub mod Bucket
pub mod Laws
pub mod Lookup
pub mod Popping
use kvaccel.Base.{
  ℕ, ◌+◌, ◌-◌, ◌%◌, ◌^◌, Bool, true, false, Option, none, some, List, [], ◌∷◌, get_or, get_elem?,
  set, push_back, replicate, length, map, suc, zero,
}
use Bucket.{find_if, swap_out}
use mathlib.Core.Option

pub record HashMap (V : Type 0) : Type 0 where
  pub table : List (List (ℕ × V))
  pub count : ℕ

-- `std::atomic<int>`: its bit pattern, with the wrap of `++` and `--`.
abbrev pub increment : ℕ → ℕ
increment c = (c + 1) % 2 ^ 32

abbrev pub decrement : ℕ → ℕ
decrement c = (c + 2 ^ 32 - 1) % 2 ^ 32

-- A table as it is constructed: `size` empty buckets.
unfoldable pub create : (V : Type 0) → ℕ → HashMap V
create V size = record { table = replicate size []; count = 0 }

unfoldable pub is_found : Option ℕ → Bool
is_found none = false
is_found (some i) = true

module _ {V : Type 0} where
  -- The index of the first bucket that is not empty; `none` where the loop runs off the table.
  pub first_used : List (List (ℕ × V)) → Option ℕ
  first_used [] = none
  first_used ([] ∷ bs) = Option.map suc (first_used bs)
  first_used ((e ∷ b) ∷ bs) = some zero

  pub clear : HashMap V → HashMap V
  clear m = record { table = map (λ b. []) m.table; count = 0 }

  -- `none` on an empty table: there the code goes on to use `table_[size]`.
  pub pop : HashMap V → Option (V × HashMap V)
  pop m = elim (first_used m.table) [
    | none ↦ none
    | some i ↦ elim (get_or m.table i []) [
      | [] ↦ none
      | e ∷ b ↦
          some
            (e.1, record { table = set m.table i (swap_out 0 (e ∷ b)); count = decrement m.count })
    ]
  ]

module _ {V : Type 0} (size : ℕ) where
  -- `table_[key % size]`
  abbrev pub bucket : HashMap V → ℕ → List (ℕ × V)
  bucket m key = get_or m.table (key % size) []

  unfoldable pub contains : HashMap V → ℕ → Bool
  unfolding is_found
  contains m key = is_found (find_if key (bucket m key))

  unfoldable pub insert : HashMap V → ℕ → V → HashMap V
  insert m key value = record {
    table = set m.table (key % size) (push_back (bucket m key) (key, value));
    count = increment m.count;
  }

  unfoldable pub delete : HashMap V → ℕ → HashMap V
  delete m key = elim (find_if key (bucket m key)) [
    | none ↦ m
    | some i ↦ record {
      table = set m.table (key % size) (swap_out i (bucket m key));
      count = decrement m.count;
    }
  ]

  -- `none` on a key that is not there: the code then dereferences the end of the bucket.
  unfoldable pub get : HashMap V → ℕ → Option V
  get m key = elim (find_if key (bucket m key)) [
    | none ↦ none
    | some i ↦ Option.map (λ e. e.1) (get_elem? (bucket m key) i)
  ]
