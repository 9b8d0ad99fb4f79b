-- ===== src/Master/Bloom.antt =====
-- The counting Bloom filter of kvaccel/db/db_impl/db_impl_master.cc. (Its calls in `Open` and `Put`
-- are commented out.)
pub mod Counting
use kvaccel.Base.{
  ℕ, zero, suc, ◌+◌, ◌-◌, ◌%◌, ◌^◌, ◌≤◌, ◌<◌, ◌≡◌, Bool, true, false, List, ◌∷◌, arith, ltb, lt→ltb,
  ◌==◌, if◌then◌else◌,
}
use native.Mathlib.Nat.{le_trans}
use kvaccel.Base.Bytes.{Bytes}
use kvaccel.Master.{Env, double_hash}

abbrev pub bloom_filter_size : ℕ
bloom_filter_size = 200000000

abbrev pub hash_function : ℕ
hash_function = 8

-- The counters by index. An index past the array is noted, and its counter goes on being counted.
pub record BloomFilter : Type 0 where
  pub bit_array : ℕ → ℕ
  pub overruns : List ℕ

pub bloom_filter_init : BloomFilter → BloomFilter
bloom_filter_init f = record f { bit_array = λ i. 0 }

abbrev pub touch : ℕ → BloomFilter → BloomFilter
touch i f = record f { overruns = if ltb i bloom_filter_size then f.overruns else i ∷ f.overruns }

abbrev pub assign : (ℕ → ℕ) → ℕ → ℕ → ℕ → ℕ
assign a i v j = if i == j then v else a j

-- `filter->bit_array[hash]++` on a `size_t`
count_up : ℕ → BloomFilter → BloomFilter
count_up hash f =
    let f' = touch hash f in
    record f' { bit_array = assign f.bit_array hash ((f.bit_array hash + 1) % 2 ^ 64) }

count_down : ℕ → BloomFilter → BloomFilter
count_down hash f =
    let f' = touch hash f in
    if ltb 0 (f.bit_array hash)
    then record f' { bit_array = assign f.bit_array hash (f.bit_array hash - 1) }
    else f'

module _ (e : Env) where
  -- `for (int i = 0; i < HASH_FUNCTION; i++)`, by the rounds that are left
  add_from : ℕ → ℕ → BloomFilter → Bytes → BloomFilter
  add_from zero i f key = f
  add_from (suc n) i f key = add_from n (i + 1) (count_up (double_hash e key i) f) key

  pub bloom_filter_add : BloomFilter → Bytes → BloomFilter
  bloom_filter_add f key = add_from hash_function 0 f key

  -- It answers yes at the first counter that is not 0.
  check_from : ℕ → ℕ → BloomFilter → Bytes → Bool
  check_from zero i f key = false
  check_from (suc n) i f key =
      let rest = check_from n (i + 1) f key in
      if ltb 0 (f.bit_array (double_hash e key i)) then true else rest

  pub bloom_filter_check : BloomFilter → Bytes → Bool
  bloom_filter_check f key = check_from hash_function 0 f key

  delete_from : ℕ → ℕ → BloomFilter → Bytes → BloomFilter
  delete_from zero i f key = f
  delete_from (suc n) i f key = delete_from n (i + 1) (count_down (double_hash e key i) f) key

  pub bloom_filter_delete : BloomFilter → Bytes → BloomFilter
  bloom_filter_delete f key = delete_from hash_function 0 f key

  -- Counters only grow while a key is added, unless one wraps.
  add_from-le :
      (n i bound : ℕ) (f : BloomFilter) (key : Bytes) (j : ℕ)
      → ((k : ℕ) → f.bit_array k < bound)
      → bound + n < 2 ^ 64
      → f.bit_array j ≤ (add_from n i f key).bit_array j
  unfolding add_from count_up
  add_from-le zero i bound f key j small h = omega arith
  add_from-le (suc n) i bound f key j small h =
      let g = count_up (double_hash e key i) f in
      let small' : (k : ℕ) → g.bit_array k < suc bound =
        λ k. ground (arith, small k, small (double_hash e key i)) in
      ground (
        arith,
        small j,
        small (double_hash e key i),
        add_from-le n (i + 1) (suc bound) g key j small' (omega arith),
      )

  first_counted :
      (bound : ℕ) (f : BloomFilter) (key : Bytes)
      → ((k : ℕ) → f.bit_array k < bound)
      → bound + 8 < 2 ^ 64
      → 0 < (add_from 8 0 f key).bit_array (double_hash e key 0)
  unfolding add_from count_up
  first_counted bound f key small h =
      let g = count_up (double_hash e key 0) f in
      let small' : (k : ℕ) → g.bit_array k < suc bound =
        λ k. ground (arith, small k, small (double_hash e key 0)) in
      let grown : g.bit_array (double_hash e key 0)
          ≤ (add_from 7 1 g key).bit_array (double_hash e key 0) =
        add_from-le 7 1 (suc bound) g key (double_hash e key 0) small' (omega arith) in
      let here : 0 < g.bit_array (double_hash e key 0) =
        ground (arith, small (double_hash e key 0)) in
      le_trans here grown

  check_from-first :
      (n i : ℕ) (f : BloomFilter) (key : Bytes)
      → 0 < f.bit_array (double_hash e key i)
      → check_from (suc n) i f key ≡ true
  unfolding check_from
  check_from-first n i f key h = rw (lt→ltb 0 (f.bit_array (double_hash e key i)) h)

  -- A key that was added to the filter is found, if every counter was below a bound that is at
  -- least 8 below 2^64.
  pub bloom_filter_check-add :
      (bound : ℕ) (f : BloomFilter) (key : Bytes)
      → ((k : ℕ) → f.bit_array k < bound)
      → bound + 8 < 2 ^ 64
      → bloom_filter_check (bloom_filter_add f key) key ≡ true
  unfolding bloom_filter_check bloom_filter_add
  bloom_filter_check-add bound f key small h =
      check_from-first 7 0 (add_from 8 0 f key) key (first_counted bound f key small h)
