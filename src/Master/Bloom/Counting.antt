-- ===== src/Master/Bloom/Counting.antt =====
-- The counters of the Bloom filter in kvaccel/db/db_impl/db_impl_master.cc: what an addition and a
-- deletion change.
use kvaccel.Base.{ℕ, zero, suc, ◌+◌, ◌-◌, ◌≤◌, ◌<◌, ◌^◌, ◌≡◌, arith, bit, ◌==◌}
use kvaccel.Base.Bytes.{Bytes}
use kvaccel.Master.{Env, double_hash}
use kvaccel.Master.Bloom.{
  BloomFilter, add_from, delete_from, count_up, count_down, bloom_filter_add, bloom_filter_delete,
}

module _ (e : Env) where
  -- How many of the hashes of a key, from the i-th on, are an index.
  abbrev hits : ℕ → ℕ → Bytes → ℕ → ℕ
  hits zero i key j = 0
  hits (suc n) i key j = bit (double_hash e key i == j) + hits n (i + 1) key j

  hits-le : (n i : ℕ) (key : Bytes) (j : ℕ) → hits n i key j ≤ n
  hits-le zero i key j = omega arith
  hits-le (suc n) i key j = ground (arith, hits-le n (i + 1) key j)

  count_up-hit :
      (f : BloomFilter) (hash j : ℕ)
      → f.bit_array j + 1 < 2 ^ 64
      → (count_up hash f).bit_array j ≡ f.bit_array j + bit (hash == j)
  unfolding count_up
  count_up-hit f hash j small = ground arith

  count_down-hit :
      (f : BloomFilter) (hash j : ℕ)
      → (count_down hash f).bit_array j ≡ f.bit_array j - bit (hash == j)
  unfolding count_down
  count_down-hit f hash j = ground arith

  add_from-hits :
      (n i : ℕ) (f : BloomFilter) (key : Bytes) (j : ℕ)
      → f.bit_array j + n < 2 ^ 64
      → (add_from e n i f key).bit_array j ≡ f.bit_array j + hits n i key j
  unfolding add_from
  add_from-hits zero i f key j small = omega arith
  add_from-hits (suc n) i f key j small =
      let up = count_up-hit f (double_hash e key i) j (omega arith) in
      ground (arith, up, add_from-hits n (i + 1) (count_up (double_hash e key i) f) key j)

  delete_from-hits :
      (n i : ℕ) (f : BloomFilter) (key : Bytes) (j : ℕ)
      → (delete_from e n i f key).bit_array j ≡ f.bit_array j - hits n i key j
  unfolding delete_from
  delete_from-hits zero i f key j = omega arith
  delete_from-hits (suc n) i f key j =
      let down = count_down-hit f (double_hash e key i) j in
      ground (arith, down, delete_from-hits n (i + 1) (count_down (double_hash e key i) f) key j)

  -- Deleting a key right after it was added gives every counter that is at least 8 below its limit
  -- the number of before.
  pub bloom_filter_delete-add :
      (f : BloomFilter) (key : Bytes) (j : ℕ)
      → f.bit_array j + 8 < 2 ^ 64
      → (bloom_filter_delete e (bloom_filter_add e f key) key).bit_array j ≡ f.bit_array j
  unfolding bloom_filter_add bloom_filter_delete
  bloom_filter_delete-add f key j small =
      let added = add_from-hits 8 0 f key j small in
      let deleted = delete_from-hits 8 0 (add_from e 8 0 f key) key j in
      omega (arith, added, deleted)
