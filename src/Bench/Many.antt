-- ===== src/Bench/Many.antt =====
-- `PutMany`, `DeleteMany` and `GetMany` of integration/tools/db_bench_tool.cc, without timestamps: one
-- value under three keys, as `randomwithverify` writes, deletes and checks it.
pub mod Verified
use kvaccel.Base.{
  ℕ, ◌≡◌, Bool, true, false, not, ◌&&◌, ◌||◌, Option, some, none, List, [], ◌∷◌, ◌++◌,
  if◌then◌else◌,
}
use kvaccel.Base.Bytes.{Bytes, bytes_eq}
use kvaccel.Rocks.{Status, ok, not_found, is_ok}

-- The RocksDB database of the benchmark (`db_.db`), as far as these functions use it: a batch of
-- Puts (with a value) and Deletes (without one), and reads from a snapshot.
pub record BatchDb : Type 1 where
  pub Db : Type 0
  pub Snapshot : Type 0
  pub write : Db → List (Bytes × Option Bytes) → Status × Db
  pub get_snapshot : Db → Snapshot × Db
  pub get : Db → Snapshot → Bytes → Status × Bytes
  pub release_snapshot : Db → Snapshot → Db

-- What the operations of a batch make of what a key reads as, in their order.
abbrev pub replayed : List (Bytes × Option Bytes) → Bytes → Status × Bytes → Status × Bytes
replayed [] k answer = answer
replayed ((j, none) ∷ ops) k answer =
    let here = if bytes_eq j k then (not_found, []) else answer in replayed ops k here
replayed ((j, some v) ∷ ops) k answer =
    let here = if bytes_eq j k then (ok, v) else answer in replayed ops k here

-- What RocksDB documents of the two: a batch that is acknowledged is applied as a whole and in
-- order, as a new snapshot shows; and where nothing is found, the value is not touched.
pub record IsBatchDb (b : BatchDb) : Type 0 where
  pub get-write :
      (d : b.Db) (ops : List (Bytes × Option Bytes)) (k : Bytes)
      → (b.write d ops).0 ≡ ok
      → let d' = (b.write d ops).1 in
        b.get (b.get_snapshot d').1 (b.get_snapshot d').0 k
        ≡ replayed ops k (b.get (b.get_snapshot d).1 (b.get_snapshot d).0 k)

-- `key.ToString() + suffixes[i]`
abbrev pub suffixed : Bytes → ℕ → Bytes
suffixed key c = key ++ c ∷ []

module _ (b : BatchDb) where
  open b use {Db, Snapshot, write, get_snapshot, get, release_snapshot}

  -- The suffixes are "2", "1", "0".
  unfoldable pub put_many : Db → Bytes → Bytes → Status × Db
  put_many d key value = write d (
      (suffixed key b'2', some value)
      ∷ (suffixed key b'1', some value)
      ∷ (suffixed key b'0', some value)
      ∷ [])

  -- The suffixes are "1", "2", "0".
  unfoldable pub delete_many : Db → Bytes → Status × Db
  delete_many d key =
      write d
        ((suffixed key b'1', none) ∷ (suffixed key b'2', none) ∷ (suffixed key b'0', none) ∷ [])

  abbrev is_not_found : Status → Bool
  is_not_found not_found = true
  is_not_found _ = false

  -- One round: the status, `*value` and `values[i]`.
  get_one : Db → Snapshot → Bytes → Bytes → Status × Bytes × Bytes
  get_one d snap key value =
      let (s, found) = get d snap key in
      if not (is_ok s) && not (is_not_found s)
      then (s, value, [])
      else if is_not_found s
      then (s, value, [])
      else (s, found, found)

  -- The status of the last read, `*value`, whether the three values are the same, and the database.
  unfoldable pub get_many : Db → Bytes → Bytes → Status × Bytes × Bool × Db
  unfolding get_one
  get_many d key value =
      let (snap, d') = get_snapshot d in
      let (s0, v0, x0) = get_one d' snap (suffixed key b'0') value in
      let (s1, v1, x1) = get_one d' snap (suffixed key b'1') v0 in
      let (s2, v2, x2) = get_one d' snap (suffixed key b'2') v1 in
      (s2, v2, not (not (bytes_eq x0 x1) || not (bytes_eq x1 x2)), release_snapshot d' snap)
