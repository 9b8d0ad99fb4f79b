-- ===== src/Bench/Many/Verified.antt =====
-- `GetMany` of integration/tools/db_bench_tool.cc after `PutMany` and `DeleteMany`.
use kvaccel.Base.{List, Option, ◌≤◌, ◌∙◌, ◌≡◌, refl, ℕ, ◌==◌, true, some, none, [], ◌∷◌, arith}
use kvaccel.Base.Bytes.{Bytes, bytes_eq, bytes_eq_refl}
use kvaccel.Rocks.{Status, ok, not_found}
use kvaccel.Bench.Many.{
  BatchDb, IsBatchDb, replayed, suffixed, put_many, delete_many, get_many, get_one,
}

bytes_eq-suffixed : (key : Bytes) (c d : ℕ) → bytes_eq (suffixed key c) (suffixed key d) ≡ (c == d)
unfolding bytes_eq
bytes_eq-suffixed [] c d = ground arith
bytes_eq-suffixed (x ∷ key) c d = ground (arith, bytes_eq-suffixed key c d)

-- The operations of the two batches, in their order.
abbrev puts : Bytes → Bytes → List (Bytes × Option Bytes)
puts key value =
    (suffixed key b'2', some value)
    ∷ (suffixed key b'1', some value)
    ∷ (suffixed key b'0', some value)
    ∷ []

abbrev deletes : Bytes → List (Bytes × Option Bytes)
deletes key = (suffixed key b'1', none) ∷ (suffixed key b'2', none) ∷ (suffixed key b'0', none) ∷ []

replayed-puts :
    (key value : Bytes) (c : ℕ) (answer : Status × Bytes)
    → b'0' ≤ c
    → c ≤ b'2'
    → replayed (puts key value) (suffixed key c) answer ≡ (ok, value)
replayed-puts key value c answer least most = ground (
  arith,
  bytes_eq-suffixed key b'0' c,
  bytes_eq-suffixed key b'1' c,
  bytes_eq-suffixed key b'2' c,
)

replayed-deletes :
    (key : Bytes) (c : ℕ) (answer : Status × Bytes)
    → b'0' ≤ c
    → c ≤ b'2'
    → replayed (deletes key) (suffixed key c) answer ≡ (not_found, [])
replayed-deletes key c answer least most = ground (
  arith,
  bytes_eq-suffixed key b'0' c,
  bytes_eq-suffixed key b'1' c,
  bytes_eq-suffixed key b'2' c,
)

module _ (b : BatchDb) where
  get_one-ok :
      (d : b.Db) (snap : b.Snapshot) (key value v : Bytes)
      → b.get d snap key ≡ (ok, v)
      → get_one b d snap key value ≡ (ok, v, v)
  unfolding get_one
  get_one-ok d snap key value v there = rw there refl

  get_one-not_found :
      (d : b.Db) (snap : b.Snapshot) (key value v : Bytes)
      → b.get d snap key ≡ (not_found, v)
      → get_one b d snap key value ≡ (not_found, value, [])
  unfolding get_one
  get_one-not_found d snap key value v there = rw there refl

  -- Over a database as RocksDB documents it, after a `PutMany` that is acknowledged `GetMany`
  -- answers OK and the value, and finds the three entries to be the same.
  pub get_many-put_many :
      (d : b.Db) (key value before : Bytes)
      → IsBatchDb b
      → (put_many b d key value).0 ≡ ok
      → let r = get_many b (put_many b d key value).1 key before in
        (r.0 ≡ ok) × (r.1 ≡ value) × (r.2 ≡ true)
  unfolding put_many get_many
  get_many-put_many d key value before law done =
      let d' = (b.write d (puts key value)).1 in
      let s = (b.get_snapshot d').1 in
      let snap = (b.get_snapshot d').0 in
      let there : (c : ℕ) → b'0' ≤ c → c ≤ b'2' → b.get s snap (suffixed key c) ≡ (ok, value) =
        λ c least most.
          law.get-write d (puts key value) (suffixed key c) done
          ∙ replayed-puts key value c _ least most in
      rw
        (
          get_one-ok s snap (suffixed key b'0') before value
              (there b'0' (omega arith) (omega arith)),
          get_one-ok s snap (suffixed key b'1') value value
              (there b'1' (omega arith) (omega arith)),
          get_one-ok s snap (suffixed key b'2') value value
              (there b'2' (omega arith) (omega arith)),
          bytes_eq_refl value,
        )
        (refl, refl, refl)

  -- Over a database as RocksDB documents it, after a `DeleteMany` that is acknowledged `GetMany`
  -- answers NotFound, leaves the value as it was, and finds the three entries to be the same.
  pub get_many-delete_many :
      (d : b.Db) (key before : Bytes)
      → IsBatchDb b
      → (delete_many b d key).0 ≡ ok
      → let r = get_many b (delete_many b d key).1 key before in
        (r.0 ≡ not_found) × (r.1 ≡ before) × (r.2 ≡ true)
  unfolding delete_many get_many
  get_many-delete_many d key before law done =
      let d' = (b.write d (deletes key)).1 in
      let s = (b.get_snapshot d').1 in
      let snap = (b.get_snapshot d').0 in
      let gone : (c : ℕ) → b'0' ≤ c → c ≤ b'2' → b.get s snap (suffixed key c) ≡ (not_found, []) =
        λ c least most.
          law.get-write d (deletes key) (suffixed key c) done
          ∙ replayed-deletes key c _ least most in
      rw
        (
          get_one-not_found s snap (suffixed key b'0') before []
              (gone b'0' (omega arith) (omega arith)),
          get_one-not_found s snap (suffixed key b'1') before []
              (gone b'1' (omega arith) (omega arith)),
          get_one-not_found s snap (suffixed key b'2') before []
              (gone b'2' (omega arith) (omega arith)),
          bytes_eq_refl [],
        )
        (refl, refl, refl)
