-- ===== src/HashMap/Laws.antt =====
-- What a client of kvaccel/util/hash_map.h may rely on: how often a key is in the table after
-- each operation, and what `Contains` and `Get` answer then.
use kvaccel.Base.{
  ℕ, zero, suc, ◌+◌, ◌%◌, ◌<◌, ◌≡◌, refl, ◌∙◌, inl, inr, true, false, ◌||◌, some, List, [], ◌∷◌,
  arith, ◌==◌, ltb, if◌then◌else◌, bit, Bool-cases, Option-cases, length, get_or, get_or-set, set,
  get_or-replicate, length-set, length-replicate, length-map, map, push_back,
}
use kvaccel.HashMap.{HashMap, bucket, create, clear, contains, insert, delete}
use kvaccel.HashMap.Bucket.{
  find_if, swap_out, occurrences, occurrences-push_back, occurrences-swap_out, find_if-some,
  find_if-none, find_if-some-pos,
}

-- The table has the number of buckets that `std::array` gives it.
pub record IsSized {V : Type 0} (size : ℕ) (m : HashMap V) : Type 0 where
  pub positive : 0 < size
  pub sized : length m.table ≡ size

pub times-create :
    (V : Type 0) (size key : ℕ) → occurrences key (bucket size (create V size) key) ≡ 0
unfolding create
times-create V size key =
    let empty : List (ℕ × V) = [] in rw (get_or-replicate size (key % size) empty)

pub contains-create : (V : Type 0) (size key : ℕ) → contains size (create V size) key ≡ false
unfolding create contains find_if
contains-create V size key =
    let empty : List (ℕ × V) = [] in rw (get_or-replicate size (key % size) empty)

module _ {V : Type 0} (size : ℕ) where
  -- How many entries the table holds for a key.
  abbrev pub times : HashMap V → ℕ → ℕ
  times m key = occurrences key (bucket size m key)

  pub IsSized-create : 0 < size → IsSized size (create V size)
  unfolding create
  IsSized-create h = record { positive = h; sized = length-replicate size [] }

  pub IsSized-insert :
      {m : HashMap V} (k : ℕ) (v : V) → IsSized size m → IsSized size (insert size m k v)
  unfolding insert
  IsSized-insert {m} k v s = record {
    positive = s.positive;
    sized = length-set m.table _ _ ∙ s.sized;
  }

  -- The bucket of `j` after a write to the bucket of `k`.
  pub written :
      (m : HashMap V) (k j : ℕ)
      → IsSized size m
      → (b : List (ℕ × V))
      → get_or (set m.table (k % size) b) (j % size) []
        ≡ (if k % size == j % size then b else bucket size m j)
  written m k j s b =
      let inside : k % size < length m.table = omega (arith, s.positive, s.sized) in
      get_or-set m.table (k % size) (j % size) b [] inside

  pub times-insert :
      (m : HashMap V) (k j : ℕ) (v : V)
      → IsSized size m
      → times (insert size m k v) j ≡ times m j + bit (k == j)
  unfolding insert
  times-insert m k j v s = elim (Bool-cases (k % size == j % size)) [
    | inl e ↦ rw (written m k j s _, e) (same e)
    | inr n ↦ rw (written m k j s _, n) (ground arith)
  ]
    where
      same :
          (k % size == j % size) ≡ true
          → occurrences j (push_back (bucket size m k) (k, v)) ≡ times m j + bit (k == j)
      same e =
          let e' : j % size ≡ k % size = ground arith in
          rw e' (occurrences-push_back j (bucket size m k) (k, v))

  pub IsSized-delete : {m : HashMap V} (k : ℕ) → IsSized size m → IsSized size (delete size m k)
  unfolding delete
  IsSized-delete {m} k s = elim (Option-cases (find_if k (bucket size m k))) [
    | inl e ↦ rw (e, delete) s
    | inr (i, e) ↦
        rw (e, delete) (record { positive = s.positive; sized = length-set m.table _ _ ∙ s.sized })
  ]

  times-removed :
      (m : HashMap V) (k j i : ℕ)
      → IsSized size m
      → find_if k (bucket size m k) ≡ some i
      → times m j
        ≡ occurrences j
            (if k % size == j % size then swap_out i (bucket size m k) else bucket size m j)
          + bit (k == j)
  times-removed m k j i s h = elim (Bool-cases (k % size == j % size)) [
    | inl e ↦
        let e' : j % size ≡ k % size = ground arith in
        let (x, at, key) = find_if-some k i (bucket size m k) h in
        rw (e, e') (rw key at (occurrences-swap_out j i (bucket size m k) x at))
    | inr n ↦ rw n (ground arith)
  ]

  -- `Delete` removes one entry of a key that is there, and touches no other key.
  pub times-delete :
      (m : HashMap V) (k j : ℕ)
      → IsSized size m
      → times m j ≡ times (delete size m k) j + (if contains size m k then bit (k == j) else 0)
  unfolding delete contains
  times-delete m k j s = elim (Option-cases (find_if k (bucket size m k))) [
    | inl e ↦ rw (e, delete, contains) (omega arith)
    | inr (i, e) ↦ rw (e, delete, contains, written m k j s _) (times-removed m k j i s e)
  ]

  -- `Contains` is true exactly when the table holds the key at least once.
  pub contains-eq-ltb : (m : HashMap V) (k : ℕ) → contains size m k ≡ ltb 0 (times m k)
  unfolding contains
  contains-eq-ltb m k = elim (Option-cases (find_if k (bucket size m k))) [
    | inl e ↦ rw (e, contains) (ground (arith, find_if-none k (bucket size m k)))
    | inr (i, e) ↦ rw (e, contains) (ground (arith, find_if-some-pos k i (bucket size m k)))
  ]

  -- In a table with its buckets, after `Insert` of a key `Contains` is true of that key and of the
  -- keys of before.
  pub contains-insert :
      (m : HashMap V) (k j : ℕ) (v : V)
      → IsSized size m
      → contains size (insert size m k v) j ≡ (k == j) || contains size m j
  contains-insert m k j v s =
      rw (contains-eq-ltb (insert size m k v) j, contains-eq-ltb m j)
        (ground (arith, times-insert m k j v s))

  -- In a table with its buckets, after `Delete` of a key `Contains` is as before for every other
  -- key, and true of that key exactly if it was there at least twice.
  pub contains-delete :
      (m : HashMap V) (k j : ℕ)
      → IsSized size m
      → contains size (delete size m k) j
        ≡ (if k == j then ltb 1 (times m k) else contains size m j)
  contains-delete m k j s =
      rw (contains-eq-ltb (delete size m k) j, contains-eq-ltb m j)
        (elim (Bool-cases (k == j)) [
          | inl e ↦
              let e' : j ≡ k = ground arith in
              ground (arith, e, e', times-delete m k k s, contains-eq-ltb m k)
          | inr n ↦ ground (arith, n, times-delete m k j s)
        ])

module _ {V : Type 0} where
  get_or-cleared :
      (t : List (List (ℕ × V))) (i : ℕ) → get_or {A = List (ℕ × V)} (map (λ b. []) t) i [] ≡ []
  get_or-cleared [] i = refl
  get_or-cleared (b ∷ t) zero = refl
  get_or-cleared (b ∷ t) (suc i) = get_or-cleared t i

  -- After `Clear` no key is there, and the number of buckets is what it was.
  pub contains-clear : (size : ℕ) (m : HashMap V) (k : ℕ) → contains size (clear m) k ≡ false
  unfolding contains clear find_if
  contains-clear size m k = rw (get_or-cleared m.table (k % size))

  pub IsSized-clear : {size : ℕ} {m : HashMap V} → IsSized size m → IsSized size (clear m)
  unfolding clear
  IsSized-clear {m} s = record {
    positive = s.positive;
    sized = length-map m.table (λ b. []) ∙ s.sized;
  }
