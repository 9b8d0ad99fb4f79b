-- ===== src/Master/Iterate/Plain.antt =====
-- The merged iterator of kvaccel/db/db_impl/db_impl_master.cc while the Dev-LSM is empty, against the
-- iterator of RocksDB.
use kvaccel.Base.{◌≡◌, refl, Bool, ◌&&◌, List, [], ◌∷◌, arith, if◌then◌else◌, inl, inr, Bool-cases}
use kvaccel.Base.Bytes.{Bytes, bytes_eq}
use kvaccel.Master.{Env, State}
use kvaccel.Master.Iterate.{
  iterator_seek, iterator_next, iterator_prev, iterator_valid, iterator_compare, iterator_value,
  iterator_key,
}

-- What a client does with an iterator.
pub data Travel : Type 0 where
  to_key : Bytes → Travel
  forward back : Travel

module _ (e : Env) where
  open e.main use {Iter, seek, valid, key, value, next, prev}

  -- RocksDB's iterator, which a client may move on only while it is valid.
  abbrev pub go_main : Travel → Iter → Iter
  go_main (to_key k) it = seek it k
  go_main forward it = if valid it then next it else it
  go_main back it = if valid it then prev it else it

  abbrev pub travel_main : List Travel → Iter → Iter
  travel_main [] it = it
  travel_main (t ∷ ts) it = travel_main ts (go_main t it)

  -- The master's iterator.
  abbrev pub go : Travel → Iter × State e → Iter × State e
  go (to_key k) (it, s) = iterator_seek e it s k
  go forward (it, s) = iterator_next e it s
  go back (it, s) = (iterator_prev e it, s)

  abbrev pub travel : List Travel → Iter × State e → Iter × State e
  travel [] at = at
  travel (t ∷ ts) at = travel ts (go t at)

  -- What an iterator shows: whether it is valid, its key and value, and whether it is at a key.
  abbrev pub Shown : Type 0
  Shown = Bool × Bytes × Bytes × Bool

  abbrev pub shown_main : Bytes → Iter → Shown
  shown_main k it = (valid it, key it, value it, valid it && bytes_eq (key it) k)

  abbrev pub shown : Bytes → Iter × State e → Shown
  shown k (it, s) =
      (iterator_valid e it, iterator_key e it s, iterator_value e it s, iterator_compare e it s k)

  go-empty :
      (t : Travel) (it : Iter) (s : State e) → s.kache_flag ≡ 0 → go t (it, s) ≡ (go_main t it, s)
  unfolding iterator_seek iterator_next iterator_prev
  go-empty (to_key k) it s off = rw off refl
  go-empty forward it s off = rw off refl
  go-empty back it s off = refl

  travel-empty :
      (ts : List Travel) (it : Iter) (s : State e)
      → s.kache_flag ≡ 0
      → travel ts (it, s) ≡ (travel_main ts it, s)
  travel-empty [] it s off = refl
  travel-empty (t ∷ ts) it s off = rw (go-empty t it s off) (travel-empty ts (go_main t it) s off)

  shown-empty :
      (k : Bytes) (it : Iter) (s : State e)
      → s.kache_flag ≡ 0
      → s.iter_location ≡ 0
      → shown k (it, s) ≡ shown_main k it
  unfolding iterator_valid iterator_key iterator_value iterator_compare
  shown-empty k it s off on_main = elim (Bool-cases (valid it)) [
    | inl there ↦ rw (on_main, off, there) (ground arith)
    | inr past ↦ rw (on_main, off, past) refl
  ]

  -- While the Dev-LSM is empty and the iterator's place is on the Main-LSM, the iterator shows
  -- after any seeks and steps, in both directions, what RocksDB's iterator shows after the same:
  -- the same validity, key and value and the same answer to the question whether it is at a key.
  pub shown-travel :
      (ts : List Travel) (k : Bytes) (it : Iter) (s : State e)
      → s.kache_flag ≡ 0
      → s.iter_location ≡ 0
      → shown k (travel ts (it, s)) ≡ shown_main k (travel_main ts it)
  shown-travel ts k it s off on_main =
      rw (travel-empty ts it s off) (shown-empty k (travel_main ts it) s off on_main)
