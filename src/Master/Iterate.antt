-- ===== src/Master/Iterate.antt =====
-- The iterator of `DB_MASTER` in kvaccel/db/db_impl/db_impl_master.cc, which goes over the Main-LSM
-- and, while that holds entries, the Dev-LSM.
pub mod Stale
pub mod Plain
use kvaccel.Base.{◌≡◌, Bool, true, false, not, ◌&&◌, ◌||◌, [], ◌∷◌, arith, ltb, ◌==◌, if◌then◌else◌}
use kvaccel.Base.Bytes.{Bytes, bytes_eq}
use kvaccel.Master.{Env, State}

-- `a.compare(b) < 0` for slices
unfoldable pub bytes_lt : Bytes → Bytes → Bool
bytes_lt a [] = false
bytes_lt [] (y ∷ b) = true
bytes_lt (x ∷ a) (y ∷ b) = ltb x y || (x == y && bytes_lt a b)

module _ (e : Env) where
  open e.main use {Iter, seek, valid, key, value, next, prev, new_iterator}

  unfoldable pub iterator_reset : State e → Iter × State e
  iterator_reset s =
      let (_, id, dev) = e.dev.create_iter s.dev s.ilsm_iter_id in
      (
        new_iterator s.main,
        if s.kache_flag == 1 then record s { ilsm_iter_id = id; dev = dev } else s,
      )

  -- `key()` of the Main-LSM's iterator, which asks nothing whether it is valid: of an iterator past
  -- the end, what RocksDB then gives is any bytes, and the state notes it.
  unfoldable pub ask_key : Iter → State e → State e
  ask_key it s = record s { asked_invalid = s.asked_invalid || not (valid it) }

  unfoldable pub iterator_seek : Iter → State e → Bytes → Iter × State e
  unfolding ask_key
  iterator_seek it s target =
      let it' = seek it target in
      let (_, target', found, dev) = e.dev.seek_scan s.dev s.ilsm_iter_id target [] in
      (
        it',
        if s.kache_flag == 1
            then record (ask_key it' s) {
              dev = e.dev.set_iter dev s.ilsm_iter_id target' found;
              iter_location = if bytes_lt target' (key it') then 1 else 0;
            }
            else s,
      )

  pub iterator_valid : Iter → Bool
  iterator_valid it = if valid it then true else false

  unfoldable pub iterator_compare : Iter → State e → Bytes → Bool
  iterator_compare it s k =
      if valid it && bytes_eq (key it) k
      then true
      else s.kache_flag == 1 && bytes_eq k (e.dev.iter_key s.dev s.ilsm_iter_id)

  -- `NextScan` into the public arrays.
  unfoldable pub advance_dev : State e → State e
  advance_dev s =
      let (_, k, v, dev) = e.dev.next_scan s.dev s.ilsm_iter_id [] [] in
      record s { dev = e.dev.set_iter dev s.ilsm_iter_id k v }

  abbrev pub dev_key : State e → Bytes
  dev_key s = e.dev.iter_key s.dev s.ilsm_iter_id

  -- On the Main-LSM: on to its next entry, and over to the Dev-LSM if that lies behind.
  next_on_main : Iter → State e → Iter × State e
  unfolding advance_dev ask_key
  next_on_main it s =
      let it' = next it in
      let asked = ask_key it' s in
      if bytes_lt (dev_key asked) (key it')
      then (it', record (advance_dev asked) { iter_location = 1 })
      else (it', asked)

  next_on_dev : Iter → State e → Iter × State e
  unfolding advance_dev ask_key
  next_on_dev it s =
      let s' = ask_key it (advance_dev s) in
      if bytes_lt (key it) (dev_key s')
      then (next it, record s' { iter_location = 0 })
      else (it, s')

  unfoldable pub iterator_next : Iter → State e → Iter × State e
  unfolding next_on_main next_on_dev
  iterator_next it s =
      if s.kache_flag == 0
      then (if valid it then next it else it, s)
      else if s.iter_location == 0 && valid it
      then next_on_main it s
      else if s.iter_location == 1
      then next_on_dev it s
      else (it, s)

  pub iterator_prev : Iter → Iter
  iterator_prev it = if valid it then prev it else it

  unfoldable pub iterator_destroy : State e → State e
  iterator_destroy s = record s { dev = (e.dev.destroy_iter s.dev s.ilsm_iter_id).1 }

  unfoldable pub iterator_value : Iter → State e → Bytes
  iterator_value it s =
      if s.iter_location == 0 then value it else e.dev.iter_value s.dev s.ilsm_iter_id

  unfoldable pub iterator_key : Iter → State e → Bytes
  iterator_key it s = if s.iter_location == 0 then key it else dev_key s

  -- With entries in the Dev-LSM and the iterator on a valid entry of the Main-LSM, a step past the
  -- key that the Dev-LSM's iterator stands on shows the Dev-LSM's entry after that one.
  pub key-next_crossing :
      (it : Iter) (s : State e)
      → s.kache_flag ≡ 1
      → s.iter_location ≡ 0
      → valid it ≡ true
      → bytes_lt (dev_key s) (key (next it)) ≡ true
      → iterator_key (iterator_next it s).0 (iterator_next it s).1 ≡ dev_key (advance_dev s)
  unfolding iterator_key iterator_next advance_dev ask_key
  key-next_crossing it s on main_side there behind = ground arith
