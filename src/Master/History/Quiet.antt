-- ===== src/Master/History/Quiet.antt =====
-- The calls of kvaccel/db/db_impl/db_impl_master.cc that leave the Main-LSM and the tracker, and what a round of its
-- rollback does to them.
use kvaccel.Base.{◌≡◌, refl, inl, inr, [], arith, Bool-cases}
use kvaccel.Base.Int.{is_neg}
use kvaccel.Base.Bytes.{Bytes}
use kvaccel.DevLsm.{start_key}
use kvaccel.Master.{Env, State}
use kvaccel.Master.Write.{get, get_pin}
use kvaccel.Master.Monitor.{monitor}
use kvaccel.Master.Iterate.{
  iterator_reset, iterator_seek, iterator_next, iterator_destroy, advance_dev,
}
use kvaccel.Master.Rollback.{
  Cursor, Round, again, finished, migrate, start_scan, continue_scan, reset_device, round, is_end,
}

module _ (e : Env) where
  -- The Main-LSM and the tracker are the same.
  pub record Same (s s' : State e) : Type 0 where
    pub main : s'.main ≡ s.main
    pub tracker : s'.key_tracker ≡ s.key_tracker

  pub Same-get : (s : State e) (k value : Bytes) → Same s (get e s k value).2
  unfolding get
  Same-get s k value = record { main = ground arith; tracker = ground arith }

  pub Same-get_pin : (s : State e) (k pinned : Bytes) → Same s (get_pin e s k pinned).2
  unfolding get_pin
  Same-get_pin s k pinned = record { main = ground arith; tracker = ground arith }

  pub Same-iterator_reset : (s : State e) → Same s (iterator_reset e s).1
  unfolding iterator_reset
  Same-iterator_reset s = record { main = ground arith; tracker = ground arith }

  pub Same-iterator_seek :
      (s : State e) (it : e.main.Iter) (k : Bytes) → Same s (iterator_seek e it s k).1
  unfolding iterator_seek
  Same-iterator_seek s it k =
      let (r, k', v, d) = e.dev.seek_scan s.dev s.ilsm_iter_id k [] in
      record { main = ground arith; tracker = ground arith }

  pub Same-iterator_next : (s : State e) (it : e.main.Iter) → Same s (iterator_next e it s).1
  unfolding iterator_next advance_dev
  Same-iterator_next s it = record { main = ground arith; tracker = ground arith }

  pub Same-iterator_destroy : (s : State e) → Same s (iterator_destroy e s)
  unfolding iterator_destroy
  Same-iterator_destroy s = record { main = refl; tracker = refl }

  pub Same-monitor : (s : State e) → Same s (monitor e s)
  unfolding monitor
  Same-monitor s = record { main = refl; tracker = refl }

  -- A round moves an entry, or clears the tracker, in a state with other iterators.
  abbrev pub Rolled : State e → Round (State e) → Type 0
  Rolled s (again s' c') =
      (m : State e) × Same s m
      × (m.kache_flag ≡ s.kache_flag)
      × (s' ≡ monitor e (migrate e m c'.key c'.value))
  Rolled s (finished s' c') = (m : State e) × Same s m × (s' ≡ reset_device e m)

  Rolled-start_scan : (s : State e) (c : Cursor) → Rolled s (start_scan e s c)
  unfolding start_scan
  Rolled-start_scan s c =
      let (r, id, d) = e.dev.create_iter s.dev c.iter_id in
      let (flag, k, v, d') = e.dev.seek_scan d id start_key c.value in
      let scanned : State e = record s { dev = d' } in
      let same : Same s scanned = record { main = refl; tracker = refl } in
      (scanned, same, refl, refl)

  Rolled-continue_scan : (s : State e) (c : Cursor) → Rolled s (continue_scan e s c)
  unfolding continue_scan
  Rolled-continue_scan s c =
      let (flag, k, v, d) = e.dev.next_scan s.dev c.iter_id c.key c.value in
      let scanned : State e = record s { dev = d } in
      let same : Same s scanned = record { main = refl; tracker = refl } in
      elim (Bool-cases (is_end flag)) [
        | inl end ↦ rw end (scanned, same, refl)
        | inr more ↦ rw more (scanned, same, refl, refl)
      ]

  pub Rolled-round : (s : State e) (c : Cursor) → Rolled s (round e s c)
  unfolding round
  Rolled-round s c = elim (Bool-cases (is_neg c.flag)) [
    | inl neg ↦ rw neg (Rolled-start_scan s c)
    | inr pos_flag ↦ rw pos_flag (Rolled-continue_scan s c)
  ]
