-- ===== src/Whole/Moved.antt =====
-- Which value a round of `Rollback_Consumer` (kvaccel/db/db_impl/db_impl_master.cc) moves, over the
-- scan of kvaccel/db/db_impl/iLSM.cc.
use kvaccel.Base.{ℕ, ◌≡◌, refl, ap, true, false, some, List, ◌∷◌, back?}
use kvaccel.Base.Int.{pos, is_neg}
use kvaccel.Base.Bytes.{Bytes}
use kvaccel.HashMap.{contains}
use kvaccel.Rocks.{MainLsm}
use kvaccel.Ilsm.{Host, Ilsm}
use kvaccel.Ilsm.Scan.{next_scan}
use kvaccel.Ilsm.Scan.Pairing.{HasBatch, next_scan-pair}
use kvaccel.Master.{Env, State, track, tracker_size}
use kvaccel.Master.Monitor.{monitor}
use kvaccel.Master.Rollback.{Cursor, again, round, continue_scan, migrate}
use kvaccel.Whole.{whole}

module _ (m : MainLsm) (murmur : Bytes → ℕ → ℕ × ℕ) (h : Host) where
  abbrev Joined : Env
  Joined = whole m murmur h

  continue_scan-pair :
      (s : State Joined) (c : Cursor) (k w : Bytes) (d : Ilsm h.World)
      → next_scan h c.iter_id c.key c.value s.dev ≡ ((pos 1, k, w), d)
      → continue_scan Joined s c
        ≡ again
            (monitor Joined (migrate Joined (record s { dev = d }) k w))
            (record { flag = pos 1; iter_id = c.iter_id; key = k; value = w })
  unfolding continue_scan
  continue_scan-pair s c k w d scanned = rw scanned refl

  main-migrate :
      (s : State Joined) (d : Ilsm h.World) (k w : Bytes)
      → contains tracker_size s.key_tracker (track Joined k) ≡ true
      → (monitor Joined (migrate Joined (record s { dev = d }) k w)).main ≡ (m.put s.main k w).1
  unfolding migrate monitor
  main-migrate s d k w tracked = rw tracked refl

  -- Over the device of this program, a round of the rollback with a cursor whose flag is not
  -- negative, whose iterator has keys and values left and whose first key is tracked, writes that
  -- first key into the Main-LSM with the last of the values.
  pub main-round_pair :
      (s : State Joined) (c : Cursor) (k w : Bytes) (ks vs : List Bytes)
      → is_neg c.flag ≡ false
      → HasBatch s.dev c.iter_id (k ∷ ks) vs
      → back? vs ≡ some w
      → contains tracker_size s.key_tracker (track Joined k) ≡ true
      → (s' : State Joined) × (c' : Cursor) × (round Joined s c ≡ again s' c')
        × (s'.main ≡ (m.put s.main k w).1)
  unfolding round
  main-round_pair s c k w ks vs going b last tracked =
      let d = (next_scan h c.iter_id c.key c.value s.dev).1 in
      let front = next_scan-pair h s.dev c.iter_id k w c.key c.value ks vs b last in
      (
        monitor Joined (migrate Joined (record s { dev = d }) k w),
        record { flag = pos 1; iter_id = c.iter_id; key = k; value = w },
        rw going (continue_scan-pair s c k w d (ap (λ r. (r, d)) front)),
        main-migrate s d k w tracked,
      )
