-- ===== src/Master/Rollback/Rounds.antt =====
-- What a reader sees between two rounds of `Rollback_Consumer` in
-- kvaccel/db/db_impl/db_impl_master.cc, and when the rounds never end.
use kvaccel.Base.{
  ℕ, zero, suc, ◌≤◌, ◌≡◌, inl, inr, true, false, none, arith, sym, refl, ap, subst, Bool-cases,
  ◌==◌,
}
use kvaccel.Base.Int.{pos, is_neg, leb_ℤ}
use kvaccel.Base.Bytes.{Bytes}
use kvaccel.HashMap.{contains, delete}
use kvaccel.HashMap.Laws.{IsSized-delete, times, contains-delete}
use kvaccel.Rocks.{ok, IsStore}
use kvaccel.DevLsm.{DevLsm, start_key}
use kvaccel.Master.{Env, State, track, tracker_size}
use kvaccel.Master.Coherence.{IsCoherent, view, from_dev}
use kvaccel.Master.Rollback.{
  Cursor, again, migrate, start_scan, round, rollback_loop, rollback_turn,
}
use kvaccel.Master.Rollback.Drain.{dev-migrate}
use kvaccel.Master.Monitor.{monitor}

-- Device states in which a scan finds no first entry, and which it does not leave.
pub record IsBarren (d : DevLsm) (B : d.State → Type 0) : Type 0 where
  pub created : (s : d.State) (id : ℕ) → B s → B (d.create_iter s id).2
  pub sought :
      (s : d.State) (id : ℕ) (k v : Bytes)
      → B s
      → (is_neg (d.seek_scan s id k v).0 ≡ true) × B (d.seek_scan s id k v).3

module _ (e : Env) where
  -- Only a key that is tracked is moved, so none is while the flag is off.
  pub IsCoherent-migrate :
      (s : State e) (k v : Bytes) → IsCoherent e s → IsCoherent e (migrate e s k v)
  unfolding migrate
  IsCoherent-migrate s k v c = elim (Bool-cases (contains tracker_size s.key_tracker (track e k))) [
    | inl there ↦ rw there (record {
      sized = IsSized-delete tracker_size (track e k) c.sized;
      unused = λ z j. ground (arith, there, c.unused z (track e k));
    })
    | inr out ↦ rw out c
  ]

  pub view-migrate_self :
      (s : State e) (k v value : Bytes)
      → IsCoherent e s
      → IsStore e.main
      → (e.main.put s.main k v).0 ≡ ok
      → times tracker_size s.key_tracker (track e k) ≤ 1
      → from_dev e s k value ≡ (ok, v)
      → view e (migrate e s k v) k value ≡ view e s k value
  unfolding view migrate
  view-migrate_self s k v value c m done once answers =
      elim (Bool-cases (contains tracker_size s.key_tracker (track e k))) [
        | inl there ↦
            let gone : contains tracker_size (delete tracker_size s.key_tracker (track e k))
                  (track e k)
                ≡ false =
              ground (
                arith,
                contains-delete tracker_size s.key_tracker (track e k) (track e k) c.sized,
              ) in
            rw (there, gone, m.get-put s.main k v done) (sym answers)
        | inr out ↦ rw out (rw out)
      ]

  pub view-migrate_ne :
      (s : State e) (k v j value : Bytes)
      → IsCoherent e s
      → IsStore e.main
      → (track e k == track e j) ≡ false
      → view e (migrate e s k v) j value ≡ view e s j value
  unfolding view migrate
  view-migrate_ne s k v j value c m far = ground (
    arith,
    far,
    contains-delete tracker_size s.key_tracker (track e k) (track e j) c.sized,
    m.get-put_ne s.main k j v (λ (q : k ≡ j). absurd (ground (arith, far, ap (track e) q))),
  )

  -- In a coherent state, over a Main-LSM that is a store and acknowledges the write, if the
  -- tracker holds a key's number at most once, the Dev-LSM answers the value for the key, and the
  -- key that is read is that key or has another number, then the move of the key with that value
  -- by the rollback leaves what is read.
  pub view-migrate :
      (s : State e) (k v j value : Bytes)
      → IsCoherent e s
      → IsStore e.main
      → (e.main.put s.main k v).0 ≡ ok
      → times tracker_size s.key_tracker (track e k) ≤ 1
      → from_dev e s k value ≡ (ok, v)
      → (track e k ≡ track e j → k ≡ j)
      → view e (migrate e s k v) j value ≡ view e s j value
  view-migrate s k v j value c m done once answers apart =
      elim (Bool-cases (track e k == track e j)) [
        | inl same ↦
            subst (λ x. view e (migrate e s k v) x value ≡ view e s x value) (apart (ground arith))
              (view-migrate_self s k v value c m done once answers)
        | inr far ↦ view-migrate_ne s k v j value c m far
      ]

  round-barren :
      (B : e.dev.State → Type 0) (s : State e) (c : Cursor)
      → IsBarren e.dev B
      → B s.dev
      → is_neg c.flag ≡ true
      → (s' : State e) × (c' : Cursor) × (round e s c ≡ again s' c')
        × (is_neg c'.flag ≡ true)
        × B s'.dev
  unfolding round start_scan monitor
  round-barren B s c barren here neg =
      let (_, id, dev) = e.dev.create_iter s.dev c.iter_id in
      let (flag, key, value, dev') = e.dev.seek_scan dev id start_key c.value in
      let (fails, there) =
        barren.sought dev id start_key c.value (barren.created s.dev c.iter_id here) in
      (
        monitor e (migrate e (record s { dev = dev' }) key value),
        record { flag = flag; iter_id = id; key = key; value = value },
        rw neg refl,
        fails,
        subst B (sym (dev-migrate e (record s { dev = dev' }) key value)) there,
      )

  rollback_loop-barren :
      (B : e.dev.State → Type 0) (fuel : ℕ) (s : State e) (c : Cursor)
      → IsBarren e.dev B
      → B s.dev
      → is_neg c.flag ≡ true
      → rollback_loop e fuel s c ≡ none
  unfolding rollback_loop
  rollback_loop-barren B zero s c barren here neg = refl
  rollback_loop-barren B (suc fuel) s c barren here neg =
      let (s', c', next, neg', here') = round-barren B s c barren here neg in
      rw (next, rollback_loop) (rollback_loop-barren B fuel s' c' barren here' neg')

  -- If the thread is not told to exit, the Dev-LSM is in use, at most 26 files stand at level 0,
  -- the cursor's flag is negative, and the device is in a state, which it does not leave, where a
  -- scan finds no first entry, then a turn of the rollback thread does not end with any fuel.
  pub rollback_turn-barren :
      (B : e.dev.State → Type 0) (fuel : ℕ) (s : State e) (c : Cursor)
      → IsBarren e.dev B
      → B s.dev
      → is_neg c.flag ≡ true
      → s.rollback_should_exit ≡ false
      → s.kache_flag ≡ 1
      → leb_ℤ (e.main.num_files_at_level0 s.main) (pos 26) ≡ true
      → rollback_turn e fuel s c ≡ none
  unfolding rollback_turn monitor
  rollback_turn-barren B fuel s c barren here neg stay dirty calm =
      rw (stay, dirty, calm) (rollback_loop-barren B fuel _ c barren here neg)
