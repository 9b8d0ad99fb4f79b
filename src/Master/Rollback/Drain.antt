-- ===== src/Master/Rollback/Drain.antt =====
-- The rollback loop of db_impl_master.cc ends, and what it moves.
use kvaccel.Base.{
  ℕ, zero, suc, ◌<◌, ◌≡◌, refl, true, false, some, List, [], ◌∷◌, arith, if◌then◌else◌, length, ◌∙◌,
  subst,
}
use kvaccel.Base.Int.{ℤ, pos, negsuc, is_neg, leb_ℤ}
use kvaccel.Base.Bytes.{Bytes}
use kvaccel.HashMap
use kvaccel.DevLsm.{DevLsm, start_key}
use kvaccel.Master.{State, Env, track, tracker_size}
use kvaccel.Master.Monitor.{monitor}
use kvaccel.Master.Rollback.{Cursor, again, finished, migrate, round, rollback_loop, rollback_turn}

abbrev pub Entries : Type 0
Entries = List (Bytes × Bytes)

-- The device answers these entries one by one to the calls of `NextScan`, and then -3.
pub data Delivers (d : DevLsm) (id : ℕ) : d.State → Bytes → Bytes → Entries → d.State → Type 0 where
  over :
      {s s' : d.State} {k v k' v' : Bytes}
      → d.next_scan s id k v ≡ (negsuc 2, k', v', s')
      → Delivers d id s k v [] s'
  more :
      {s s₁ s' : d.State} {k v k' v' : Bytes} {es : Entries}
      → d.next_scan s id k v ≡ (pos 1, k', v', s₁)
      → Delivers d id s₁ k' v' es s'
      → Delivers d id s k v ((k', v') ∷ es) s'

module _ (e : Env) where
  -- The specification: each entry that is still tracked goes to the Main-LSM, in scan order.
  abbrev pub Tables : Type 0
  Tables = e.main.State × HashMap.HashMap Bytes

  unfoldable pub move : Tables → Bytes → Bytes → Tables
  move t k v =
      if HashMap.contains tracker_size t.1 (track e k)
      then ((e.main.put t.0 k v).1, HashMap.delete tracker_size t.1 (track e k))
      else t

  unfoldable pub drain : Tables → Entries → Tables
  drain t [] = t
  drain t ((k, v) ∷ es) = drain (move t k v) es

  abbrev pub tables : State e → Tables
  tables s = (s.main, s.key_tracker)

  pub tables-migrate : (s : State e) (k v : Bytes) → tables (migrate e s k v) ≡ move (tables s) k v
  unfolding migrate move
  tables-migrate s k v = ground arith

  pub dev-migrate : (s : State e) (k v : Bytes) → (migrate e s k v).dev ≡ s.dev
  unfolding migrate
  dev-migrate s k v = ground arith

  -- The state in which a rollback leaves the master.
  pub record IsDrained (t : Tables) (dev : e.dev.State) (s : State e) : Type 0 where
    pub main_drained : s.main ≡ t.0
    pub tracker_cleared : s.key_tracker ≡ HashMap.clear t.1
    pub device_reset : s.dev ≡ (e.dev.reset dev).1
    pub kache_off : s.kache_flag ≡ 0
    pub rollback_off : s.rollback_flag ≡ 0

  abbrev cursor : ℕ → ℕ → Bytes → Bytes → Cursor
  cursor n id k v = record { flag = pos n; iter_id = id; key = k; value = v }

  -- The state after the break of the inner loop.
  abbrev after_reset : State e → e.dev.State → State e
  after_reset s dev = record s {
    dev = (e.dev.reset dev).1;
    key_tracker = HashMap.clear s.key_tracker;
    kache_flag = 0;
    rollback_flag = 0;
  }

  round-over :
      (s : State e) (n id : ℕ) (k v k' v' : Bytes) (d' : e.dev.State)
      → e.dev.next_scan s.dev id k v ≡ (negsuc 2, k', v', d')
      → round e s (cursor n id k v)
        ≡ finished
            (after_reset s d')
            (record { flag = negsuc 1; iter_id = id; key = k'; value = v' })
  unfolding round
  round-over s n id k v k' v' d' q = rw q

  round-more :
      (s : State e) (n id : ℕ) (k v k' v' : Bytes) (d' : e.dev.State)
      → e.dev.next_scan s.dev id k v ≡ (pos 1, k', v', d')
      → round e s (cursor n id k v)
        ≡ again (monitor e (migrate e (record s { dev = d' }) k' v')) (cursor 1 id k' v')
  unfolding round
  round-more s n id k v k' v' d' q = rw q

  tables-monitor : (s : State e) → tables (monitor e s) ≡ tables s
  unfolding monitor
  tables-monitor s = refl

  dev-monitor : (s : State e) → (monitor e s).dev ≡ s.dev
  unfolding monitor
  dev-monitor s = refl

  abbrev Ends : ℕ → State e → Cursor → Tables → e.dev.State → Type 0
  Ends fuel s c t d =
      (s' : State e) × (c' : Cursor) × (rollback_loop e fuel s c ≡ some (s', c')) × IsDrained t d s'

  -- With more fuel than entries the loop ends, from any point of the scan.
  pub rollback_loop-IsDrained :
      {id : ℕ} {d : e.dev.State} {k v : Bytes} {es : Entries} {d' : e.dev.State}
      → Delivers e.dev id d k v es d'
      → (fuel : ℕ) (s : State e) (n : ℕ) → s.dev ≡ d
      → length es < fuel
      → Ends fuel s (cursor n id k v) (drain (tables s) es) d'
  unfolding rollback_loop drain
  rollback_loop-IsDrained del zero s n at h = absurd (omega arith)
  rollback_loop-IsDrained {id} {k} {v} {d'} (over {k'} {v'} q) (suc fuel) s n at h =
      rw (round-over s n id k v k' v' d' (rw at q), rollback_loop)
        (
          after_reset s d',
          record { flag = negsuc 1; iter_id = id; key = k'; value = v' },
          refl,
          record {
            main_drained = refl;
            tracker_cleared = refl;
            device_reset = refl;
            kache_off = refl;
            rollback_off = refl;
          },
        )
  rollback_loop-IsDrained {id} {d} {k} {v} {d'} (more {s₁} {k'} {v'} {es} q del) (suc fuel) s n at
        h =
      let next = monitor e (migrate e (record s { dev = s₁ }) k' v') in
      let there : next.dev ≡ s₁ =
        dev-monitor (migrate e (record s { dev = s₁ }) k' v')
        ∙ dev-migrate (record s { dev = s₁ }) k' v' in
      let moved : tables next ≡ move (tables s) k' v' =
        tables-monitor (migrate e (record s { dev = s₁ }) k' v')
        ∙ tables-migrate (record s { dev = s₁ }) k' v' in
      rw (round-more s n id k v k' v' s₁ (rw at q), rollback_loop)
        (subst (λ t. Ends fuel next (cursor 1 id k' v') (drain t es) d') moved
          (rollback_loop-IsDrained {d = s₁} {k = k'} {v = v'} {es = es} del fuel next 1 there
            (omega arith)))

  round-start :
      (s : State e) (c : Cursor) (r : ℤ) (id : ℕ) (k v : Bytes) (d₁ d₂ : e.dev.State)
      → is_neg c.flag ≡ true
      → e.dev.create_iter s.dev c.iter_id ≡ (r, id, d₁)
      → e.dev.seek_scan d₁ id start_key c.value ≡ (pos 1, k, v, d₂)
      → round e s c ≡ again (monitor e (migrate e (record s { dev = d₂ }) k v)) (cursor 1 id k v)
  unfolding round
  round-start s c r id k v d₁ d₂ neg created sought = ground arith

  -- The state in which the thread enters the inner loop.
  abbrev entered : State e → State e
  entered s = record (monitor e s) { rollback_flag = 1 }

  turn-loop :
      (fuel : ℕ) (s : State e) (c : Cursor)
      → s.rollback_should_exit ≡ false
      → s.kache_flag ≡ 1
      → leb_ℤ (e.main.num_files_at_level0 s.main) (pos 26) ≡ true
      → rollback_turn e fuel s c ≡ rollback_loop e fuel (entered s) c
  unfolding rollback_turn monitor
  turn-loop fuel s c stay dirty calm = ground arith

  loop-start :
      (fuel : ℕ) (s : State e) (c : Cursor) (r : ℤ) (id : ℕ) (k v : Bytes) (d₁ d₂ d' : e.dev.State)
      (es : Entries)
      → is_neg c.flag ≡ true
      → e.dev.create_iter s.dev c.iter_id ≡ (r, id, d₁)
      → e.dev.seek_scan d₁ id start_key c.value ≡ (pos 1, k, v, d₂)
      → Delivers e.dev id d₂ k v es d'
      → length es < fuel
      → Ends (suc fuel) s c (drain (tables s) ((k, v) ∷ es)) d'
  unfolding rollback_loop drain
  loop-start fuel s c r id k v d₁ d₂ d' es neg created sought del h =
      let next = monitor e (migrate e (record s { dev = d₂ }) k v) in
      let there : next.dev ≡ d₂ =
        dev-monitor (migrate e (record s { dev = d₂ }) k v)
        ∙ dev-migrate (record s { dev = d₂ }) k v in
      let moved : tables next ≡ move (tables s) k v =
        tables-monitor (migrate e (record s { dev = d₂ }) k v)
        ∙ tables-migrate (record s { dev = d₂ }) k v in
      rw (round-start s c r id k v d₁ d₂ neg created sought, rollback_loop)
        (subst (λ t. Ends fuel next (cursor 1 id k v) (drain t es) d') moved
          (rollback_loop-IsDrained del fuel next 1 there h))

  -- One turn of the thread after the stall, from the start of the scan to its end.
  pub rollback_turn-IsDrained :
      (s : State e) (c : Cursor) (r : ℤ) (id : ℕ) (k v : Bytes) (d₁ d₂ d' : e.dev.State)
      (es : Entries)
      → s.rollback_should_exit ≡ false
      → s.kache_flag ≡ 1
      → leb_ℤ (e.main.num_files_at_level0 s.main) (pos 26) ≡ true
      → is_neg c.flag ≡ true
      → e.dev.create_iter s.dev c.iter_id ≡ (r, id, d₁)
      → e.dev.seek_scan d₁ id start_key c.value ≡ (pos 1, k, v, d₂)
      → Delivers e.dev id d₂ k v es d'
      → (fuel : ℕ) → length es < fuel
      → (s' : State e) × (c' : Cursor) × (rollback_turn e (suc fuel) s c ≡ some (s', c'))
        × IsDrained (drain (tables s) ((k, v) ∷ es)) d' s'
  unfolding monitor
  rollback_turn-IsDrained s c r id k v d₁ d₂ d' es stay dirty calm neg created sought del fuel h =
      rw (turn-loop (suc fuel) s c stay dirty calm)
        (loop-start fuel (entered s) c r id k v d₁ d₂ d' es neg created sought del h)
