-- ===== src/Master/Rollback/Preserve.antt =====
-- A rollback of db_impl_master.cc changes no answer: a client reads after it what it read before.
use kvaccel.Base.{
  ℕ, suc, ◌<◌, ◌≡◌, ◌≢◌, refl, sym, ap, ◌∙◌, ◌⊎◌, inl, inr, Bool, true, false, some, [], ◌∷◌, arith,
  ◌==◌, if◌then◌else◌, length, Bool-cases,
}
use kvaccel.Base.Int.{ℤ, pos, is_neg, leb_ℤ}
use kvaccel.Base.Bytes.{Bytes}
use kvaccel.HashMap
use kvaccel.HashMap.Laws.{IsSized, IsSized-delete, contains-delete, contains-clear}
use kvaccel.Rocks.{ok, not_found, is_ok, IsStore}
use kvaccel.DevLsm.{start_key}
use kvaccel.Master.{State, Env, track, tracker_size}
use kvaccel.Master.Coherence.{IsCoherent, from_dev, view}
use kvaccel.Master.Rollback.{Cursor, rollback_turn}
use kvaccel.Master.Rollback.Drain.{
  Entries, Delivers, Tables, tables, move, drain, IsDrained, rollback_turn-IsDrained,
}

module _ (e : Env) where
  -- The key is among the entries.
  abbrev pub Occurs : Bytes → Entries → Type 0
  Occurs j [] = ⊥
  Occurs j ((k, w) ∷ es) = (k ≡ j) ⊎ Occurs j es

  -- Every entry that the tracker takes for this key is this key's, with this value.
  abbrev pub Agrees : Bytes → Bytes → Entries → Type 0
  Agrees j v [] = Unit {0}
  Agrees j v ((k, w) ∷ es) = ((track e k ≢ track e j) ⊎ ((k ≡ j) × (w ≡ v))) × Agrees j v es

  -- The Main-LSM acknowledges every write.
  abbrev pub Accepts : Type 0
  Accepts = (s : e.main.State) (k v : Bytes) → (e.main.put s k v).0 ≡ ok

  abbrev Sized : Tables e → Type 0
  Sized t = IsSized tracker_size t.1

  abbrev tracked : Tables e → Bytes → Bool
  tracked t j = HashMap.contains tracker_size t.1 (track e j)

  Sized-move : (t : Tables e) (k v : Bytes) → Sized t → Sized (move e t k v)
  unfolding move
  Sized-move t k v s = ground (arith, IsSized-delete tracker_size (track e k) s)

  tracked-move :
      (t : Tables e) (k j v : Bytes)
      → Sized t
      → track e k ≢ track e j
      → tracked (move e t k v) j ≡ tracked t j
  unfolding move
  tracked-move t k j v s far =
      ground (arith, far, contains-delete tracker_size t.1 (track e k) (track e j) s)

  module _ (store : IsStore e.main) where
    move_far :
        (t : Tables e) (k j v : Bytes)
        → track e k ≢ track e j
        → e.main.get (move e t k v).0 j ≡ e.main.get t.0 j
    unfolding move
    move_far t k j v far = ground (arith, store.get-put_ne t.0 k j v (λ q. far (ap (track e) q)))

    move_self :
        (t : Tables e) (k v : Bytes)
        → Accepts
        → tracked t k ≡ true
        → e.main.get (move e t k v).0 k ≡ (ok, v)
    unfolding move
    move_self t k v accepts here = rw here (store.get-put t.0 k v (accepts t.0 k v))

    move_untracked :
        (t : Tables e) (k j v : Bytes)
        → track e k ≡ track e j
        → tracked t j ≡ false
        → move e t k v ≡ t
    unfolding move
    move_untracked t k j v same out = rw (same, out)

    move_arrives :
        (t : Tables e) (k j w v : Bytes)
        → Accepts
        → k ≡ j
        → w ≡ v
        → tracked t k ≡ true
        → e.main.get (move e t k w).0 j ≡ (ok, v)
    move_arrives t k j w v a p q here = rw (← p, ← q) (move_self t k w a here)

    move_settled :
        (t : Tables e) (k j w v : Bytes)
        → Accepts
        → (track e k ≢ track e j) ⊎ ((k ≡ j) × (w ≡ v))
        → e.main.get t.0 j ≡ (ok, v)
        → e.main.get (move e t k w).0 j ≡ (ok, v)
    move_settled t k j w v a (inl far) there = move_far t k j w far ∙ there
    move_settled t k j w v a (inr (p, q)) there = elim (Bool-cases (tracked t k)) [
      | inl here ↦ move_arrives t k j w v a p q here
      | inr out ↦ rw (move_untracked t k k w refl out) there
    ]

    -- An untracked key keeps its value in the Main-LSM.
    drain_untracked :
        (t : Tables e) (es : Entries) (j : Bytes)
        → Sized t
        → tracked t j ≡ false
        → e.main.get (drain e t es).0 j ≡ e.main.get t.0 j
    unfolding drain
    drain_untracked t [] j s out = refl
    drain_untracked t ((k, w) ∷ es) j s out = elim (Bool-cases (track e k == track e j)) [
      | inl same ↦
          let same' : track e k ≡ track e j = ground arith in
          rw (move_untracked t k j w same' out, drain) (drain_untracked t es j s out)
      | inr other ↦
          let far : track e k ≢ track e j = ground arith in
          drain_untracked (move e t k w) es j (Sized-move t k w s)
            (tracked-move t k j w s far ∙ out)
          ∙ move_far t k j w far
    ]

    -- Once moved, a value stays, whatever the tracker holds.
    drain_settled :
        (t : Tables e) (es : Entries) (j v : Bytes)
        → Accepts
        → Agrees j v es
        → e.main.get t.0 j ≡ (ok, v)
        → e.main.get (drain e t es).0 j ≡ (ok, v)
    unfolding drain
    drain_settled t [] j v a agrees there = there
    drain_settled t ((k, w) ∷ es) j v a agrees there =
        drain_settled (move e t k w) es j v a agrees.1 (move_settled t k j w v a agrees.0 there)

    drain_arrives :
        (t : Tables e) (es : Entries) (j v : Bytes)
        → Accepts
        → Sized t
        → Agrees j v es
        → Occurs j es
        → tracked t j ≡ true
        → e.main.get (drain e t es).0 j ≡ (ok, v)
    unfolding drain
    drain_arrives t [] j v a s agrees here h = absurd here
    drain_arrives t ((k, w) ∷ es) j v a s ((inr (p, q)), rest) here h =
        drain_settled (move e t k w) es j v a rest (move_arrives t k j w v a p q (rw p h))
    drain_arrives t ((k, w) ∷ es) j v a s ((inl far), rest) (inl p) h =
        absurd (far (ap (track e) p))
    drain_arrives t ((k, w) ∷ es) j v a s ((inl far), rest) (inr later) h =
        drain_arrives (move e t k w) es j v a (Sized-move t k w s) rest later
          (tracked-move t k j w s far ∙ h)

  -- What the scan must deliver about a key: nothing if it is not tracked, and otherwise the value
  -- that the Dev-LSM answers.
  pub data IsCovered (s : State e) (es : Entries) (j value : Bytes) : Type 0 where
    untracked : tracked (tables e s) j ≡ false → IsCovered s es j value
    waiting :
        (v : Bytes)
        → from_dev e s j value ≡ (ok, v)
        → Agrees j v es
        → Occurs j es
        → IsCovered s es j value

  view-cleared :
      (s : State e) (j value : Bytes) (t : Tables e) (d : e.dev.State)
      → IsDrained e t d s
      → view e s j value
        ≡ (let r = e.main.get t.0 j in if is_ok r.0 then (ok, r.1) else (not_found, value))
  unfolding view
  view-cleared s j value t d v =
      rw (v.tracker_cleared, contains-clear tracker_size t.1 (track e j), v.main_drained)

  view-drained :
      (s s' : State e) (es : Entries) (j value : Bytes) (d : e.dev.State)
      → IsCoherent e s
      → IsStore e.main
      → Accepts
      → IsDrained e (drain e (tables e s) es) d s'
      → IsCovered s es j value
      → view e s' j value ≡ view e s j value
  unfolding view
  view-drained s s' es j value d c store a v (untracked out) =
      view-cleared s' j value _ d v
      ∙ (rw (out, drain_untracked store (tables e s) es j c.sized out))
  view-drained s s' es j value d c store a v (waiting w answer agrees here) =
      elim (Bool-cases (tracked (tables e s) j)) [
        | inl yes' ↦
            view-cleared s' j value _ d v
            ∙ rw (yes', drain_arrives store (tables e s) es j w a c.sized agrees here yes')
                (sym answer)
        | inr out ↦
            view-cleared s' j value _ d v
            ∙ (rw (out, drain_untracked store (tables e s) es j c.sized out))
      ]

  -- If the thread is not told to exit, the Dev-LSM is in use, at most 26 files stand at level 0,
  -- the cursor's flag is negative, the scan starts with a first entry and then delivers the others
  -- and -3, the state is coherent, the Main-LSM is a store that acknowledges every write, and the
  -- scan covers a key, then one turn of the rollback thread with more fuel than entries ends with
  -- both flags 0, and that key is read afterwards as before.
  pub rollback_turn-view :
      (s : State e) (c : Cursor) (r : ℤ) (id : ℕ) (k v : Bytes) (d₁ d₂ d' : e.dev.State)
      (es : Entries)
      → s.rollback_should_exit ≡ false
      → s.kache_flag ≡ 1
      → leb_ℤ (e.main.num_files_at_level0 s.main) (pos 26) ≡ true
      → is_neg c.flag ≡ true
      → e.dev.create_iter s.dev c.iter_id ≡ (r, id, d₁)
      → e.dev.seek_scan d₁ id start_key c.value ≡ (pos 1, k, v, d₂)
      → Delivers e.dev id d₂ k v es d'
      → IsCoherent e s
      → IsStore e.main
      → Accepts
      → (j value : Bytes) → IsCovered s ((k, v) ∷ es) j value
      → (fuel : ℕ) → length es < fuel
      → (s' : State e) × (c' : Cursor) × (rollback_turn e (suc fuel) s c ≡ some (s', c'))
        × (view e s' j value ≡ view e s j value)
        × (s'.kache_flag ≡ 0)
        × (s'.rollback_flag ≡ 0)
  rollback_turn-view s c r id k v d₁ d₂ d' es stay dirty calm neg created sought del coh store a j
        value cov fuel h =
      let (s', c', runs, drained) =
        rollback_turn-IsDrained e s c r id k v d₁ d₂ d' es stay dirty calm neg created sought del
          fuel h in
      (
        s',
        c',
        runs,
        view-drained s s' ((k, v) ∷ es) j value d' coh store a drained cov,
        drained.kache_off,
        drained.rollback_off,
      )
