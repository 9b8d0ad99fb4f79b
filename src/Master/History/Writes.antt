-- ===== src/Master/History/Writes.antt =====
-- The writes of kvaccel/db/db_impl/db_impl_master.cc, stalled or not, and the rollback's moves, as events.
use kvaccel.Base.{ltb, ◌≡◌, refl, ◌∙◌, ap, subst, true, false, ◌==◌, arith, inl, inr, Bool-cases}
use kvaccel.Base.Bytes.{Bytes, bytes_eq→eq}
use kvaccel.Master.Rollback.{migrate}
use kvaccel.HashMap
use kvaccel.HashMap.Laws.{times-insert, contains-eq-ltb}
use kvaccel.Rocks.{ok, IsStore}
use kvaccel.Master.{Env, State, track, tracker_size}
use kvaccel.Master.Write.{put, is_high}
use kvaccel.Master.Coherence.{IsCoherent, from_main, put-calm, put-stalled}
use kvaccel.Master.History.{written, brought}
use kvaccel.Master.History.Effects.{tracked, times-calm, tracked-migrate, Told}

module _ (e : Env) where
  module _ (main : IsStore e.main)
      (accepts : (d : e.main.State) (k v : Bytes) → (e.main.put d k v).0 ≡ ok) where
    get-put_far :
        (d : e.main.State) (k v j : Bytes)
        → (track e k == track e j) ≡ false
        → e.main.get (e.main.put d k v).1 j ≡ e.main.get d j
    get-put_far d k v j far =
        main.get-put_ne d k j v (λ (q : k ≡ j). absurd (ground (arith, far, ap (track e) q)))

    -- A key's own write into the Main-LSM.
    from_main-put :
        (s s' : State e) (k v j value : Bytes)
        → s'.main ≡ (e.main.put s.main k v).1
        → k ≡ j
        → from_main e s' j value ≡ (ok, v)
    from_main-put s s' k v j value put_there k_is_j =
        subst (λ x. from_main e s' x value ≡ (ok, v)) k_is_j
          (rw (put_there, main.get-put s.main k v (accepts s.main k v)) refl)

    Told-stalled :
        (s : State e) (k v j value : Bytes)
        → IsCoherent e s
        → is_high s.monitor_l0_status ≡ true
        → Told e j value (written true k v) s (put e s k v).1
    Told-stalled s k v j value c high = record {
      counts =
          rw (put-stalled e s k v high)
            (times-insert tracker_size s.key_tracker (track e k) (track e j) k c.sized);
      moves = λ its_own. rw (put-stalled e s k v high) refl;
    }

    Told-calm :
        (s : State e) (k v j value : Bytes)
        → IsCoherent e s
        → is_high s.monitor_l0_status ≡ false
        → Told e j value (written false k v) s (put e s k v).1
    Told-calm s k v j value c calm = record {
      counts = rw (put-calm e s k v calm) (times-calm e s k (track e j) c);
      moves = λ its_own. elim (Bool-cases (track e k == track e j)) [
        | inl same ↦ rw same (
            from_main-put s (put e s k v).1 k v j value (rw (put-calm e s k v calm) refl)
              (bytes_eq→eq k j (ground (arith, same, its_own))))
        | inr other ↦ rw (put-calm e s k v calm, other, get-put_far s.main k v j other) refl
      ];
    }

    pub Told-put :
        (s : State e) (k v j value : Bytes)
        → IsCoherent e s
        → Told e j value (written (is_high s.monitor_l0_status) k v) s (put e s k v).1
    Told-put s k v j value c = elim (Bool-cases (is_high s.monitor_l0_status)) [
      | inl high ↦ rw high (Told-stalled s k v j value c high)
      | inr calm ↦ rw calm (Told-calm s k v j value c calm)
    ]

    main-migrate :
        (s : State e) (k v : Bytes)
        → HashMap.contains tracker_size s.key_tracker (track e k) ≡ true
        → (migrate e s k v).main ≡ (e.main.put s.main k v).1
    unfolding migrate
    main-migrate s k v there = rw there refl

    from_main-migrate_far :
        (s : State e) (k v j value : Bytes)
        → (track e k == track e j) ≡ false
        → from_main e (migrate e s k v) j value ≡ from_main e s j value
    unfolding migrate
    from_main-migrate_far s k v j value far = ground (arith, get-put_far s.main k v j far)

    main-migrate_untracked :
        (s : State e) (k v : Bytes)
        → HashMap.contains tracker_size s.key_tracker (track e k) ≡ false
        → (migrate e s k v).main ≡ s.main
    unfolding migrate
    main-migrate_untracked s k v out = rw out refl

    pub Told-migrate :
        (s : State e) (k v j value : Bytes)
        → IsCoherent e s
        → Told e j value (brought k v) s (migrate e s k v)
    Told-migrate s k v j value c = record {
      counts = tracked-migrate e s k v j c;
      moves = λ its_own. elim (Bool-cases (track e k == track e j)) [
        | inl same ↦
            let there = contains-eq-ltb tracker_size s.key_tracker (track e j) in
            let number : track e k ≡ track e j = ground (arith, same) in
            elim (Bool-cases (ltb 0 (tracked e s j))) [
              | inl some' ↦
                  rw (same, some')
                    (from_main-put s (migrate e s k v) k v j value
                      (main-migrate s k v (rw number (there ∙ some')))
                      (bytes_eq→eq k j (ground (arith, same, its_own))))
              | inr none' ↦
                  rw (same, none', main-migrate_untracked s k v (rw number (there ∙ none'))) refl
            ]
        | inr far ↦ rw far (from_main-migrate_far s k v j value far)
      ];
    }
