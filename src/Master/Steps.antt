-- ===== src/Master/Steps.antt =====
-- Every order in which calls of `DB_MASTER` (kvaccel/db/db_impl/db_impl_master.cc) and the rounds of
-- its rollback thread may follow one another. The locks allow fewer orders than these.
use kvaccel.Base.{◌≡◌, refl, inl, inr, true, arith, subst, sym, ◌∙◌, Bool-cases}
use kvaccel.Base.Int.{pos, leb_ℤ, is_neg}
use kvaccel.Base.Bytes.{Bytes}
use kvaccel.HashMap.Laws.{IsSized-clear, contains-clear}
use kvaccel.Master.{Env, State, tracker_size}
use kvaccel.Master.Write.{put, get, get_pin, is_high}
use kvaccel.Master.Monitor.{monitor}
use kvaccel.Master.Iterate.{iterator_reset, iterator_seek, iterator_next, iterator_destroy}
use kvaccel.Master.Rollback.{
  Cursor, Round, again, finished, migrate, start_scan, continue_scan, reset_device, round, is_end,
}
use kvaccel.Master.Rollback.Rounds.{IsCoherent-migrate}
use kvaccel.Master.Coherence.{IsCoherent, put-IsCoherent, put-calm, put-stalled}

module _ (e : Env) where
  open e.main use {Iter}

  -- One call, or one round of the thread with its local variables.
  pub data Step : State e → Cursor → State e → Cursor → Type 0 where
    write : (s : State e) (c : Cursor) (k v : Bytes) → Step s c (put e s k v).1 c
    read : (s : State e) (c : Cursor) (k value : Bytes) → Step s c (get e s k value).2 c
    read_pin : (s : State e) (c : Cursor) (k pinned : Bytes) → Step s c (get_pin e s k pinned).2 c
    new_iter : (s : State e) (c : Cursor) → Step s c (iterator_reset e s).1 c
    seek :
        (s : State e) (c : Cursor) (it : Iter) (k : Bytes) → Step s c (iterator_seek e it s k).1 c
    next : (s : State e) (c : Cursor) (it : Iter) → Step s c (iterator_next e it s).1 c
    drop_iter : (s : State e) (c : Cursor) → Step s c (iterator_destroy e s) c
    watch : (s : State e) (c : Cursor) → Step s c (monitor e s) c
    enter :
        (s : State e) (c : Cursor)
        → leb_ℤ s.rollback_status (pos 26) ≡ true
        → s.kache_flag ≡ 1
        → Step s c (record s { rollback_flag = 1 }) c
    go_on :
        (s s' : State e) (c c' : Cursor)
        → s.rollback_flag ≡ 1
        → round e s c ≡ again s' c'
        → Step s c s' c'
    leave :
        (s s' : State e) (c c' : Cursor)
        → s.rollback_flag ≡ 1
        → round e s c ≡ finished s' c'
        → Step s c s' c'

  -- Any number of steps.
  pub data Run : State e → Cursor → State e → Cursor → Type 0 where
    stop : (s : State e) (c : Cursor) → Run s c s c
    and_then :
        {s₁ s₂ s₃ : State e} {c₁ c₂ c₃ : Cursor}
        → Step s₁ c₁ s₂ c₂
        → Run s₂ c₂ s₃ c₃
        → Run s₁ c₁ s₃ c₃

  -- One run and then another.
  pub joined :
      {s₁ s₂ s₃ : State e} {c₁ c₂ c₃ : Cursor} → Run s₁ c₁ s₂ c₂ → Run s₂ c₂ s₃ c₃ → Run s₁ c₁ s₃ c₃
  joined (stop s c) rest = rest
  joined (and_then step more) rest = and_then step (joined more rest)

  -- Coherent, and rolled back only while the Dev-LSM is in use.
  pub record IsSound (s : State e) : Type 0 where
    pub coherent : IsCoherent e s
    pub rolling : s.rollback_flag ≡ 1 → s.kache_flag ≡ 1

  -- The fields that soundness is about are the same.
  abbrev pub Agree : State e → State e → Type 0
  Agree s s' =
      (s'.key_tracker ≡ s.key_tracker)
      × (s'.kache_flag ≡ s.kache_flag)
      × (s'.rollback_flag ≡ s.rollback_flag)

  IsSound-Agree : (s s' : State e) → Agree s s' → IsSound s → IsSound s'
  IsSound-Agree s s' (tracker, kache, rollback) i = record {
    coherent = record {
      sized = rw tracker i.coherent.sized;
      unused = λ z j. rw tracker (i.coherent.unused (sym kache ∙ z) j);
    };
    rolling = λ on. kache ∙ i.rolling (sym rollback ∙ on);
  }

  Agree-get : (s : State e) (k value : Bytes) → Agree s (get e s k value).2
  unfolding get
  Agree-get s k value = ground arith

  Agree-get_pin : (s : State e) (k pinned : Bytes) → Agree s (get_pin e s k pinned).2
  unfolding get_pin
  Agree-get_pin s k pinned = ground arith

  Agree-iterator_reset : (s : State e) → Agree s (iterator_reset e s).1
  unfolding iterator_reset
  Agree-iterator_reset s = ground arith

  Agree-iterator_seek : (s : State e) (it : Iter) (k : Bytes) → Agree s (iterator_seek e it s k).1
  unfolding iterator_seek
  Agree-iterator_seek s it k = ground arith

  Agree-iterator_next : (s : State e) (it : Iter) → Agree s (iterator_next e it s).1
  unfolding iterator_next
  Agree-iterator_next s it = ground arith

  IsSound-iterator_destroy : (s : State e) → IsSound s → IsSound (iterator_destroy e s)
  unfolding iterator_destroy
  IsSound-iterator_destroy s i = IsSound-Agree s _ (refl, refl, refl) i

  IsSound-put : (s : State e) (k v : Bytes) → IsSound s → IsSound (put e s k v).1
  IsSound-put s k v i = record {
    coherent = put-IsCoherent e s k v i.coherent;
    rolling = λ on. elim (Bool-cases (is_high s.monitor_l0_status)) [
      | inl high ↦ rw (put-stalled e s k v high)
      | inr calm ↦ rw (put-calm e s k v calm) (i.rolling (rw (put-calm e s k v calm) at on))
    ];
  }

  IsSound-migrate : (s : State e) (k v : Bytes) → IsSound s → IsSound (migrate e s k v)
  unfolding migrate
  IsSound-migrate s k v i = record {
    coherent = IsCoherent-migrate e s k v i.coherent;
    rolling = λ on. ground (arith, on, i.rolling);
  }

  IsSound-reset_device : (s : State e) → IsSound s → IsSound (reset_device e s)
  unfolding reset_device
  IsSound-reset_device s i = record {
    coherent = record {
      sized = IsSized-clear i.coherent.sized;
      unused = λ z j. contains-clear tracker_size s.key_tracker j;
    };
    rolling = λ on. absurd (omega (arith, on));
  }

  -- The state that a round ends in.
  abbrev After : (State e → Type 0) → Round (State e) → Type 0
  After P (again s c) = P s
  After P (finished s c) = P s

  IsSound-monitor : (s : State e) → IsSound s → IsSound (monitor e s)
  unfolding monitor
  IsSound-monitor s i = IsSound-Agree s (monitor e s) (refl, refl, refl) i

  IsSound-dev : (s : State e) (d : e.dev.State) → IsSound s → IsSound (record s { dev = d })
  IsSound-dev s d i = IsSound-Agree s (record s { dev = d }) (refl, refl, refl) i

  IsSound-moved :
      (s : State e) (d : e.dev.State) (k v : Bytes)
      → IsSound s
      → IsSound (monitor e (migrate e (record s { dev = d }) k v))
  IsSound-moved s d k v i =
      IsSound-monitor (migrate e (record s { dev = d }) k v)
        (IsSound-migrate (record s { dev = d }) k v (IsSound-dev s d i))

  IsSound-start_scan : (s : State e) (c : Cursor) → IsSound s → After IsSound (start_scan e s c)
  unfolding start_scan
  IsSound-start_scan s c i = IsSound-moved s _ _ _ i

  IsSound-continue_scan :
      (s : State e) (c : Cursor) → IsSound s → After IsSound (continue_scan e s c)
  unfolding continue_scan
  IsSound-continue_scan s c i =
      let (flag, key, value, dev) = e.dev.next_scan s.dev c.iter_id c.key c.value in
      elim (Bool-cases (is_end flag)) [
        | inl end ↦ rw end (IsSound-reset_device (record s { dev = dev }) (IsSound-dev s dev i))
        | inr more ↦ rw more (IsSound-moved s dev key value i)
      ]

  IsSound-round : (s : State e) (c : Cursor) → IsSound s → After IsSound (round e s c)
  unfolding round
  IsSound-round s c i = elim (Bool-cases (is_neg c.flag)) [
    | inl neg ↦ rw neg (IsSound-start_scan s c i)
    | inr pos_flag ↦ rw pos_flag (IsSound-continue_scan s c i)
  ]

  pub IsSound-Step : {s s' : State e} {c c' : Cursor} → Step s c s' c' → IsSound s → IsSound s'
  IsSound-Step (write s c k v) i = IsSound-put s k v i
  IsSound-Step (read s c k value) i = IsSound-Agree s _ (Agree-get s k value) i
  IsSound-Step (read_pin s c k value) i = IsSound-Agree s _ (Agree-get_pin s k value) i
  IsSound-Step (new_iter s c) i = IsSound-Agree s _ (Agree-iterator_reset s) i
  IsSound-Step (seek s c it k) i = IsSound-Agree s _ (Agree-iterator_seek s it k) i
  IsSound-Step (next s c it) i = IsSound-Agree s _ (Agree-iterator_next s it) i
  IsSound-Step (drop_iter s c) i = IsSound-iterator_destroy s i
  IsSound-Step (watch s c) i = IsSound-monitor s i
  IsSound-Step (enter s c low dirty) i = record {
    coherent = record { sized = i.coherent.sized; unused = i.coherent.unused };
    rolling = λ on. dirty;
  }
  IsSound-Step (go_on s s' c c' on went) i = subst (After IsSound) went (IsSound-round s c i)
  IsSound-Step (leave s s' c c' on went) i = subst (After IsSound) went (IsSound-round s c i)

  -- Whatever writes, reads, iterator calls, looks of the monitor and rounds of the rollback follow
  -- one another, in any order, a sound state leads to a sound one: the tracker has its buckets,
  -- holds no key while the flag says that the Dev-LSM is empty, and a rollback runs only while
  -- that flag is on.
  pub Run-IsSound : {s s' : State e} {c c' : Cursor} → Run s c s' c' → IsSound s → IsSound s'
  Run-IsSound (stop s c) i = i
  Run-IsSound (and_then step rest) i = Run-IsSound rest (IsSound-Step step i)
