-- ===== src/Master/Reopen/Idle.antt =====
-- The threads of kvaccel/db/db_impl/db_impl_master.cc behind `DestroyDB_Master` and `Open`.
use kvaccel.Base.{◌≡◌, refl, false, arith}
use kvaccel.Base.Bytes.{Bytes}
use kvaccel.Rocks.{Options}
use kvaccel.Master.{Env, State, level_low}
use kvaccel.Master.Write.{put, get, get_pin}
use kvaccel.Master.Iterate.{
  iterator_reset, iterator_seek, iterator_next, iterator_destroy, advance_dev,
}
use kvaccel.Master.Lifecycle.{is_minus_one, open_master, destroy_master}
use kvaccel.Master.Rollback.{Cursor}
use kvaccel.Master.Steps.{Step, Run}
use kvaccel.Master.Reopen.{reopen, reopen-keeps}

module _ (e : Env) where
  -- The step is a call of a client, and none of the rollback thread, which looks at the monitor too.
  abbrev pub IsCall : {s s' : State e} {c c' : Cursor} → Step e s c s' c' → Type 0
  IsCall (Step.write s c k v) = Unit {0}
  IsCall (Step.read s c k value) = Unit {0}
  IsCall (Step.read_pin s c k pinned) = Unit {0}
  IsCall (Step.new_iter s c) = Unit {0}
  IsCall (Step.seek s c it k) = Unit {0}
  IsCall (Step.next s c it) = Unit {0}
  IsCall (Step.drop_iter s c) = Unit {0}
  IsCall (Step.watch s c) = ⊥
  IsCall (Step.enter s c low dirty) = ⊥
  IsCall (Step.go_on s s' c c' on went) = ⊥
  IsCall (Step.leave s s' c c' on went) = ⊥

  abbrev pub AreCalls : {s s' : State e} {c c' : Cursor} → Run e s c s' c' → Type 0
  AreCalls (Run.stop s c) = Unit {0}
  AreCalls (Run.and_then step rest) = IsCall step × AreCalls rest

  -- The flag says that the Dev-LSM is empty, and there is no stall.
  pub record IsIdle (s : State e) : Type 0 where
    pub off : s.kache_flag ≡ 0
    pub low : s.monitor_l0_status ≡ level_low

  IsIdle-put : (s : State e) (k v : Bytes) → IsIdle s → IsIdle (put e s k v).1
  unfolding put
  IsIdle-put s k v i = rw (i.low, i.off) (record { off = refl; low = refl })

  IsIdle-get : (s : State e) (k v : Bytes) → IsIdle s → IsIdle (get e s k v).2
  unfolding get
  IsIdle-get s k v i = record { off = ground (arith, i.off); low = ground (arith, i.low) }

  IsIdle-get_pin : (s : State e) (k v : Bytes) → IsIdle s → IsIdle (get_pin e s k v).2
  unfolding get_pin
  IsIdle-get_pin s k v i = record { off = ground (arith, i.off); low = ground (arith, i.low) }

  IsIdle-iterator_reset : (s : State e) → IsIdle s → IsIdle (iterator_reset e s).1
  unfolding iterator_reset
  IsIdle-iterator_reset s i = record { off = ground (arith, i.off); low = ground (arith, i.low) }

  IsIdle-iterator_seek :
      (s : State e) (it : e.main.Iter) (k : Bytes) → IsIdle s → IsIdle (iterator_seek e it s k).1
  unfolding iterator_seek
  IsIdle-iterator_seek s it k i = record {
    off = ground (arith, i.off);
    low = ground (arith, i.low);
  }

  IsIdle-iterator_next :
      (s : State e) (it : e.main.Iter) → IsIdle s → IsIdle (iterator_next e it s).1
  unfolding iterator_next advance_dev
  IsIdle-iterator_next s it i = record { off = ground (arith, i.off); low = ground (arith, i.low) }

  IsIdle-iterator_destroy : (s : State e) → IsIdle s → IsIdle (iterator_destroy e s)
  unfolding iterator_destroy
  IsIdle-iterator_destroy s i = record { off = i.off; low = i.low }

  IsIdle-Step :
      {s s' : State e} {c c' : Cursor} (step : Step e s c s' c')
      → IsCall step
      → IsIdle s
      → IsIdle s'
  IsIdle-Step (Step.write s c k v) t i = IsIdle-put s k v i
  IsIdle-Step (Step.read s c k value) t i = IsIdle-get s k value i
  IsIdle-Step (Step.read_pin s c k pinned) t i = IsIdle-get_pin s k pinned i
  IsIdle-Step (Step.new_iter s c) t i = IsIdle-iterator_reset s i
  IsIdle-Step (Step.seek s c it k) t i = IsIdle-iterator_seek s it k i
  IsIdle-Step (Step.next s c it) t i = IsIdle-iterator_next s it i
  IsIdle-Step (Step.drop_iter s c) t i = IsIdle-iterator_destroy s i
  IsIdle-Step (Step.watch s c) t i = absurd t
  IsIdle-Step (Step.enter s c low dirty) t i = absurd t
  IsIdle-Step (Step.go_on s s' c c' on went) t i = absurd t
  IsIdle-Step (Step.leave s s' c c' on went) t i = absurd t

  IsIdle-Run :
      {s s' : State e} {c c' : Cursor} (run : Run e s c s' c') → AreCalls run → IsIdle s → IsIdle s'
  IsIdle-Run (Run.stop s c) ts i = i
  IsIdle-Run (Run.and_then step rest) (t, ts) i = IsIdle-Run rest ts (IsIdle-Step step t i)

  put-idle :
      (s : State e) (k v : Bytes)
      → IsIdle s
      → ((put e s k v).1.dev ≡ s.dev) × ((put e s k v).1.main ≡ (e.main.put s.main k v).1)
  unfolding put
  put-idle s k v i = rw (i.low, i.off) (refl, refl)

  threads-reopen :
      (s : State e) (o : Options) (name : Bytes)
      → is_minus_one s.checker ≡ false
      → (reopen e s o name).rollback_threads ≡ s.rollback_threads
  unfolding reopen open_master destroy_master
  threads-reopen s o name again = ground (arith, again)

  -- If a database is destroyed and opened again on an object whose thread was started by an
  -- earlier `Open`, no thread is started; and if the one of before has ended, so that only clients
  -- make calls, then whatever they call, the flag goes on to say that the Dev-LSM is empty, there
  -- is never a stall, and the next write, of whatever key and value, leaves the device as it is
  -- and goes to the Main-LSM.
  pub reopen-IsIdle :
      (s : State e) (o : Options) (name k v : Bytes) {s' : State e} {c c' : Cursor}
      → is_minus_one s.checker ≡ false
      → (run : Run e (reopen e s o name) c s' c') → AreCalls run
      → ((reopen e s o name).rollback_threads ≡ s.rollback_threads)
        × IsIdle s'
        × ((put e s' k v).1.dev ≡ s'.dev)
        × ((put e s' k v).1.main ≡ (e.main.put s'.main k v).1)
  reopen-IsIdle s o name k v {s'} again run calls =
      let (off, low, tracker, dev) = reopen-keeps e s o name in
      let idle = IsIdle-Run run calls (record { off = off; low = low }) in
      let (dev', main') = put-idle s' k v idle in (threads-reopen s o name again, idle, dev', main')
