-- ===== src/Master/Rollback.antt =====
-- `DB_MASTER::Rollback_Consumer` of kvaccel/db/db_impl/db_impl_master.cc: the thread that moves the
-- entries of the Dev-LSM back into the Main-LSM once the stall is over.
pub mod Drain
pub mod Preserve
pub mod Rounds
use kvaccel.Base.{
  ℕ, zero, suc, Bool, true, false, ◌&&◌, Option, none, some, List, [], ◌∷◌, ◌==◌, if◌then◌else◌,
}
use kvaccel.Base.Int.{ℤ, pos, negsuc, is_neg, leb_ℤ}
use kvaccel.Base.Bytes.{Bytes}
use kvaccel.HashMap
use kvaccel.DevLsm.{start_key}
use kvaccel.Master.{State, Env, track, tracker_size}
use kvaccel.Master.Monitor.{monitor}

-- The local variables of the thread, which outlive one rollback.
pub record Cursor : Type 0 where
  pub flag : ℤ
  pub iter_id : ℕ
  pub key : Bytes
  pub value : Bytes

-- As the thread starts: `flag = -2`. The source leaves `iter_id` unassigned; `CreateIter` sets it
-- where it succeeds.
abbrev pub fresh_cursor : Cursor
fresh_cursor = record { flag = negsuc 1; iter_id = 0; key = []; value = [] }

-- `flag == -3`: the scan is over.
abbrev pub is_end : ℤ → Bool
is_end (pos n) = false
is_end (negsuc n) = n == 2

-- A round of the inner loop goes on or breaks.
pub data Round (S : Type 0) : Type 0 where
  again : S → Cursor → Round S
  finished : S → Cursor → Round S

module _ (e : Env) where
  -- Under `rollback_mtx`: only an entry that is still tracked is moved.
  unfoldable pub migrate : State e → Bytes → Bytes → State e
  migrate s key value =
      if HashMap.contains tracker_size s.key_tracker (track e key)
      then record s {
        key_tracker = HashMap.delete tracker_size s.key_tracker (track e key);
        main = (e.main.put s.main key value).1;
      }
      else s

  unfoldable pub start_scan : State e → Cursor → Round (State e)
  unfolding migrate monitor
  start_scan s c =
      let (_, id, dev) = e.dev.create_iter s.dev c.iter_id in
      let (flag, key, value, dev') = e.dev.seek_scan dev id start_key c.value in
      again (monitor e (migrate (record s { dev = dev' }) key value))
        (record { flag = flag; iter_id = id; key = key; value = value })

  -- The device is empty again, and the tracker with it.
  unfoldable pub reset_device : State e → State e
  reset_device s = record s {
    dev = (e.dev.reset s.dev).1;
    key_tracker = HashMap.clear s.key_tracker;
    kache_flag = 0;
    rollback_flag = 0;
  }

  unfoldable pub continue_scan : State e → Cursor → Round (State e)
  unfolding migrate monitor reset_device
  continue_scan s c =
      let (flag, key, value, dev) = e.dev.next_scan s.dev c.iter_id c.key c.value in
      if is_end flag
      then finished (reset_device (record s { dev = dev }))
          (record { flag = negsuc 1; iter_id = c.iter_id; key = key; value = value })
      else again (monitor e (migrate (record s { dev = dev }) key value))
          (record { flag = flag; iter_id = c.iter_id; key = key; value = value })

  unfoldable pub round : State e → Cursor → Round (State e)
  unfolding start_scan continue_scan
  round s c = if is_neg c.flag then start_scan s c else continue_scan s c

  -- The inner `while (true)`; `none` means that the fuel ran out.
  unfoldable pub rollback_loop : ℕ → State e → Cursor → Option (State e × Cursor)
  rollback_loop zero s c = none
  rollback_loop (suc fuel) s c = elim (round s c) [
    | again s' c' ↦ rollback_loop fuel s' c'
    | finished s' c' ↦ some (s', c')
  ]

  -- One turn of the outer loop.
  unfoldable pub rollback_turn : ℕ → State e → Cursor → Option (State e × Cursor)
  rollback_turn fuel s c =
      let s' = monitor e s in
      let started = leb_ℤ s'.rollback_status (pos 26) && s'.kache_flag == 1 in
      if s'.rollback_should_exit
      then some (s', c)
      else if started
      then rollback_loop fuel (record s' { rollback_flag = 1 }) c
      else some (s', c)
