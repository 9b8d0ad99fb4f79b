-- ===== src/Master/Write.antt =====
-- `DB_MASTER::Put`, `Get` and `GetPin` of kvaccel/db/db_impl/db_impl_master.cc. Each runs as one
-- step: the mutexes make it one with respect to the rollback thread.
use kvaccel.Base.{◌+◌, Bool, true, false, [], get_or, ◌==◌, if◌then◌else◌}
use kvaccel.Base.Int.{is_neg}
use kvaccel.Base.Bytes.{Bytes}
use kvaccel.HashMap
use kvaccel.Rocks.{Status, ok, not_found, is_ok}
use kvaccel.Master.{
  Level, Env, State, track, tracker_size, level_zero, level_low, level_middle, level_high,
}

abbrev pub is_high : Level → Bool
is_high level_zero = false
is_high level_low = false
is_high level_middle = false
is_high level_high = true

module _ (e : Env) where
  -- `dbptr_array[0]->DB::Put`
  unfoldable pub main_put : State e → Bytes → Bytes → Status × State e
  main_put s key value = let r = e.main.put s.main key value in (r.0, record s { main = r.1 })

  -- No stall while the Dev-LSM holds entries: the key's entry there is out of date.
  untrack : State e → Bytes → State e
  untrack s key =
      if HashMap.contains tracker_size s.key_tracker (track e key)
      then record s { key_tracker = HashMap.delete tracker_size s.key_tracker (track e key) }
      else s

  put_with_rollback : State e → Bytes → Bytes → Status × State e
  unfolding main_put untrack
  put_with_rollback s key value = main_put (untrack s key) key value

  -- The stall: the result of the device is dropped.
  redirect : State e → Bytes → Bytes → Status × State e
  redirect s key value =
      let r = e.dev.put s.dev key value in
      (
        ok,
        record s {
          kache_flag = 1;
          dev = r.1;
          key_tracker = HashMap.insert tracker_size s.key_tracker (track e key) key;
        },
      )

  unfoldable pub put : State e → Bytes → Bytes → Status × State e
  unfolding main_put put_with_rollback redirect
  put s key value =
      if is_high s.monitor_l0_status
      then redirect s key value
      else if s.kache_flag == 0
      then main_put s key value
      else put_with_rollback s key value

  -- A read answers the status, the value (as it was where nothing is found) and the new state.
  abbrev Read : Type 0
  Read = Status × Bytes × State e

  read_main : State e → Bytes → Bytes → Read
  read_main s key value =
      let r = e.main.get s.main key in
      if is_ok r.0
      then (ok, r.1, record s { times_get = s.times_get + 1 })
      else (not_found, value, s)

  read_dev : State e → Bytes → Bytes → Read
  read_dev s key value =
      let (err, found, dev) = e.dev.get s.dev key [] in
      if is_neg err
      then (not_found, value, record s { dev = dev })
      else (ok, found, record s { dev = dev; times_get = s.times_get + 1 })

  read_tracked : State e → Bytes → Bytes → Read
  unfolding read_main read_dev
  read_tracked s key value =
      if HashMap.contains tracker_size s.key_tracker (track e key)
      then read_dev s key value
      else read_main s key value

  -- The last two branches differ in their locks only.
  unfoldable pub get : State e → Bytes → Bytes → Read
  unfolding read_main read_tracked
  get s key value =
      if s.kache_flag == 0
      then read_main s key value
      else if s.rollback_flag == 1
      then read_tracked s key value
      else read_tracked s key value

  -- `GetPin` still asks for the mark 'a' that `Put` no longer writes; what RocksDB found stays in
  -- the pinned slice also where the call answers NotFound.
  read_marked : State e → Bytes → Bytes → Read
  read_marked s key pinned =
      let r = e.main.get s.main key in
      let marked =
        if get_or r.1 0 0 == b'a'
        then (ok, r.1, record s { times_get = s.times_get + 1 })
        else (not_found, r.1, s) in
      if is_ok r.0 then marked else (not_found, pinned, s)

  unfoldable pub get_pin : State e → Bytes → Bytes → Read
  unfolding read_marked
  get_pin s key pinned =
      if s.kache_flag == 0 then read_marked s key pinned else (not_found, pinned, s)
