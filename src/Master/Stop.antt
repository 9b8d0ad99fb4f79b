-- ===== src/Master/Stop.antt =====
-- `DestroyDB_Master` of kvaccel/db/db_impl/db_impl_master.cc and the rollback thread.
use kvaccel.Base.{ℕ, ◌≡◌, some, arith}
use kvaccel.Master.{Env, State}
use kvaccel.Rocks.{Options}
use kvaccel.Master.Lifecycle.{destroy_master}
use kvaccel.Master.Monitor.{monitor}
use kvaccel.Master.Rollback.{Cursor, rollback_turn}

module _ (e : Env) where
  -- After `DestroyDB_Master` the next turn of the rollback thread looks at the monitor and ends,
  -- with any fuel, and moves nothing: both stores are as before.
  pub rollback_turn-destroyed :
      (s : State e) (o : Options) (c : Cursor) (fuel : ℕ)
      → (let s' = (destroy_master e s o).1 in
          (rollback_turn e fuel s' c ≡ some (monitor e s', c))
          × ((monitor e s').main ≡ s.main)
          × ((monitor e s').dev ≡ s.dev))
  unfolding destroy_master rollback_turn monitor
  rollback_turn-destroyed s o c fuel = ground arith
