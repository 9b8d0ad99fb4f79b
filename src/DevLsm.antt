-- ===== src/DevLsm.antt =====
-- The interface of `iLSM::DB` (kvaccel/include/rocksdb/iLSM.h) as db_impl_master.cc uses it: each
-- call answers the C result and the new state; an output argument is passed in and comes back.
use kvaccel.Base.{ℕ, [], ◌∷◌}
use kvaccel.Base.Int.{ℤ}
use kvaccel.Base.Bytes.{Bytes}

-- The bytes of "start", for which the device begins with its smallest key.
abbrev pub start_key : Bytes
start_key = b's' ∷ b't' ∷ b'a' ∷ b'r' ∷ b't' ∷ []

pub record DevLsm : Type 1 where
  pub State : Type 0
  pub open_device : State → ℤ × State
  pub put : State → Bytes → Bytes → ℤ × State
  pub get : State → Bytes → Bytes → ℤ × Bytes × State
  pub create_iter : State → ℕ → ℤ × ℕ × State
  pub seek_scan : State → ℕ → Bytes → Bytes → ℤ × Bytes × Bytes × State
  pub next_scan : State → ℕ → Bytes → Bytes → ℤ × Bytes × Bytes × State
  pub destroy_iter : State → ℕ → ℤ × State
  pub reset : State → ℤ × State
  -- the public arrays `iter_keys` and `iter_values`
  pub iter_key : State → ℕ → Bytes
  pub iter_value : State → ℕ → Bytes
  pub set_iter : State → ℕ → Bytes → Bytes → State
