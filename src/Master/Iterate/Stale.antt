-- ===== src/Master/Iterate/Stale.antt =====
-- The place of the merged iterator of kvaccel/db/db_impl/db_impl_master.cc across a rollback.
use kvaccel.Base.{◌≡◌, arith}
use kvaccel.Base.Bytes.{Bytes}
use kvaccel.Master.{Env, State}
use kvaccel.Master.Iterate.{iterator_seek, iterator_key, dev_key}
use kvaccel.Master.Rollback.{reset_device}

module _ (e : Env) where
  open e.main use {Iter}

  -- If the iterator stood on the Dev-LSM when a rollback reset it, a seek afterwards goes on
  -- giving the key of the Dev-LSM's iterator, whatever the Main-LSM holds.
  pub key-seek_rolled_back :
      (it : Iter) (s : State e) (k : Bytes)
      → s.iter_location ≡ 1
      → (let s' = reset_device e s in
          iterator_key e (iterator_seek e it s' k).0 (iterator_seek e it s' k).1 ≡ dev_key e s')
  unfolding iterator_key iterator_seek reset_device
  key-seek_rolled_back it s k on_dev = ground arith
