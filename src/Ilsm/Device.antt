-- ===== src/Ilsm/Device.antt =====
-- `iLSM::DB` of kvaccel/db/db_impl/iLSM.cc as the Dev-LSM of db_impl_master.cc: `Open`, the
-- construction, and the interface that the master uses.
use kvaccel.Base.{
  ℕ, Bool, true, false, Option, none, some, [], ◌∷◌, if◌then◌else◌, replicate, get_or, set,
}
use kvaccel.Base.Int.{ℤ, pos, negsuc, is_neg}
use kvaccel.Base.Bytes.{Bytes}
use kvaccel.Memory.{zeroed}
use kvaccel.DevLsm.{DevLsm}
use kvaccel.Ilsm.{Host, Ilsm, Stat, M, ◌>>=◌, ◌>>◌, pure, host}
use kvaccel.Ilsm.Buffer.{put, info, set_info}
use kvaccel.Ilsm.Point.{get, create_iter, destroy_iter, reset, max_iterator_num}
use kvaccel.Ilsm.Scan.{seek_scan, next_scan}

-- `op_stat` has a place for each operation; `passthru_stat` has 9.
abbrev pub stat_of : ℕ → Stat
stat_of n = record { t = replicate n (pos 0); c = replicate n 0 }

-- As the program starts: static storage is zero, and the constructor sets the statistics.
abbrev pub initial : {W : Type 0} → W → Ilsm W
initial world = record {
  world = world;
  faults = [];
  fd = negsuc 0;
  op_stat = stat_of 8;
  passthru_stat = stat_of 9;
  buffering_info = record {
    is_init_required = false;
    value_log = zeroed;
    value_log_offset = 0;
    kv_pair = zeroed;
    kv_pair_offset = 0;
    buffering_cnt = 0;
  };
  iter_keys = replicate max_iterator_num [];
  iter_values = replicate max_iterator_num [];
  values = replicate max_iterator_num [];
  keys = replicate max_iterator_num [];
  scan_cnt = replicate max_iterator_num 0;
  brk_point_key = replicate max_iterator_num 0;
}

-- "/dev/nvme1n1", the device that `DB_MASTER::Open` names
abbrev pub device_path : Bytes
device_path = b'/' ∷ b'd' ∷ b'e' ∷ b'v' ∷ b'/' ∷ b'n' ∷ b'v' ∷ b'm' ∷ b'e' ∷ b'1' ∷ b'n' ∷ b'1' ∷ []

module _ (h : Host) where
  begin_buffering : M h.World ℤ
  begin_buffering = do
    b ← info
    set_info (record b { is_init_required = true; buffering_cnt = 0 })
    pure (pos 0)

  -- After `fstat`: neither a character nor a block device is an error.
  opened : Option Bool → M h.World ℤ
  unfolding begin_buffering
  opened none = pure (negsuc 0)
  opened (some false) = pure (negsuc 0)
  opened (some true) = begin_buffering

  unfoldable pub open_device : Bytes → M h.World ℤ
  unfolding opened
  open_device path = do
    fd ← host (h.open_file path)
    if is_neg fd
        then pure (negsuc 0)
        else (do λ s. (tt, record s { fd = fd }); λ s. opened (h.is_device fd s.world) s)

  -- The triple or pair that a method answers, with the state behind it.
  abbrev flat : {A : Type 0} → (ℤ × A) × Ilsm h.World → ℤ × A × Ilsm h.World
  flat r = (r.0.0, r.0.1, r.1)

  abbrev flat₃ : (ℤ × Bytes × Bytes) × Ilsm h.World → ℤ × Bytes × Bytes × Ilsm h.World
  flat₃ r = (r.0.0, r.0.1, r.0.2, r.1)

  abbrev pub device : DevLsm
  device = record {
    State = Ilsm h.World;
    open_device = open_device device_path;
    put = λ s key value. put h key value s;
    get = λ s key value. flat (get h key value s);
    create_iter = λ s id. flat (create_iter h id s);
    seek_scan = λ s id key value. flat₃ (seek_scan h id key value s);
    next_scan = λ s id key value. flat₃ (next_scan h id key value s);
    destroy_iter = λ s id. destroy_iter h id s;
    reset = reset h;
    iter_key = λ s id. get_or s.iter_keys id [];
    iter_value = λ s id. get_or s.iter_values id [];
    set_iter = λ s id key value. record s {
      iter_keys = set s.iter_keys id key;
      iter_values = set s.iter_values id value;
    };
  }
