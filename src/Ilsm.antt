-- ===== src/Ilsm.antt =====
-- kvaccel/include/rocksdb/iLSM.h: the state of `iLSM::DB` and of the file-level variables of
-- kvaccel/db/db_impl/iLSM.cc, the command that goes to the device, and the host that carries it.
pub mod Passthru
pub mod Buffer
pub mod Point
pub mod Bulk
pub mod Scan
pub mod Device
pub mod Stats
pub mod Report
use kvaccel.Base.{
  ℕ, zero, suc, ◌+◌, ◌≡◌, Bool, true, false, Option, none, some, List, [], ◌∷◌, ltb, if◌then◌else◌,
  set, get_or, length,
}
use kvaccel.Base.Int.{ℤ}
use kvaccel.Base.Bytes.{Bytes}
use kvaccel.Memory.{Memory}

-- struct nvme_passthru_cmd, but for the address of the data, which is handed over as contents.
pub record Command : Type 0 where
  pub opcode : ℕ
  pub flags : ℕ
  pub rsvd1 : ℕ
  pub nsid : ℕ
  pub cdw2 : ℕ
  pub cdw3 : ℕ
  pub metadata_len : ℕ
  pub data_len : ℕ
  pub cdw10 : ℕ
  pub cdw11 : ℕ
  pub cdw12 : ℕ
  pub cdw13 : ℕ
  pub cdw14 : ℕ
  pub cdw15 : ℕ
  pub timeout_ms : ℕ

-- What ioctl answers: its value (negative on failure, or an NVMe status), `cmd.result`, and the
-- data buffer after the call.
pub record Reply : Type 0 where
  pub err : ℤ
  pub result : ℕ
  pub contents : Memory

-- The calls into the operating system and the device. `indeterminate` is what the program finds in
-- a local variable that it has not assigned.
pub record Host : Type 1 where
  pub World : Type 0
  pub ioctl : ℤ → Command → Memory → World → Reply × World
  pub now : World → ℕ × World
  pub posix_memalign : ℕ → World → Option Memory × World
  pub open_file : Bytes → World → ℤ × World
  -- `fstat`: `none` if it fails, and otherwise whether it is a character or block device
  pub is_device : ℤ → World → Option Bool
  pub indeterminate : World → ℕ × World

-- Where C++ leaves the behaviour undefined the model goes on as written beside each use, and notes
-- the place here.
pub data Fault : Type 0 where
  stat_index : ℕ → Fault
  count_overflow : ℕ → Fault
  bad_iterator : ℕ → Fault
  past_buffer : ℕ → Fault
  unassigned : Fault
  empty_list : Fault

-- OP_STAT and PASSTHRU_STAT: the time of each kind of operation, which falls where the clock goes
-- back, and the number of them.
pub record Stat : Type 0 where
  pub t : List ℤ
  pub c : List ℕ

pub record BufferingInfo : Type 0 where
  pub is_init_required : Bool
  pub value_log : Memory
  pub value_log_offset : ℕ
  pub kv_pair : Memory
  pub kv_pair_offset : ℕ
  pub buffering_cnt : ℕ

pub record Ilsm (World : Type 0) : Type 0 where
  pub world : World
  pub faults : List Fault
  pub fd : ℤ
  pub op_stat : Stat
  pub passthru_stat : Stat
  pub buffering_info : BufferingInfo
  pub iter_keys : List Bytes
  pub iter_values : List Bytes
  -- the file-level arrays, one place for each iterator
  pub values : List (List Bytes)
  pub keys : List (List Bytes)
  pub scan_cnt : List ℕ
  pub brk_point_key : List ℕ

-- A method reads and writes the state.
abbrev pub M : Type 0 → Type 0 → Type 0
M W A = Ilsm W → A × Ilsm W

infixl 5 ◌>>=◌ ◌>>◌
abbrev pub ◌>>=◌ : {W A B : Type 0} → M W A → (A → M W B) → M W B
◌>>=◌ m f s = f (m s).0 (m s).1

abbrev pub ◌>>◌ : {W A B : Type 0} → M W A → M W B → M W B
◌>>◌ m k s = k (m s).1

abbrev pub pure : {W A : Type 0} → A → M W A
pure a s = (a, s)

abbrev pub note : {W : Type 0} → Fault → M W (Unit {0})
note f s = (tt, record s { faults = f ∷ s.faults })

-- A call into the host.
abbrev pub host : {W A : Type 0} → (W → A × W) → M W A
host call s = ((call s.world).0, record s { world = (call s.world).1 })

-- A local variable that may not have been assigned.
abbrev pub read_local : (h : Host) → Option ℕ → M h.World ℕ
read_local h (some n) = pure n
read_local h none = do note unassigned; host h.indeterminate
