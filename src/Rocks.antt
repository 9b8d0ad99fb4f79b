-- ===== src/Rocks.antt =====
-- The RocksDB instance that kvaccel/db/db_impl/db_impl_master.cc drives (the Main-LSM). It is not
-- part of this repository: its calls are a parameter, with their documented behaviour as laws.
use kvaccel.Base.{ℕ, ◌≡◌, ◌≢◌, Bool, true, false}
use kvaccel.Base.Int.{ℤ}
use kvaccel.Base.Bytes.{Bytes}

-- rocksdb::Status; `failed` stands for every other code.
pub data Status : Type 0 where
  ok not_found not_supported : Status
  failed : ℕ → Status

-- `Status::ok()`
abbrev pub is_ok : Status → Bool
is_ok ok = true
is_ok not_found = false
is_ok not_supported = false
is_ok (failed n) = false

-- The options that the source reads.
pub record Options : Type 0 where
  pub write_buffer_size : ℕ
  pub max_write_buffer_number : ℕ
  pub level0_stop_writes_trigger : ℤ
  pub level0_file_num_compaction_trigger : ℤ
  pub soft_pending_compaction_bytes_limit : ℕ
  pub hard_pending_compaction_bytes_limit : ℕ

-- A property is given as the number that `stoi` or `stoull` reads from its text.
pub record MainLsm : Type 1 where
  pub State : Type 0
  pub Iter : Type 0
  pub open_db : Options → Bytes → Status × State
  pub name_of : State → Bytes
  pub destroy_db : Bytes → Options → Status
  pub put : State → Bytes → Bytes → Status × State
  pub get : State → Bytes → Status × Bytes
  pub num_files_at_level0 : State → ℤ
  pub size_all_mem_tables : State → ℕ
  pub estimate_pending_compaction_bytes : State → ℕ
  pub new_iterator : State → Iter
  pub seek : Iter → Bytes → Iter
  pub seek_to_first : Iter → Iter
  pub seek_to_last : Iter → Iter
  pub valid : Iter → Bool
  pub key : Iter → Bytes
  pub value : Iter → Bytes
  pub next : Iter → Iter
  pub prev : Iter → Iter

-- What a client of RocksDB relies on: a write that is acknowledged is read back, and changes no
-- other key.
pub record IsStore (m : MainLsm) : Type 0 where
  pub get-put :
      (s : m.State) (k v : Bytes) → (m.put s k v).0 ≡ ok → m.get (m.put s k v).1 k ≡ (ok, v)
  pub get-put_ne : (s : m.State) (k j v : Bytes) → k ≢ j → m.get (m.put s k v).1 j ≡ m.get s j
