-- ===== src/Toy.antt =====
-- Small concrete stand-ins for what the program drives (RocksDB, the device, MurmurHash), at which
-- the tests run and the theorems are applied.
use kvaccel.Base.{
  ℕ, ◌+◌, some, ◌≡◌, ◌≢◌, inl, inr, true, false, List, [], ◌∷◌, if◌then◌else◌, Bool-cases, length,
  replicate, ◌^◌,
}
use kvaccel.Base.Int.{ℤ, pos, negsuc}
use kvaccel.Base.Bytes.{Bytes, first_word, load32, bytes_eq, bytes_eq_refl, bytes_eq→eq}
use kvaccel.Rocks.{Status, ok, not_found, not_supported, failed, MainLsm, IsStore}
use kvaccel.DevLsm.{DevLsm}
use kvaccel.Memory.{zeroed}
use kvaccel.Ilsm.{Host}
use kvaccel.Master.{Env, State, level_low, level_high}

abbrev pub Pairs : Type 0
Pairs = List (Bytes × Bytes)

abbrev pub find : Pairs → Bytes → Status × Bytes
find [] k = (not_found, [])
find ((j, v) ∷ s) k = if bytes_eq j k then (ok, v) else find s k

-- A store that remembers the newest pair first. Its level 0 is empty of files.
abbrev pub main : MainLsm
main = record {
  State = Pairs;
  Iter = Pairs;
  open_db = λ o n. (ok, []);
  name_of = λ s. [];
  destroy_db = λ n o. ok;
  put = λ s k v. (ok, (k, v) ∷ s);
  get = find;
  num_files_at_level0 = λ s. pos 3;
  size_all_mem_tables = λ s. 0;
  estimate_pending_compaction_bytes = λ s. 0;
  new_iterator = λ s. s;
  seek = λ i k. i;
  seek_to_first = λ i. i;
  seek_to_last = λ i. i;
  valid = λ i. false;
  key = λ i. [];
  value = λ i. [];
  next = λ i. i;
  prev = λ i. i;
}

find-cons_ne : (s : Pairs) (k j v : Bytes) → k ≢ j → find ((k, v) ∷ s) j ≡ find s j
find-cons_ne s k j v ne = elim (Bool-cases (bytes_eq k j)) [
  | inl e ↦ absurd (ne (bytes_eq→eq k j e))
  | inr n ↦ rw n
]

pub main-IsStore : IsStore main
main-IsStore = record { get-put = λ s k v h. rw (bytes_eq_refl k); get-put_ne = find-cons_ne }

pub record ToyDev : Type 0 where
  pub store : Pairs
  pub queue : Pairs
  pub shown_key : Bytes
  pub shown_value : Bytes

abbrev answer : Status × Bytes → Bytes → ToyDev → ℤ × Bytes × ToyDev
answer (ok, v) value d = (pos (length v), v, d)
answer (not_found, v) value d = (negsuc 1, value, d)
answer (not_supported, v) value d = (negsuc 1, value, d)
answer (failed n, v) value d = (negsuc 1, value, d)

-- The next pair of the scan, or -3 at its end.
abbrev deliver : Pairs → Bytes → Bytes → ToyDev → ℤ × Bytes × Bytes × ToyDev
deliver [] k v d = (negsuc 2, k, v, d)
deliver ((k', v') ∷ q) k v d = (pos 1, k', v', record d { queue = q })

-- A device that keeps the newest pair of each first word in front.
abbrev pub dev : DevLsm
dev = record {
  State = ToyDev;
  open_device = λ d. (pos 0, d);
  put = λ d k v. (pos 0, record d { store = (first_word k, v) ∷ d.store });
  get = λ d k value. answer (find d.store (first_word k)) value d;
  create_iter = λ d i. (pos 0, 0, d);
  seek_scan = λ d i k v. deliver d.store k v d;
  next_scan = λ d i k v. deliver d.queue k v d;
  destroy_iter = λ d i. (pos 0, d);
  reset = λ d. (pos 0, record d { store = []; queue = [] });
  iter_key = λ d i. d.shown_key;
  iter_value = λ d i. d.shown_value;
  set_iter = λ d i k v. record d { shown_key = k; shown_value = v };
}

abbrev pub toy : Env
toy = record { main = main; dev = dev; murmur = λ b seed. (load32 b 0, 1) }

-- A master before anything is written, with the Dev-LSM empty.
abbrev pub start : State toy
start = record {
  main = [];
  dev = record { store = []; queue = []; shown_key = []; shown_value = [] };
  num_instances = 1;
  kache_flag = 0;
  rollback_flag = 0;
  key_tracker = record { table = replicate 128 []; count = 0 };
  monitor_l0_status = level_low;
  rollback_status = pos 0;
  l0_high = pos 7;
  set_memtable_size = 64;
  soft_limit = 2 ^ 36;
  hard_limit = 2 ^ 38;
  ilsm_iter_id = 0;
  iter_location = 0;
  times_get = 0;
  should_exit = false;
  rollback_should_exit = false;
  l0_stop_trigger = pos 36;
  l0_compaction_trigger = pos 4;
  l0_size = pos 0 ∷ [];
  l0_compaction_db_num = 0;
  total_memtable_size = 128;
  cnt_primary_put = 0;
  cnt_primary_but_over_ctt = 0;
  cnt_primary_get = 0;
  is_open = true;
  checker = pos 1;
  asked_invalid = false;
  rollback_threads = 1;
}

-- The same during a stall.
abbrev pub stalled : State toy
stalled = record start { monitor_l0_status = level_high }

abbrev pub key_a : Bytes
key_a = 97 ∷ 49 ∷ 49 ∷ 49 ∷ []

abbrev pub key_b : Bytes
key_b = 98 ∷ 49 ∷ 49 ∷ 49 ∷ []

abbrev pub value_1 : Bytes
value_1 = 120 ∷ 121 ∷ []

abbrev pub value_2 : Bytes
value_2 = 122 ∷ []

-- A host whose ioctl succeeds with the result 0 and a zeroed buffer; the world counts the commands.
abbrev pub quiet : Host
quiet = record {
  World = ℕ;
  ioctl = λ fd cmd m w. (record { err = pos 0; result = 0; contents = zeroed }, w + 1);
  now = λ w. (w, w);
  posix_memalign = λ n w. (some zeroed, w);
  open_file = λ path w. (pos 3, w);
  is_device = λ fd w. some true;
  indeterminate = λ w. (0, w);
}
