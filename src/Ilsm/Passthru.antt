-- ===== src/Ilsm/Passthru.antt =====
-- `nvme_passthru`, `finishOp` and `finishPassthru` of kvaccel/db/db_impl/iLSM.cc.
use kvaccel.Base.{
  ℕ, ◌+◌, ◌-◌, ◌*◌, ◌^◌, Bool, false, ◌&&◌, ◌||◌, Option, none, some, ltb, ◌==◌, if◌then◌else◌, set,
  get_or, length,
}
use kvaccel.Base.Int.{ℤ, pos, negsuc, ◌+ℤ◌, sub_ℕ}
use kvaccel.Memory.{Memory}
use kvaccel.Ilsm.{
  Command, Reply, Host, stat_index, count_overflow, Stat, M, ◌>>=◌, ◌>>◌, pure, note, host,
}

-- enum NvmeOpcode, but for the opcode that is unused
abbrev pub kv_put : ℕ
kv_put = 0xA0

abbrev pub kv_get : ℕ
kv_get = 0xA1

abbrev pub kv_iter_create_iter : ℕ
kv_iter_create_iter = 0xA3

abbrev pub kv_iter_seek : ℕ
kv_iter_seek = 0xA4

abbrev pub kv_iter_next : ℕ
kv_iter_next = 0xA5

abbrev pub kv_iter_destroy_iter : ℕ
kv_iter_destroy_iter = 0xA6

abbrev pub kv_range_scan_seek : ℕ
kv_range_scan_seek = 0xA7

abbrev pub kv_range_scan_next : ℕ
kv_range_scan_next = 0xA8

abbrev pub kv_reset : ℕ
kv_reset = 0xAA

abbrev pub v_flush : ℕ
v_flush = 0xAB

abbrev pub kv_flush : ℕ
kv_flush = 0xAC

abbrev pub kv_last : ℕ
kv_last = 0xAD

-- enum class iLSMOp
pub data IlsmOp : Type 0 where
  put get create_iter seek next destroy_iter : IlsmOp

abbrev pub op_index : IlsmOp → ℕ
op_index put = 0
op_index get = 1
op_index create_iter = 2
op_index seek = 3
op_index next = 4
op_index destroy_iter = 5

abbrev pub nsid : ℕ
nsid = 96623821

abbrev pub page_size : ℕ
page_size = 4096

abbrev pub max_buflen : ℕ
max_buflen = 508 * 1024

-- `t[idx] += d; c[idx]++`; past the end nothing is changed, and a count goes past an `int`.
pub add_stat : Stat → ℕ → ℤ → Stat
add_stat st idx d = record {
  t = set st.t idx (get_or st.t idx (pos 0) +ℤ d);
  c = set st.c idx (get_or st.c idx 0 + 1);
}

abbrev pub check_index : {W : Type 0} → ℕ → Stat → M W (Unit {0})
check_index idx st =
    if ltb idx (length st.c)
    then (if ltb (get_or st.c idx 0 + 1) (2 ^ 31) then pure tt else note (count_overflow idx))
    else note (stat_index idx)

unfoldable pub finish_op : {W : Type 0} → IlsmOp → ℤ → M W (Unit {0})
unfolding add_stat
finish_op op d = do
  λ s. check_index (op_index op) s.op_stat s
  λ s. (tt, record s { op_stat = add_stat s.op_stat (op_index op) d })

unfoldable pub finish_passthru : {W : Type 0} → ℕ → ℤ → M W (Unit {0})
unfolding add_stat
finish_passthru opcode d = do
  λ s. check_index (opcode - kv_put) s.passthru_stat s
  λ s. (tt, record s { passthru_stat = add_stat s.passthru_stat (opcode - kv_put) d })

-- The opcodes that report a result.
abbrev pub reports : ℕ → Bool
reports opcode =
    ltb opcode kv_last
    || opcode == kv_reset
    || opcode == kv_range_scan_seek
    || opcode == kv_range_scan_next

-- The ioctl's value, the result where it was assigned, and the data buffer afterwards.
pub record Answer : Type 0 where
  pub err : ℤ
  pub result : Option ℕ
  pub contents : Memory

abbrev is_zero : ℤ → Bool
is_zero (pos n) = n == 0
is_zero (negsuc n) = false

module _ (h : Host) where
  finish : Command → ℕ → Reply → M h.World Answer
  unfolding finish_passthru
  finish cmd st r = do
    ed ← host h.now
    finish_passthru cmd.opcode (sub_ℕ ed st)
    pure (record { err = r.err; result = some r.result; contents = r.contents })

  unfoldable pub nvme_passthru : Command → Memory → M h.World Answer
  unfolding finish
  nvme_passthru cmd contents = do
    st ← host h.now
    r ← λ s. host (h.ioctl s.fd cmd contents) s
    if is_zero r.err && reports cmd.opcode
        then finish cmd st r
        else pure (record { err = r.err; result = none; contents = r.contents })

  -- The clock before and after an operation.
  unfoldable pub timed : {A : Type 0} → IlsmOp → M h.World A → M h.World A
  unfolding finish_op
  timed op action = do
    st ← host h.now
    ret ← action
    ed ← host h.now
    finish_op op (sub_ℕ ed st)
    pure ret

-- The command of a call: all that the callers leave at 0 is 0.
abbrev pub command : ℕ → ℕ → ℕ → ℕ → ℕ → Command
command opcode key blocks count len = record {
  opcode = opcode;
  flags = 0;
  rsvd1 = 0;
  nsid = nsid;
  cdw2 = 0;
  cdw3 = 0;
  metadata_len = 0;
  data_len = len;
  cdw10 = key;
  cdw11 = 0;
  cdw12 = blocks;
  cdw13 = count;
  cdw14 = 0;
  cdw15 = 0;
  timeout_ms = 0;
}
