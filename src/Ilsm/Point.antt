-- ===== src/Ilsm/Point.antt =====
-- `Get`, `Seek`, `Next`, `CreateIter`, `DestroyIter` and `Reset` of kvaccel/db/db_impl/iLSM.cc (the
-- variant without GET_FOR_SEEK_AND_NEXT_ILSM and STATELESS_ITERATOR, which is the one compiled).
use kvaccel.Base.{
  ℕ, ◌-◌, ◌/◌, ◌%◌, ◌^◌, Bool, false, none, some, [], ltb, ◌==◌, if◌then◌else◌, set, ◌≡◌, ap,
}
use kvaccel.Base.Int.{ℤ, pos, negsuc, is_neg, to_int32}
use kvaccel.Base.Bytes.{Bytes, load32}
use kvaccel.Memory.{zeroed, read_at}
use kvaccel.Ilsm.{Command, Host, Ilsm, bad_iterator, M, ◌>>=◌, ◌>>◌, pure, note, host, read_local}
use kvaccel.Ilsm.Passthru.{
  Answer, nvme_passthru, timed, command, page_size, max_buflen, kv_get, kv_iter_seek, kv_iter_next,
  kv_iter_create_iter, kv_iter_destroy_iter, kv_reset, IlsmOp,
}
use kvaccel.Ilsm.Buffer.{enomem, check_end, flush, info}

-- The blocks of a full transfer, less one.
abbrev pub full_blocks : ℕ
full_blocks = (max_buflen - 1) / page_size % 2 ^ 16

-- 0x7C1, the device's status for a missing key
abbrev pub no_such_key : ℤ → Bool
no_such_key (pos n) = n == 0x7C1
no_such_key (negsuc n) = false

-- MAX_ITERATOR_NUM and MAX_ITER_NUM
abbrev pub max_iterator_num : ℕ
max_iterator_num = 10

-- A use of the arrays that have a place for each iterator; past the end nothing is changed.
abbrev pub check_iter : {W : Type 0} → ℕ → M W (Unit {0})
check_iter id = if ltb id max_iterator_num then pure tt else note (bad_iterator id)

module _ (h : Host) where
  -- The value of a read that succeeded: its length is the command's result.
  receive : Answer → M h.World (ℤ × Bytes)
  receive a = do
    result ← read_local h a.result
    check_end result max_buflen
    pure (to_int32 result, read_at a.contents 0 result)

  transfer : Command → Bytes → M h.World (ℤ × Bytes)
  unfolding receive
  transfer cmd value = do
    a ← nvme_passthru h cmd zeroed
    if is_neg a.err
        then pure (negsuc 0, value)
        else if no_such_key a.err
        then pure (negsuc 1, value)
        else receive a

  -- `_Get`, `_Seek` and `_Next` are one text but for the command.
  fetch : Command → Bytes → M h.World (ℤ × Bytes)
  unfolding transfer
  fetch cmd value = do
    buffer ← host (h.posix_memalign max_buflen)
    elim buffer [ none ↦ pure (enomem, value) | some m ↦ transfer cmd value ]

  unfoldable pub get : Bytes → Bytes → M h.World (ℤ × Bytes)
  unfolding fetch timed
  get key value =
      timed h IlsmOp.get (fetch (command kv_get (load32 key 0) full_blocks 0 max_buflen) value)

  -- The device is asked for the first four bytes of a key alone.
  pub get-load32 :
      (s : Ilsm h.World) (k j found : Bytes)
      → load32 k 0 ≡ load32 j 0
      → get k found s ≡ get j found s
  unfolding get
  get-load32 s k j found same =
      ap (λ w. timed h IlsmOp.get (fetch (command kv_get w full_blocks 0 max_buflen) found) s) same

  unfoldable pub seek : ℕ → Bytes → Bytes → M h.World (ℤ × Bytes)
  unfolding fetch timed
  seek id key value =
      timed h IlsmOp.seek
        (fetch (command kv_iter_seek (load32 key 0) full_blocks id max_buflen) value)

  unfoldable pub next : ℕ → Bytes → M h.World (ℤ × Bytes)
  unfolding fetch timed
  next id value =
      timed h IlsmOp.next (fetch (command kv_iter_next 0 full_blocks id max_buflen) value)

  -- What is buffered goes to the device before an iterator is made.
  flush_pending : M h.World (Unit {0})
  flush_pending = do b ← info; if b.buffering_cnt == 0 then pure tt else (do flush h; pure tt)

  -- The new iterator's number, or the caller's variable as it was.
  created : ℕ → Answer → M h.World (ℤ × ℕ)
  created id a =
      if is_neg a.err
      then pure (negsuc 0, id)
      else if no_such_key a.err
      then pure (negsuc 1, id)
      else (do result ← read_local h a.result; pure (pos 0, result))

  create_iter_now : ℕ → M h.World (ℤ × ℕ)
  unfolding flush_pending created
  create_iter_now id = do
    flush_pending
    a ← nvme_passthru h (command kv_iter_create_iter 0 0 0 0) zeroed
    created id a

  unfoldable pub create_iter : ℕ → M h.World (ℤ × ℕ)
  unfolding create_iter_now timed
  create_iter id = timed h IlsmOp.create_iter (create_iter_now id)

  -- The value buffer is freed; the key buffer is not.
  unfoldable pub clear_values : ℕ → M h.World (Unit {0})
  clear_values id = do check_iter id; λ s. (tt, record s { values = set s.values id [] })

  unfoldable pub destroyed : ℕ → Answer → M h.World ℤ
  unfolding clear_values
  destroyed id a =
      if is_neg a.err
      then pure (negsuc 0)
      else if no_such_key a.err
      then pure (negsuc 1)
      else (do clear_values id; result ← read_local h a.result; pure (to_int32 result))

  unfoldable pub destroy_iter : ℕ → M h.World ℤ
  unfolding destroyed timed
  destroy_iter id =
      timed h IlsmOp.destroy_iter
        (do a ← nvme_passthru h (command kv_iter_destroy_iter 0 0 id 0) zeroed; destroyed id a)

  -- `keys->clear()` and `values->clear()` are the lists of iterator 0.
  unfoldable pub reset : M h.World ℤ
  reset = do
    λ s. (tt, record s { keys = set s.keys 0 []; values = set s.values 0 [] })
    a ← nvme_passthru h (command kv_reset 0 0 0 max_buflen) zeroed
    pure a.err
