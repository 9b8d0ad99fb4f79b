-- ===== src/Ilsm/Buffer.antt =====
-- The write buffer of kvaccel/db/db_impl/iLSM.cc (BUFFERING_MODE): `_Buffering`, `_ValueFlush`,
-- `_KeyValueFlush`, `_Flush` and `_Put`.
pub mod Chunks
pub mod Contents
pub mod Pending
pub mod Flushed
pub mod Fuel
use kvaccel.Base.{
  ℕ, zero, suc, ◌+◌, ◌-◌, ◌*◌, ◌/◌, ◌%◌, ◌^◌, Bool, true, false, Option, none, some, List, [], ◌∷◌,
  ◌++◌, ltb, leb, ◌==◌, if◌then◌else◌, length,
}
use kvaccel.Base.Int.{ℤ, pos, negsuc, is_neg}
use kvaccel.Base.Bytes.{Bytes, bytes32, first_word}
use kvaccel.Memory.{Memory, write_at, word_at, from}
use kvaccel.Ilsm.{
  Command, Host, Fault, past_buffer, BufferingInfo, Ilsm, M, ◌>>=◌, ◌>>◌, pure, note, host,
}
use kvaccel.Ilsm.Passthru.{
  Answer, nvme_passthru, timed, command, page_size, v_flush, kv_flush, IlsmOp,
}

abbrev pub limit_value_buffer_entry : ℕ
limit_value_buffer_entry = 128

abbrev pub max_value_buffer_entry : ℕ
max_value_buffer_entry = 341 * 1

abbrev pub max_value_buffer_size : ℕ
max_value_buffer_size = max_value_buffer_entry * page_size

abbrev pub bytes_per_kv_pair : ℕ
bytes_per_kv_pair = 12

abbrev pub max_key_value_buffer_size : ℕ
max_key_value_buffer_size = (max_value_buffer_entry * bytes_per_kv_pair / page_size + 1) * page_size

-- -ENOMEM
abbrev pub enomem : ℤ
enomem = negsuc 11

abbrev pub u32 : ℕ → ℕ
u32 n = n % 2 ^ 32

-- (value.size() - 1) / PAGE_SIZE in `size_t`, cut to `unsigned int`
abbrev pub last_block : ℕ → ℕ
last_block size = u32 ((size + 2 ^ 64 - 1) % 2 ^ 64 / page_size)

zeros : Bytes → Bytes
zeros [] = []
zeros (x ∷ r) = zero ∷ zeros r

-- What strncpy(to, value.c_str(), value.size()) writes: zeros from the first zero byte on.
unfoldable pub strncpy : Bytes → Bytes
unfolding zeros
strncpy [] = []
strncpy (zero ∷ b) = zero ∷ zeros b
strncpy (suc x ∷ b) = suc x ∷ strncpy b

module _ {W : Type 0} where
  abbrev pub set_info : BufferingInfo → M W (Unit {0})
  set_info b s = (tt, record s { buffering_info = b })

  abbrev pub info : M W BufferingInfo
  info s = (s.buffering_info, s)

  -- A write that leaves its allocation.
  abbrev pub check_end : ℕ → ℕ → M W (Unit {0})
  check_end end size = if leb end size then pure tt else note (past_buffer end)

-- The entry that `_Buffering` adds, in buffers that are there.
unfoldable pub append_entry : BufferingInfo → Bytes → Bytes → BufferingInfo
append_entry b key value =
    let v_offset = u32 (b.value_log_offset * page_size) in
    let kv_offset = u32 (b.kv_pair_offset * bytes_per_kv_pair) in
    record b {
      value_log = write_at b.value_log v_offset (strncpy value);
      kv_pair =
          write_at
            (write_at (write_at b.kv_pair kv_offset (first_word key)) (kv_offset + 4)
              (bytes32 b.value_log_offset))
            (kv_offset + 8) (bytes32 (u32 (length value)));
      kv_pair_offset = u32 (b.kv_pair_offset + 1);
      value_log_offset = u32 (b.value_log_offset + u32 (last_block (length value) + 1));
      buffering_cnt = u32 (b.buffering_cnt + 1);
    }

-- The buffers right after their allocation.
abbrev pub fresh_info : Memory → Memory → BufferingInfo
fresh_info value_log kv_pair = record {
  is_init_required = false;
  value_log = value_log;
  value_log_offset = 0;
  kv_pair = kv_pair;
  kv_pair_offset = 0;
  buffering_cnt = 0;
}

-- The length in bytes of all the values, from the last entry of the pair buffer.
abbrev pub total_length : BufferingInfo → ℕ
total_length b =
    let last = u32 (u32 (b.kv_pair_offset + 2 ^ 32 - 1) * bytes_per_kv_pair) in
    u32 (word_at b.kv_pair (last + 4) * page_size + word_at b.kv_pair (last + 8))

abbrev pub chunk_size : ℕ
chunk_size = limit_value_buffer_entry * page_size

-- `cdw13` of the i-th command: its part of the value buffer.
unfoldable pub chunk_length : ℕ → ℕ → ℕ → ℕ
chunk_length v_cnt total i =
    if leb v_cnt (u32 ((i + 1) * limit_value_buffer_entry))
    then u32 (total + 2 ^ 32 - u32 (i * chunk_size))
    else chunk_size

abbrev pub flag_first : ℕ → ℕ
flag_first i = if i == 0 then 1 else 0

-- The last block of a length and the whole blocks that it fills, in `unsigned int`.
abbrev pub blocks_of : ℕ → ℕ
blocks_of len = u32 (len + 2 ^ 32 - 1) / page_size

abbrev pub padded : ℕ → ℕ
padded len = u32 ((blocks_of len + 1) * page_size)

unfoldable pub value_command : ℕ → ℕ → Command
value_command len i = record (command v_flush 0 (blocks_of len % 2 ^ 16) len (padded len)) {
  cdw14 = flag_first i;
}

module _ (h : Host) where
  -- The allocation: whether it succeeded.
  allocate_pairs : Memory → Option Memory → M h.World Bool
  allocate_pairs value_log none = pure false
  allocate_pairs value_log (some kv_pair) = do set_info (fresh_info value_log kv_pair); pure true

  allocate_values : Option Memory → M h.World Bool
  unfolding allocate_pairs
  allocate_values none = pure false
  allocate_values (some value_log) = do
    pairs ← host (h.posix_memalign max_key_value_buffer_size)
    allocate_pairs value_log pairs

  ready : M h.World Bool
  unfolding allocate_values
  ready = do
    b ← info
    if b.is_init_required
        then (do log ← host (h.posix_memalign max_value_buffer_size); allocate_values log)
        else pure true

  insert_pair : Bytes → Bytes → M h.World ℤ
  unfolding append_entry
  insert_pair key value = do
    b ← info
    check_end (u32 (b.value_log_offset * page_size) + length value) max_value_buffer_size
    check_end (u32 (b.kv_pair_offset * bytes_per_kv_pair) + bytes_per_kv_pair)
        max_key_value_buffer_size
    set_info (append_entry b key value)
    pure (pos 0)

  unfoldable pub buffering : Bytes → Bytes → M h.World ℤ
  unfolding ready insert_pair
  buffering key value = do
    allocated ← ready
    if allocated then insert_pair key value else pure enomem

  unfoldable pub flush_chunks : ℕ → BufferingInfo → ℕ → M h.World ℤ
  flush_chunks zero b i = pure (pos 0)
  flush_chunks (suc fuel) b i =
      let send = (do
        let len = chunk_length b.value_log_offset (total_length b) i
        a ← nvme_passthru h (value_command len i) (from b.value_log (u32 (i * chunk_size)))
        if is_neg a.err then pure (negsuc 0) else flush_chunks fuel b (i + 1)) in
      if ltb (u32 (i * limit_value_buffer_entry)) b.value_log_offset then send else pure (pos 0)

  unfoldable pub value_flush : M h.World ℤ
  unfolding flush_chunks
  value_flush = do b ← info; flush_chunks (b.value_log_offset + 1) b 0

  unfoldable pub key_value_flush : M h.World ℤ
  key_value_flush = do
    b ← info
    let len = u32 (b.kv_pair_offset * bytes_per_kv_pair)
    a ← nvme_passthru h (command kv_flush 0 (blocks_of len % 2 ^ 16) len (padded len)) b.kv_pair
    if is_neg a.err then pure (negsuc 1) else pure (pos 0)

  -- The failures are printed and not answered. The buffers are freed: what is left in them is not
  -- read again, since the next pair allocates new ones.
  unfoldable pub flush : M h.World ℤ
  unfolding value_flush key_value_flush
  flush = do
    value_flush
    key_value_flush
    b ← info
    set_info (record b {
      is_init_required = true;
      kv_pair_offset = 0;
      value_log_offset = 0;
      buffering_cnt = 0;
    })
    pure (pos 0)

  unfoldable pub put_now : Bytes → Bytes → M h.World ℤ
  unfolding buffering flush
  put_now key value = do
    ret ← buffering key value
    b ← info
    if b.kv_pair_offset == limit_value_buffer_entry then (do flush; pure ret) else pure ret

  unfoldable pub put : Bytes → Bytes → M h.World ℤ
  unfolding put_now timed
  put key value = timed h IlsmOp.put (put_now key value)
