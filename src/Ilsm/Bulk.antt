-- ===== src/Ilsm/Bulk.antt =====
-- `DoBulkyScan` and `DoBulkyNextScan` of kvaccel/db/db_impl/iLSM.cc: one transfer that brings a list
-- of <value length, key> pairs and, from the next block on, the values. The two functions are one
-- text but for the start key.
pub mod RoundTrip
use kvaccel.Base.{
  ℕ, zero, suc, ◌+◌, ◌-◌, ◌*◌, ◌/◌, ◌%◌, ◌^◌, Bool, true, false, Option, none, some, List, [], ◌∷◌,
  ◌++◌, map, ltb, ◌==◌, if◌then◌else◌, set, get_or, length,
}
use kvaccel.Base.Int.{ℤ, pos, negsuc, is_neg, to_int32}
use kvaccel.Base.Bytes.{Bytes, load32, bytes_eq}
use kvaccel.Memory.{Memory, zeroed, read_at, word_at}
use kvaccel.DevLsm.{start_key}
use kvaccel.Ilsm.{Host, Ilsm, M, ◌>>=◌, ◌>>◌, pure, host, read_local}
use kvaccel.Ilsm.Passthru.{Answer, nvme_passthru, command, max_buflen}
use kvaccel.Ilsm.Buffer.{enomem}
use kvaccel.Ilsm.Point.{full_blocks, no_such_key, check_iter}

abbrev pub max_cmd_num : ℕ
max_cmd_num = 43691

abbrev pub block_size : ℕ
block_size = 4096

-- A key with the length of its value, as the first part lists them.
abbrev pub Heads : Type 0
Heads = List (ℕ × Bytes)

-- The first part, from an offset on: its entries up to the terminator, and where it stops.
unfoldable pub parse_heads : ℕ → Memory → ℕ → Heads × ℕ
parse_heads zero m temp = ([], temp)
parse_heads (suc rounds) m temp =
    let more : Heads × ℕ =
      (let (heads, end) = parse_heads rounds m (temp + 8) in
        ((word_at m temp, read_at m (temp + 4) 4) ∷ heads, end)) in
    if word_at m temp == 0 then ([], temp) else more

-- Up to the next block; a whole block where the offset is at a boundary already.
abbrev pub align : ℕ → ℕ
align temp = temp + (block_size - temp % block_size)

-- How many blocks a value fills.
abbrev pub value_blocks : ℕ → ℕ
value_blocks len = len / block_size + (if ltb 0 (len % block_size) then 1 else 0)

-- The second part: a value for each length.
unfoldable pub parse_values : Memory → ℕ → List ℕ → List Bytes
parse_values m temp [] = []
parse_values m temp (len ∷ lens) =
    read_at m temp len ∷ parse_values m (temp + value_blocks len * block_size) lens

-- The keys and the values of one transfer. The second part is read only after a terminator.
unfoldable pub parse_bulk : Memory → List Bytes × List Bytes
unfolding parse_heads parse_values
parse_bulk m =
    let (heads, end) = parse_heads max_cmd_num m 0 in
    (
      map (λ p. p.1) heads,
      if word_at m end == 0 then parse_values m (align end) (map (λ p. p.0) heads) else [],
    )

module _ (h : Host) where
  abbrev Next : Type 0
  Next = ℤ × Option ℕ

  -- `push_back` onto the lists of the iterator.
  unfoldable pub push_batch : ℕ → List Bytes × List Bytes → M h.World (Unit {0})
  push_batch id batch = do
    check_iter id
    λ s. (
      tt,
      record s {
        keys = set s.keys id (get_or s.keys id [] ++ batch.0);
        values = set s.values id (get_or s.values id [] ++ batch.1);
      },
    )

  accept : ℕ → Answer → M h.World Next
  unfolding parse_bulk push_batch
  accept id a = do
    push_batch id (parse_bulk a.contents)
    result ← read_local h a.result
    pure (to_int32 result, some result)

  bulk_transfer : ℕ → ℕ → ℕ → M h.World Next
  unfolding accept
  bulk_transfer opcode id key = do
    a ← nvme_passthru h (command opcode key full_blocks id max_buflen) zeroed
    if is_neg a.err
        then pure (negsuc 0, none)
        else if no_such_key a.err
        then pure (negsuc 1, none)
        else accept id a

  bulk : ℕ → ℕ → ℕ → M h.World Next
  unfolding bulk_transfer
  bulk opcode id key = do
    buffer ← host (h.posix_memalign max_buflen)
    elim buffer [ none ↦ pure (enomem, none) | some m ↦ bulk_transfer opcode id key ]

  -- The key "start" stands for 0.
  unfoldable pub do_bulky_scan : ℕ → ℕ → Bytes → M h.World Next
  unfolding bulk
  do_bulky_scan opcode id key = bulk opcode id (if bytes_eq key start_key then 0 else load32 key 0)

  unfoldable pub do_bulky_next_scan : ℕ → ℕ → ℕ → M h.World Next
  unfolding bulk
  do_bulky_next_scan opcode id key = bulk opcode id key
