-- ===== src/Ilsm/Buffer/Flushed.antt =====
-- What `_Flush` of kvaccel/db/db_impl/iLSM.cc sends, over a device that takes every command and
-- writes it down.
use kvaccel.Base.{
  ℕ, zero, suc, ◌+◌, ◌-◌, leb, ◌==◌, if◌then◌else◌, ◌/◌, ◌*◌, ◌%◌, ◌^◌, ◌≤◌, ◌<◌, ◌≡◌, refl, ap,
  sym, ◌∙◌, true, false, some, List, [], ◌∷◌, ◌++◌, arith, ltb, append_nil, append_snoc,
}
use kvaccel.Base.Int.{pos}
use kvaccel.Memory.{Memory, zeroed, from, word_at}
use kvaccel.Ilsm.{Command, Host, Ilsm, BufferingInfo}
use kvaccel.Ilsm.Passthru.{nvme_passthru, command, kv_flush}
use kvaccel.Ilsm.Buffer.{
  flush_chunks, value_command, chunk_length, total_length, chunk_size, limit_value_buffer_entry,
  max_value_buffer_entry, u32, value_flush, key_value_flush, flush, blocks_of, padded,
  bytes_per_kv_pair,
}

-- The commands with their data, the first one in front.
abbrev pub Log : Type 0
Log = List (Command × Memory)

abbrev pub recorder : Host
recorder = record {
  World = Log;
  ioctl = λ fd cmd m w. (record { err = pos 0; result = 0; contents = m }, w ++ (cmd, m) ∷ []);
  now = λ w. (0, w);
  posix_memalign = λ n w. (some zeroed, w);
  open_file = λ path w. (pos 3, w);
  is_device = λ fd w. some true;
  indeterminate = λ w. (0, w);
}

-- A command as the device is to get it: its opcode, how many bytes it carries, and whether it is
-- the first of a buffer's values. The length is rounded up to pages of 4096 bytes, and the number of
-- blocks is one less than the pages, in 16 bits.
abbrev pub carrying : ℕ → ℕ → ℕ → Command
carrying opcode len first = record {
  opcode = opcode;
  flags = 0;
  rsvd1 = 0;
  nsid = 96623821;
  cdw2 = 0;
  cdw3 = 0;
  metadata_len = 0;
  data_len = ((len + 4095) / 4096 * 4096) % 2 ^ 32;
  cdw10 = 0;
  cdw11 = 0;
  cdw12 = ((len - 1) / 4096) % 2 ^ 16;
  cdw13 = len;
  cdw14 = first;
  cdw15 = 0;
  timeout_ms = 0;
}

-- The bytes of all values: up to where the last pair says that its value ends.
abbrev pub end_of_values : BufferingInfo → ℕ
end_of_values b =
    word_at b.kv_pair ((b.kv_pair_offset - 1) * 12 + 4) * 4096
    + word_at b.kv_pair ((b.kv_pair_offset - 1) * 12 + 8)

-- What the i-th part of 128 pages carries, of so many pages that hold so many bytes.
abbrev pub part_length : ℕ → ℕ → ℕ → ℕ
part_length pages total i = if leb pages ((i + 1) * 128) then total - i * 524288 else 524288

-- So many parts of the value buffer, from the i-th on, each with its command.
abbrev pub parts : BufferingInfo → ℕ → ℕ → Log
parts b i zero = []
parts b i (suc n) =
    (
      carrying 0xAB (part_length b.value_log_offset (end_of_values b) i) (if i == 0 then 1 else 0),
      from b.value_log (i * 524288),
    )
    ∷ parts b (i + 1) n

passthru-recorded :
    (cmd : Command) (m : Memory) (s : Ilsm Log)
    → (let r = nvme_passthru recorder cmd m s in
        (r.0.err ≡ pos 0)
        × (r.1.world ≡ s.world ++ (cmd, m) ∷ [])
        × (r.1.buffering_info ≡ s.buffering_info))
unfolding nvme_passthru
passthru-recorded cmd m s = ground arith

-- The command that carries the pairs, of twelve bytes each.
abbrev pub pair_command : BufferingInfo → Command
pair_command b = carrying 0xAC (b.kv_pair_offset * 12) 0

-- The same with the commands that the code makes.
abbrev sent : BufferingInfo → ℕ → ℕ → Log
sent b i zero = []
sent b i (suc n) =
    (
      value_command (chunk_length b.value_log_offset (total_length b) i) i,
      from b.value_log (i * chunk_size),
    )
    ∷ sent b (i + 1) n

flush_chunks-sent :
    (m fuel : ℕ) (b : BufferingInfo) (i : ℕ) (s : Ilsm Log)
    → b.value_log_offset ≤ max_value_buffer_entry
    → m ≤ fuel
    → b.value_log_offset ≤ (i + m) * limit_value_buffer_entry
    → (i + m) * limit_value_buffer_entry < b.value_log_offset + limit_value_buffer_entry
    → (let r = flush_chunks recorder fuel b i s in
        (r.0 ≡ pos 0)
        × (r.1.world ≡ s.world ++ sent b i m)
        × (r.1.buffering_info ≡ s.buffering_info))
unfolding flush_chunks
flush_chunks-sent zero zero b i s small enough ends starts = (refl, sym (append_nil s.world), refl)
flush_chunks-sent zero (suc k) b i s small enough ends starts =
    let over : ltb (u32 (i * limit_value_buffer_entry)) b.value_log_offset ≡ false = ground arith in
    rw over (refl, sym (append_nil s.world), refl)
flush_chunks-sent (suc m) zero b i s small enough ends starts = absurd (omega arith)
flush_chunks-sent (suc m) (suc k) b i s small enough ends starts =
    let cmd = value_command (chunk_length b.value_log_offset (total_length b) i) i in
    let bytes = from b.value_log (i * chunk_size) in
    let there : ltb (u32 (i * limit_value_buffer_entry)) b.value_log_offset ≡ true = ground arith in
    let place : u32 (i * chunk_size) ≡ i * chunk_size = omega arith in
    let (taken, logged, kept) = passthru-recorded cmd bytes s in
    let (done, rest, kept') =
      flush_chunks-sent m k b (i + 1) (nvme_passthru recorder cmd bytes s).1 small (omega arith)
        (omega arith) (omega arith) in
    rw (there, place, taken)
      (done, rest ∙ ap (λ w. w ++ sent b (i + 1) m) logged ∙ append_snoc s.world _ _, kept' ∙ kept)

-- The command that the code makes for the pairs.
abbrev sent_pairs : BufferingInfo → Command
sent_pairs b =
    let len = u32 (b.kv_pair_offset * bytes_per_kv_pair) in
    command kv_flush 0 (blocks_of len % 2 ^ 16) len (padded len)

key_value_flush-recorded :
    (s : Ilsm Log)
    → (let r = key_value_flush recorder s in
        (r.1.world ≡ s.world ++ (sent_pairs s.buffering_info, s.buffering_info.kv_pair) ∷ [])
        × (r.1.buffering_info ≡ s.buffering_info))
unfolding key_value_flush
key_value_flush-recorded s =
    let (taken, logged, kept) =
      passthru-recorded (sent_pairs s.buffering_info) s.buffering_info.kv_pair s in
    rw taken (logged, kept)

command-carrying :
    (opcode len : ℕ)
    → 0 < len
    → len < 2 ^ 31
    → command opcode 0 (blocks_of len % 2 ^ 16) len (padded len) ≡ carrying opcode len 0
command-carrying opcode len some' small =
    let blocks : blocks_of len ≡ (len - 1) / 4096 = omega arith in
    let whole : padded len ≡ ((len + 4095) / 4096 * 4096) % 2 ^ 32 = omega arith in
    rw (whole, blocks) refl

value_command-carrying :
    (len i : ℕ)
    → 0 < len
    → len < 2 ^ 31
    → value_command len i ≡ carrying 0xAB len (if i == 0 then 1 else 0)
unfolding value_command
value_command-carrying len i some' small =
    ap {A = Command} {B = Command} (λ c. record c { cdw14 = if i == 0 then 1 else 0 })
      (command-carrying 0xAB len some' small)

-- The pairs are there, and the last value ends in the last page.
pub record IsFull (b : BufferingInfo) : Type 0 where
  pub some_pairs : 0 < b.kv_pair_offset
  pub few_pairs : b.kv_pair_offset ≤ 128
  pub last_page : b.value_log_offset * 4096 < end_of_values b + 4096
  pub within : end_of_values b ≤ b.value_log_offset * 4096

total_length-end_of_values :
    (b : BufferingInfo)
    → IsFull b
    → b.value_log_offset ≤ max_value_buffer_entry
    → total_length b ≡ end_of_values b
total_length-end_of_values b full small =
    let place : u32 (u32 (b.kv_pair_offset + 2 ^ 32 - 1) * bytes_per_kv_pair)
        ≡ (b.kv_pair_offset - 1) * 12 =
      omega (arith, full.some_pairs, full.few_pairs) in
    rw place (omega (arith, full.within, full.last_page))

chunk_length-part_length :
    (pages total i : ℕ)
    → pages ≤ max_value_buffer_entry
    → i * 128 < pages
    → pages * 4096 < total + 4096
    → total ≤ pages * 4096
    → (chunk_length pages total i ≡ part_length pages total i)
      × (0 < part_length pages total i)
      × (part_length pages total i < 2 ^ 31)
unfolding chunk_length
chunk_length-part_length pages total i small there last within =
    let short : u32 ((i + 1) * limit_value_buffer_entry) ≡ (i + 1) * 128 = omega arith in
    let place : u32 (i * chunk_size) ≡ i * 524288 = omega arith in
    let rest : u32 (total + 2 ^ 32 - i * 524288) ≡ total - i * 524288 = omega arith in
    rw (short, place) (ground (arith, rest))

sent-parts :
    (b : BufferingInfo) (i n : ℕ)
    → IsFull b
    → b.value_log_offset ≤ max_value_buffer_entry
    → (i + n) * limit_value_buffer_entry < b.value_log_offset + limit_value_buffer_entry
    → sent b i n ≡ parts b i n
sent-parts b i zero full small starts = refl
sent-parts b i (suc n) full small starts =
    let (len, some', below) =
      chunk_length-part_length b.value_log_offset (end_of_values b) i small (omega arith)
        full.last_page full.within in
    rw
      (
        total_length-end_of_values b full small,
        len,
        value_command-carrying (part_length b.value_log_offset (end_of_values b) i) i some' below,
        sent-parts b (i + 1) n full small (omega arith),
      )
      refl

sent_pairs-pair_command : (b : BufferingInfo) → IsFull b → sent_pairs b ≡ pair_command b
sent_pairs-pair_command b full =
    let len : u32 (b.kv_pair_offset * bytes_per_kv_pair) ≡ b.kv_pair_offset * 12 =
      omega (arith, full.few_pairs) in
    rw len (
      command-carrying 0xAC (b.kv_pair_offset * 12) (omega (arith, full.some_pairs))
        (omega (arith, full.few_pairs)))

-- For a buffer of one to 128 pairs and at most 341 pages, in the last of which the last value
-- ends, that fill n parts of 128 pages, the last one in part, `_Flush` over a device that takes
-- every command answers 0, sends the n parts in their order and then the pairs, and leaves an
-- empty buffer that has to be allocated again. The command of a part is 0xAB and carries 524288
-- bytes or, in the last part, what is left, with 1 in cdw14 for the first part and 0 for the
-- others; that of the pairs is 0xAC and carries twelve bytes for each; the length is in cdw13, and
-- rounded up to pages in data_len, and cdw12 has the pages less one.
pub flush-parts :
    (s : Ilsm Log) (n : ℕ)
    → IsFull s.buffering_info
    → s.buffering_info.value_log_offset ≤ max_value_buffer_entry
    → s.buffering_info.value_log_offset ≤ n * limit_value_buffer_entry
    → n * limit_value_buffer_entry < s.buffering_info.value_log_offset + limit_value_buffer_entry
    → (let b = s.buffering_info in
        let r = flush recorder s in
        (r.0 ≡ pos 0)
        × (r.1.world ≡ s.world ++ parts b 0 n ++ (pair_command b, b.kv_pair) ∷ [])
        × (r.1.buffering_info ≡ record b {
          is_init_required = true;
          kv_pair_offset = 0;
          value_log_offset = 0;
          buffering_cnt = 0;
        }))
unfolding flush value_flush
flush-parts s n full small ends starts =
    let b = s.buffering_info in
    let (done, logged, kept) =
      flush_chunks-sent n (b.value_log_offset + 1) b 0 s small (omega arith) (omega arith)
        (omega arith) in
    let s' = (flush_chunks recorder (b.value_log_offset + 1) b 0 s).1 in
    let (pairs, kept') = key_value_flush-recorded s' in
    let parted = sent-parts b 0 n full small (omega arith) in
    (
      refl,
      pairs ∙ rw (kept, logged, parted, sent_pairs-pair_command b full) refl,
      rw (kept', kept) refl,
    )
