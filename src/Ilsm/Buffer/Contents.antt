-- ===== src/Ilsm/Buffer/Contents.antt =====
-- What the write buffer of kvaccel/db/db_impl/iLSM.cc holds: a list of pairs, oldest first.
use kvaccel.Base.{
  ℕ, zero, suc, ◌+◌, ◌*◌, ◌^◌, ◌≤◌, ◌<◌, ◌≡◌, refl, ap, ◌-◌, ◌==◌, if◌then◌else◌, List, [], ◌∷◌,
  ◌++◌, arith, length, replicate,
}
use kvaccel.Base.Bytes.{Bytes, bytes32, first_word}
use kvaccel.Memory.{Memory, write_at, word_at, Lies}
use kvaccel.Ilsm.{BufferingInfo}
use kvaccel.Ilsm.Buffer.{strncpy, zeros, last_block, u32}

abbrev pub Pairs : Type 0
Pairs = List (Bytes × Bytes)

-- The pages that a value takes.
abbrev pub pages : Bytes → ℕ
pages value = u32 (last_block (length value) + 1)

abbrev pub total_pages : Pairs → ℕ
total_pages [] = 0
total_pages ((key, value) ∷ es) = pages value + total_pages es

-- The text of a value: its bytes before the first zero byte.
abbrev pub text : Bytes → Bytes
text [] = []
text (x ∷ b) = if x == 0 then [] else x ∷ text b

-- As many bytes as the value has: its text, and zeros behind it.
abbrev pub as_text : Bytes → Bytes
as_text value = text value ++ replicate (length value - length (text value)) 0

-- The entries from the n-th on, with their values from a page on: the key's first word, the page
-- and the length, and the value's text with zeros behind it.
abbrev pub Holds : Memory → Memory → ℕ → ℕ → Pairs → Type 0
Holds kv vl n page [] = Unit {0}
Holds kv vl n page ((key, value) ∷ es) =
    Lies kv (n * 12) (first_word key)
    × (word_at kv (n * 12 + 4) ≡ page)
    × (word_at kv (n * 12 + 8) ≡ length value)
    × Lies vl (page * 4096) (as_text value)
    × Holds kv vl (suc n) (page + pages value) es

-- The buffer stands for these pairs.
pub record IsBuffer (b : BufferingInfo) (es : Pairs) : Type 0 where
  pub held : Holds b.kv_pair b.value_log 0 0 es
  pub pair_count : b.kv_pair_offset ≡ length es
  pub page_count : b.value_log_offset ≡ total_pages es
  pub entry_count : b.buffering_cnt ≡ length es

length-zeros : (b : Bytes) → length (zeros b) ≡ length b
unfolding zeros
length-zeros [] = refl
length-zeros (x ∷ b) = ap suc (length-zeros b)

pub length-strncpy : (b : Bytes) → length (strncpy b) ≡ length b
unfolding strncpy
length-strncpy [] = refl
length-strncpy (zero ∷ b) = ap suc (length-zeros b)
length-strncpy (suc x ∷ b) = ap suc (length-strncpy b)

-- The pages of a value hold it.
pub length-le-pages : (value : Bytes) → length value < 2 ^ 32 → length value ≤ pages value * 4096
length-le-pages value h = omega arith

abbrev pub AllShort : Pairs → Type 0
AllShort [] = Unit {0}
AllShort ((key, value) ∷ es) = (length value < 2 ^ 32) × AllShort es

-- The twelve bytes of an entry, as they are written.
write_pair : Memory → ℕ → Bytes → ℕ → ℕ → Memory
write_pair kv o key page len =
    write_at (write_at (write_at kv o (first_word key)) (o + 4) (bytes32 page)) (o + 8)
      (bytes32 len)

module _ (kv : Memory) (o : ℕ) (key : Bytes) (page len : ℕ) where
  first : Memory
  first = write_at kv o (first_word key)

  second : Memory
  second = write_at first (o + 4) (bytes32 page)
