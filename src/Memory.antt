-- ===== src/Memory.antt =====
-- Raw buffers of kvaccel/db/db_impl/iLSM.cc: the byte at each offset from the buffer's address. The
-- offsets that lie inside the allocation are the code's affair, and its writes are checked there.
use kvaccel.Base.{
  ℕ, zero, suc, ◌+◌, ◌-◌, ◌*◌, ◌^◌, ◌<◌, ◌≤◌, ◌≡◌, refl, ap₂, subst, ◌∙◌, ◌&&◌, [], ◌∷◌, arith, ltb,
  leb, if◌then◌else◌, length, get_or,
}
use kvaccel.Base.Bytes.{Bytes, bytes32}

abbrev pub Memory : Type 0
Memory = ℕ → ℕ

-- memset(data, 0, …)
abbrev pub zeroed : Memory
zeroed i = 0

-- memcpy to an offset
unfoldable pub write_at : Memory → ℕ → Bytes → Memory
write_at m offset b i =
    if leb offset i && ltb i (offset + length b) then get_or b (i - offset) 0 else m i

-- The bytes from an offset on.
unfoldable pub read_at : Memory → ℕ → ℕ → Bytes
read_at m offset zero = []
read_at m offset (suc n) = m offset ∷ read_at m (offset + 1) n

-- A `uint32_t` at an offset.
unfoldable pub word_at : Memory → ℕ → ℕ
word_at m offset =
    m offset + 256 * m (offset + 1) + 256 * 256 * m (offset + 2) + 256 * 256 * 256 * m (offset + 3)

-- The buffer seen from an address inside it.
abbrev pub from : Memory → ℕ → Memory
from m offset i = m (offset + i)

pub write_at-before :
    (m : Memory) (offset i : ℕ) (b : Bytes) → i < offset → write_at m offset b i ≡ m i
unfolding write_at
write_at-before m offset i b h = ground arith

pub write_at-after :
    (m : Memory) (offset i : ℕ) (b : Bytes) → offset + length b ≤ i → write_at m offset b i ≡ m i
unfolding write_at
write_at-after m offset i b h = ground arith

pub write_at-inside :
    (m : Memory) (offset i : ℕ) (b : Bytes)
    → i < length b
    → write_at m offset b (offset + i) ≡ get_or b i 0
unfolding write_at
write_at-inside m offset i b h = ground arith

-- A word that was written is read back.
pub word_at-write_at-bytes32 :
    (m : Memory) (offset w : ℕ) → w < 2 ^ 32 → word_at (write_at m offset (bytes32 w)) offset ≡ w
unfolding word_at write_at bytes32
word_at-write_at-bytes32 m offset w h = ground arith

-- Two buffers that agree below an offset read alike there.
abbrev pub SameBelow : Memory → Memory → ℕ → Type 0
SameBelow m m' end = (i : ℕ) → i < end → m' i ≡ m i

pub read_at-same :
    (m m' : Memory) (end offset n : ℕ)
    → SameBelow m m' end
    → offset + n ≤ end
    → read_at m' offset n ≡ read_at m offset n
unfolding read_at
read_at-same m m' end offset zero same h = refl
read_at-same m m' end offset (suc n) same h =
    ap₂ ◌∷◌ (same offset (omega arith)) (read_at-same m m' end (offset + 1) n same (omega arith))

pub word_at-same :
    (m m' : Memory) (end offset : ℕ)
    → SameBelow m m' end
    → offset + 4 ≤ end
    → word_at m' offset ≡ word_at m offset
unfolding word_at
word_at-same m m' end offset same h = rw (
  same offset (omega arith),
  same (offset + 1) (omega arith),
  same (offset + 2) (omega arith),
  same (offset + 3) (omega arith),
)

-- A text lies at an offset.
abbrev pub Lies : Memory → ℕ → Bytes → Type 0
Lies m offset b = read_at m offset (length b) ≡ b

Lies-of :
    (m : Memory) (offset : ℕ) (b : Bytes)
    → ((j : ℕ) → j < length b → m (offset + j) ≡ get_or b j 0)
    → Lies m offset b
unfolding read_at
Lies-of m offset [] h = refl
Lies-of m offset (x ∷ b) h =
    let e : offset + 0 ≡ offset = omega arith in
    ap₂ ◌∷◌ (subst (λ k. m k ≡ x) e (h 0 (omega arith))) (
      Lies-of m (offset + 1) b λ j hj.
        let e' : offset + 1 + j ≡ offset + suc j = omega arith in rw e' (h (suc j) (omega arith)))

pub Lies-write_at : (m : Memory) (offset : ℕ) (b : Bytes) → Lies (write_at m offset b) offset b
Lies-write_at m offset b =
    Lies-of (write_at m offset b) offset b (λ j. write_at-inside m offset j b)

-- A write leaves what lies below it.
pub SameBelow-write_at :
    (m : Memory) (offset end : ℕ) (b : Bytes) → end ≤ offset → SameBelow m (write_at m offset b) end
SameBelow-write_at m offset end b h i below = write_at-before m offset i b (omega arith)

pub SameBelow-trans :
    (m m' m'' : Memory) (end end' : ℕ)
    → SameBelow m m' end
    → SameBelow m' m'' end'
    → end ≤ end'
    → SameBelow m m'' end
SameBelow-trans m m' m'' end end' p q h i below = q i (omega arith) ∙ p i below
