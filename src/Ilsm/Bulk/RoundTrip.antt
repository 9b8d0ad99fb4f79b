-- ===== src/Ilsm/Bulk/RoundTrip.antt =====
-- The transfer format of the bulk scan in kvaccel/db/db_impl/iLSM.cc, and that the host reads back
-- what a device lays out in it.
use kvaccel.Base.{
  ℕ, zero, suc, ◌+◌, ◌*◌, ◌/◌, ◌≤◌, ◌<◌, ◌≡◌, refl, ap, ap₂, List, [], ◌∷◌, map, arith, length,
}
use kvaccel.Base.Bytes.{Bytes}
use kvaccel.Memory.{Memory, word_at, read_at, Lies}
use kvaccel.Ilsm.Bulk.{
  Heads, parse_heads, parse_values, parse_bulk, max_cmd_num, align, value_blocks, block_size,
}

abbrev pub Pairs : Type 0
Pairs = List (Bytes × Bytes)

-- The first part at an offset: for each pair the value's length, not 0, and the key's four bytes;
-- then a zero word.
abbrev pub HeadsAt : Memory → ℕ → Pairs → Type 0
HeadsAt m temp [] = word_at m temp ≡ 0
HeadsAt m temp ((key, value) ∷ es) =
    (word_at m temp ≡ length value)
    × (0 < length value)
    × (read_at m (temp + 4) 4 ≡ key)
    × HeadsAt m (temp + 8) es

-- The second part: the values, each from the start of a block of 4096 bytes, in as many blocks as
-- it needs.
abbrev pub ValuesAt : Memory → ℕ → Pairs → Type 0
ValuesAt m block [] = Unit {0}
ValuesAt m block ((key, value) ∷ es) =
    Lies m (block * 4096) value × ValuesAt m (block + (length value + 4095) / 4096) es

abbrev heads : Pairs → Heads
heads = map (λ e. (length e.1, e.0))

parse_heads-HeadsAt :
    (rounds : ℕ) (m : Memory) (temp : ℕ) (es : Pairs)
    → length es ≤ rounds
    → HeadsAt m temp es
    → parse_heads rounds m temp ≡ (heads es, temp + 8 * length es)
unfolding parse_heads
parse_heads-HeadsAt zero m temp [] h l = ap (λ t. ([], t)) (omega arith)
parse_heads-HeadsAt zero m temp (e ∷ es) h l = absurd (omega arith)
parse_heads-HeadsAt (suc rounds) m temp [] h l = rw l (ap (λ t. ([], t)) (omega arith))
parse_heads-HeadsAt (suc rounds) m temp ((key, value) ∷ es) h l =
    let rest = parse_heads-HeadsAt rounds m (temp + 8) es (omega arith) l.3 in
    ground (arith, rest, l.0, l.1, l.2)

next_block :
    (block len : ℕ)
    → block * 4096 + value_blocks len * block_size ≡ (block + (len + 4095) / 4096) * 4096
next_block block len = ground arith

first_block : (n : ℕ) → align (8 * n) ≡ (8 * n / 4096 + 1) * 4096
first_block n = omega arith

parse_values-ValuesAt :
    (m : Memory) (block : ℕ) (es : Pairs)
    → ValuesAt m block es
    → parse_values m (block * 4096) (map (λ p. p.0) (heads es)) ≡ map (λ e. e.1) es
unfolding parse_values
parse_values-ValuesAt m block [] v = refl
parse_values-ValuesAt m block ((key, value) ∷ es) v =
    let rest = parse_values-ValuesAt m (block + (length value + 4095) / 4096) es v.1 in
    ap₂ ◌∷◌ v.0 (rw (next_block block (length value)) rest)

map-heads : (es : Pairs) → map (λ p. p.1) (heads es) ≡ map (λ e. e.0) es
map-heads [] = refl
map-heads (e ∷ es) = ap (◌∷◌ e.0) (map-heads es)

end_word :
    (m : Memory) (temp : ℕ) (es : Pairs) → HeadsAt m temp es → word_at m (temp + 8 * length es) ≡ 0
end_word m temp [] l = let e : temp + 8 * 0 ≡ temp = omega arith in rw e l
end_word m temp ((key, value) ∷ es) l =
    let e : temp + 8 * length ((key, value) ∷ es) ≡ temp + 8 + 8 * length es = omega arith in
    rw e (end_word m (temp + 8) es l.3)

-- If a transfer holds at most 43691 pairs of a 4-byte key and a value that is not empty in the
-- layout of the device (the lengths and keys, a zero word, and from the next block of 4096 bytes
-- on, a whole block later where they end at a boundary, each value in as many blocks as it needs),
-- the host reads back their keys and their values, in that order.
pub parse_bulk-Pairs :
    (m : Memory) (es : Pairs)
    → length es ≤ max_cmd_num
    → HeadsAt m 0 es
    → ValuesAt m (8 * length es / 4096 + 1) es
    → parse_bulk m ≡ (map (λ e. e.0) es, map (λ e. e.1) es)
unfolding parse_bulk
parse_bulk-Pairs m es h l v =
    let z : 0 + 8 * length es ≡ 8 * length es = omega arith in
    let stop : word_at m (8 * length es) ≡ 0 = rw z at (end_word m 0 es l) in
    rw (parse_heads-HeadsAt max_cmd_num m 0 es h l, z, stop, first_block (length es))
      (ap₂ (λ ks vs. (ks, vs)) (map-heads es)
        (parse_values-ValuesAt m (8 * length es / 4096 + 1) es v))
