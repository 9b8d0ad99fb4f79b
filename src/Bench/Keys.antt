-- ===== src/Bench/Keys.antt =====
-- The keys of integration/tools/db_bench_tool.cc: how they keep the numbers that they are made from,
-- and what the four bytes that `DB_MASTER::DoubleHash` reads keep of them.
use kvaccel.Base.{
  ℕ, zero, suc, ◌+◌, ◌-◌, ◌*◌, ◌/◌, ◌%◌, ◌^◌, ◌≤◌, ◌<◌, ◌≡◌, refl, sym, ◌∙◌, ap, arith, length,
  get_or, set, get_or-set_self, Option-cases, none, ◌≢◌, true, false, ltb, ◌==◌, ◌||◌, ◌&&◌, ◌++◌,
  [], some, length-append, length-replicate, replicate, ◌∷◌, inl, inr, Bool-cases,
}
use Prim.Native.Nat.{min}
use mathlib.Core.Option
use mathlib.Core.Option.{some-injective}
use kvaccel.Base.Bytes.{Bytes}
use native.Mathlib.Nat.{
  div-add-mod, div-div-eq-div-mul, mul-add, mul-suc, mul-le-mul_left, mul_assoc, mod-lt,
  mod-eq_of_lt, one-le-pow,
}
use kvaccel.Bench.{KeySpec, big_endian, fill_field, generate_key_from_int, generate_key_for_seek}
use kvaccel.Master.Iterate.{bytes_lt}

-- The bytes of a number below one more byte.
digit : (v d : ℕ) → d * (v / d % 256) + v % d ≡ v % (d * 256)
digit v d =
    let q = v / d in
    let whole : d * q + v % d ≡ v = div-add-mod v d in
    let wider : d * 256 * (v / (d * 256)) + v % (d * 256) ≡ v = div-add-mod v (d * 256) in
    let top : v / (d * 256) ≡ q / 256 = sym (div-div-eq-div-mul v d 256) in
    let parts : d * q ≡ d * (256 * (q / 256)) + d * (q % 256) =
      ap (λ x. d * x) (sym (div-add-mod q 256)) ∙ mul-add d (256 * (q / 256)) (q % 256) in
    let wide' : d * 256 * (q / 256) ≡ d * (256 * (q / 256)) = mul_assoc d 256 (q / 256) in
    let wider' : d * 256 * (q / 256) + v % (d * 256) ≡ v = rw top at wider in
    omega (arith, whole, wider', parts, wide')

pow_byte : (n : ℕ) → 2 ^ (8 * suc n) ≡ 2 ^ (8 * n) * 256
pow_byte n =
    let e : 8 * suc n ≡ suc (suc (suc (suc (suc (suc (suc (suc (8 * n)))))))) = omega arith in
    ap (λ k. 2 ^ k) e ∙ omega arith

digit_byte :
    (n v : ℕ) → v % 2 ^ (8 * suc n) ≡ 2 ^ (8 * n) * (v / 2 ^ (8 * n) % 256) + v % 2 ^ (8 * n)
digit_byte n v = rw (pow_byte n) (sym (digit v (2 ^ (8 * n))))

-- Digit by digit, the order of numbers is the order of their leading digits.
ltb-digits :
    (d a b r s : ℕ) → r < d → s < d → ltb (d * a + r) (d * b + s) ≡ (ltb a b || (a == b && ltb r s))
ltb-digits d a b r s small small' = elim (Bool-cases (ltb a b)) [
  | inl below ↦
      let room : d * suc a ≤ d * b = mul-le-mul_left d (ground arith) in
      ground (arith, room, mul-suc d a)
  | inr h ↦ elim (Bool-cases (a == b)) [
    | inl same ↦ let e : a ≡ b = ground arith in rw e (ground arith)
    | inr h' ↦
        let room : d * suc b ≤ d * a = mul-le-mul_left d (ground arith) in
        ground (arith, room, mul-suc d b)
  ]
]

bytes_lt-big_endian :
    (n v w : ℕ) (rest : Bytes)
    → bytes_lt rest rest ≡ false
    → bytes_lt (big_endian n v ++ rest) (big_endian n w ++ rest)
      ≡ ltb (v % 2 ^ (8 * n)) (w % 2 ^ (8 * n))
unfolding big_endian bytes_lt
bytes_lt-big_endian zero v w rest h = rw h (ground arith)
bytes_lt-big_endian (suc n) v w rest h =
    rw (digit_byte n v, digit_byte n w, bytes_lt-big_endian n v w rest h)
      (sym (
        ltb-digits (2 ^ (8 * n)) (v / 2 ^ (8 * n) % 256) (w / 2 ^ (8 * n) % 256) (v % 2 ^ (8 * n))
          (w % 2 ^ (8 * n)) (mod-lt v (one-le-pow (8 * n) 2 (omega arith)))
          (mod-lt w (one-le-pow (8 * n) 2 (omega arith)))))

pub bytes_lt_refl : (b : Bytes) → bytes_lt b b ≡ false
unfolding bytes_lt
bytes_lt_refl [] = refl
bytes_lt_refl (x ∷ b) = ground (arith, bytes_lt_refl b)

pub bytes_lt-fill_field :
    (width v w : ℕ)
    → v < 2 ^ (8 * min width 8)
    → w < 2 ^ (8 * min width 8)
    → bytes_lt (fill_field width v) (fill_field width w) ≡ ltb v w
unfolding fill_field
bytes_lt-fill_field width v w small small' =
    rw
      (
        bytes_lt-big_endian (min width 8) v w _ (bytes_lt_refl (replicate (width - 8) b'0')),
        mod-eq_of_lt small,
        mod-eq_of_lt small',
      )
      refl

-- What is generated where no keys exist and no prefix is asked for.
pub generate-plain :
    (spec : KeySpec) (v n : ℕ)
    → spec.keys ≡ []
    → spec.keys_per_prefix ≡ 0
    → generate_key_from_int spec v n ≡ some (fill_field spec.key_size v)
unfolding generate_key_from_int
generate-plain spec v n none_given plain = rw none_given (ground (arith, plain))

pub fill_field-generated :
    (spec : KeySpec) (v n : ℕ) (k : Bytes)
    → spec.keys ≡ []
    → spec.keys_per_prefix ≡ 0
    → generate_key_from_int spec v n ≡ some k
    → fill_field spec.key_size v ≡ k
fill_field-generated spec v n k none_given plain made =
    some-injective _ _ (sym (generate-plain spec v n none_given plain) ∙ made)

-- Without existing keys and prefixes, the keys of numbers that fit into the key's leading bytes
-- (eight at most) lie in the order of the numbers.
pub bytes_lt-generate_key_from_int :
    (spec : KeySpec) (v w n : ℕ) (k j : Bytes)
    → spec.keys ≡ []
    → spec.keys_per_prefix ≡ 0
    → v < 2 ^ (8 * min spec.key_size 8)
    → w < 2 ^ (8 * min spec.key_size 8)
    → generate_key_from_int spec v n ≡ some k
    → generate_key_from_int spec w n ≡ some j
    → bytes_lt k j ≡ ltb v w
bytes_lt-generate_key_from_int spec v w n k j none_given plain small small' made made' =
    rw
      (
        sym (fill_field-generated spec v n k none_given plain made),
        sym (fill_field-generated spec w n j none_given plain made'),
      )
      (bytes_lt-fill_field spec.key_size v w small small')

length-big_endian : (n v : ℕ) → length (big_endian n v) ≡ n
unfolding big_endian
length-big_endian zero v = refl
length-big_endian (suc n) v = ap suc (length-big_endian n v)

length-fill_field : (width v : ℕ) → length (fill_field width v) ≡ width
unfolding fill_field
length-fill_field width v =
    rw
      (
        length-append (big_endian (min width 8) v) (replicate (width - 8) b'0'),
        length-big_endian (min width 8) v,
        length-replicate {A = ℕ} (width - 8) b'0',
      )
      (omega arith)

-- A key that is generated, and not taken from existing ones, has exactly `key_size` bytes, with a
-- prefix or without one.
pub length-generate_key_from_int :
    (spec : KeySpec) (v n : ℕ) (k : Bytes)
    → spec.keys ≡ []
    → generate_key_from_int spec v n ≡ some k
    → length k ≡ spec.key_size
unfolding generate_key_from_int
length-generate_key_from_int spec v n k none_given made = ground (
  arith,
  none_given,
  made,
  length-fill_field spec.key_size v,
  length-fill_field spec.prefix_size (v % (n / spec.keys_per_prefix)),
  length-fill_field (spec.key_size - spec.prefix_size) v,
  length-append (fill_field spec.prefix_size (v % (n / spec.keys_per_prefix)))
      (fill_field (spec.key_size - spec.prefix_size) v),
)

-- Byte 8 behind eight bytes and a '0'.
eighth-fill_field :
    (width v : ℕ) (rest : Bytes) → 8 < width → get_or (fill_field width v ++ rest) 8 0 ≡ b'0'
unfolding fill_field big_endian
eighth-fill_field width v rest wide =
    let eight : min width 8 ≡ 8 = omega arith in
    let more : width - 8 ≡ suc (width - 9) = omega arith in rw (eight, more) refl

eighth-generated :
    (spec : KeySpec) (w n : ℕ) (j : Bytes)
    → spec.keys ≡ []
    → 0 < spec.keys_per_prefix
    → 8 < spec.prefix_size
    → generate_key_from_int spec w n ≡ some j
    → get_or j 8 0 ≡ b'0'
unfolding generate_key_from_int
eighth-generated spec w n j none_given prefixed wide made = ground (
  arith,
  none_given,
  prefixed,
  made,
  eighth-fill_field spec.prefix_size (w % (n / spec.keys_per_prefix))
      (fill_field (spec.key_size - spec.prefix_size) w) wide,
)

-- Without existing keys and with a prefix of more than eight bytes that is no longer than the key,
-- no key for a missing prefix is one that is generated for a write.
pub generate_key_for_seek-missing :
    (spec : KeySpec) (v w n : ℕ) (k j : Bytes)
    → spec.keys ≡ []
    → 0 < spec.keys_per_prefix
    → 8 < spec.prefix_size
    → spec.prefix_size ≤ spec.key_size
    → generate_key_for_seek spec true v n ≡ some k
    → generate_key_from_int spec w n ≡ some j
    → k ≢ j
unfolding generate_key_for_seek
generate_key_for_seek-missing spec v w n k j none_given prefixed wide fits made made' same =
    elim (Option-cases (generate_key_from_int spec v n)) [
      | inl missing ↦
          let none_made : Option.map (λ key. set key 8 b'1') none ≡ some k =
            ap (Option.map (λ key. set key 8 b'1')) (sym missing) ∙ made in
          cc
      | inr (k₀, found) ↦
          let changed : some (set k₀ 8 b'1') ≡ some k =
            ap (Option.map (λ key. set key 8 b'1')) (sym found) ∙ made in
          let long : 8 < length k₀ =
            omega (arith, length-generate_key_from_int spec v n k₀ none_given found, wide, fits) in
          let one : get_or k 8 0 ≡ b'1' =
            ap (λ b. get_or b 8 0) (sym (some-injective _ _ changed))
            ∙ get_or-set_self k₀ 8 b'1' 0 long in
          let zero_there = eighth-generated spec w n j none_given prefixed wide made' in
          let one' : get_or j 8 0 ≡ b'1' = ap (λ b. get_or b 8 0) (sym same) ∙ one in
          omega (arith, one', zero_there)
    ]
