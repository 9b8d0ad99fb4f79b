-- ===== src/Bench/Prefixes.antt =====
-- What the first four bytes of the keys of integration/tools/db_bench_tool.cc tell of them: they are
-- all that `DB_MASTER::DoubleHash` and the device's commands read of a key.
use kvaccel.Base.{
  ℕ, ◌/◌, ◌%◌, ◌≤◌, ◌<◌, ◌^◌, ◌≡◌, ◌≢◌, refl, sym, ◌∙◌, ap, [], ◌∷◌, get_or, true, some, arith,
}
use Prim.Native.Nat.{min}
use kvaccel.Base.Bytes.{Bytes, first_word}
use kvaccel.HashMap.{contains}
use kvaccel.Rocks.{MainLsm}
use kvaccel.Ilsm.{Host}
use kvaccel.Master.{State, track, tracker_size}
use kvaccel.Master.Coherence.{view}
use kvaccel.Bench.{KeySpec, big_endian, fill_field, generate_key_from_int}
use kvaccel.Bench.Keys.{fill_field-generated}
use kvaccel.Whole.{whole, view-first_word}

first_word-wide :
    (width v : ℕ) → 8 ≤ width → v < 2 ^ 32 → first_word (fill_field width v) ≡ 0 ∷ 0 ∷ 0 ∷ 0 ∷ []
unfolding fill_field big_endian
first_word-wide width v wide small =
    let eight : min width 8 ≡ 8 = omega arith in
    let zeros : (v / 2 ^ 56 % 256 ≡ 0)
        × (v / 2 ^ 48 % 256 ≡ 0)
        × (v / 2 ^ 40 % 256 ≡ 0)
        × (v / 2 ^ 32 % 256 ≡ 0) =
      (omega arith, omega arith, omega arith, omega arith) in
    rw (eight, zeros.0, zeros.1, zeros.2, zeros.3) refl

first_word-four :
    (v w : ℕ)
    → v < 2 ^ 32
    → w < 2 ^ 32
    → first_word (fill_field 4 v) ≡ first_word (fill_field 4 w)
    → v ≡ w
unfolding fill_field big_endian
first_word-four v w small small' same =
    let d0 : v / 2 ^ 24 % 256 ≡ w / 2 ^ 24 % 256 = ap (λ b. get_or b 0 0) same in
    let d1 : v / 2 ^ 16 % 256 ≡ w / 2 ^ 16 % 256 = ap (λ b. get_or b 1 0) same in
    let d2 : v / 2 ^ 8 % 256 ≡ w / 2 ^ 8 % 256 = ap (λ b. get_or b 2 0) same in
    let d3 : v / 2 ^ 0 % 256 ≡ w / 2 ^ 0 % 256 = ap (λ b. get_or b 3 0) same in
    omega (arith, small, small', d0, d1, d2, d3)

-- With the keys of four bytes that the workload script asks for, no existing keys and no prefixes,
-- different numbers below 2^32 have keys with different first four bytes.
pub first_word-generate_key_from_int :
    (spec : KeySpec) (v w n : ℕ) (k j : Bytes)
    → spec.keys ≡ []
    → spec.keys_per_prefix ≡ 0
    → spec.key_size ≡ 4
    → v < 2 ^ 32
    → w < 2 ^ 32
    → generate_key_from_int spec v n ≡ some k
    → generate_key_from_int spec w n ≡ some j
    → v ≢ w
    → first_word k ≢ first_word j
first_word-generate_key_from_int spec v w n k j none_given plain four small small' made made' apart
      same =
    let e : fill_field 4 v ≡ k =
      rw four at (fill_field-generated spec v n k none_given plain made) in
    let e' : fill_field 4 w ≡ j =
      rw four at (fill_field-generated spec w n j none_given plain made') in
    apart (first_word-four v w small small' (rw (e, e') same))

module _ (m : MainLsm) (murmur : Bytes → ℕ → ℕ × ℕ) (h : Host) where
  -- Over the device of this program, with keys of eight bytes or more, no existing keys and no
  -- prefixes, as by default: while the key of one number below 2^32 is tracked, the key of any
  -- other such number reads the same.
  pub view-generate_key_from_int :
      (spec : KeySpec) (v w n : ℕ) (k j value : Bytes) (s : State (whole m murmur h))
      → spec.keys ≡ []
      → spec.keys_per_prefix ≡ 0
      → 8 ≤ spec.key_size
      → v < 2 ^ 32
      → w < 2 ^ 32
      → generate_key_from_int spec v n ≡ some k
      → generate_key_from_int spec w n ≡ some j
      → contains tracker_size s.key_tracker (track (whole m murmur h) k) ≡ true
      → view (whole m murmur h) s k value ≡ view (whole m murmur h) s j value
  view-generate_key_from_int spec v w n k j value s none_given plain wide small small' made made' =
      let e = fill_field-generated spec v n k none_given plain made in
      let e' = fill_field-generated spec w n j none_given plain made' in
      view-first_word m murmur h s k j value (
        rw (sym e, sym e')
          (first_word-wide spec.key_size v wide small
            ∙ sym (first_word-wide spec.key_size w wide small')))
