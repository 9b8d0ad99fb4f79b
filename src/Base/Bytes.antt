-- ===== src/Base/Bytes.antt =====
-- Byte strings (std::string, raw buffers) as lists of numbers, and the four-byte little-endian
-- words that the source copies in and out of them by memcpy and pointer casts.
use kvaccel.Base.Tests.{◌==◌}
use kvaccel.Base.Lists.{get_or}
use Prim.Native.Char.{code}
use Prim.Native.String.{String}
use Prim.Native.Nat.{ℕ, ◌+◌, ◌*◌, ◌/◌, ◌%◌, ◌^◌, ◌<◌}
use mathlib.Core.Path.{◌≡◌, refl}
use mathlib.Core.Bool.{Bool, true, false, ◌&&◌}
use mathlib.Core.List.{List, [], ◌∷◌, ◌++◌}
use native.Mathlib.Omega.{arith}

abbrev pub Bytes : Type 0
Bytes = List ℕ

-- The bytes of a literal.
abbrev pub codes : String → Bytes
codes String.[] = []
codes (String.◌∷◌ c s) = code c ∷ codes s

-- A `uint32_t` read at an offset; bytes past the end read as 0.
unfoldable pub load32 : Bytes → ℕ → ℕ
load32 b i =
    get_or b i 0
    + 256 * get_or b (i + 1) 0
    + 256 * 256 * get_or b (i + 2) 0
    + 256 * 256 * 256 * get_or b (i + 3) 0

unfoldable pub bytes32 : ℕ → Bytes
bytes32 w = w % 256 ∷ (w / 256) % 256 ∷ (w / (256 * 256)) % 256 ∷ (w / (256 * 256 * 256)) % 256 ∷ []

-- The four bytes at `key.c_str()`; past the end of a shorter key they read as 0.
abbrev pub first_word : Bytes → Bytes
first_word key = get_or key 0 0 ∷ get_or key 1 0 ∷ get_or key 2 0 ∷ get_or key 3 0 ∷ []

unfoldable pub bytes_eq : Bytes → Bytes → Bool
bytes_eq [] [] = true
bytes_eq [] (y ∷ ys) = false
bytes_eq (x ∷ xs) [] = false
bytes_eq (x ∷ xs) (y ∷ ys) = x == y && bytes_eq xs ys

pub load32-bytes32 : (w : ℕ) (r : Bytes) → w < 2 ^ 32 → load32 (bytes32 w ++ r) 0 ≡ w
unfolding load32 bytes32
load32-bytes32 w r h = omega arith

pub bytes_eq_refl : (b : Bytes) → bytes_eq b b ≡ true
unfolding bytes_eq
bytes_eq_refl [] = refl
bytes_eq_refl (x ∷ b) = ground (arith, bytes_eq_refl b)

pub bytes_eq→eq : (a b : Bytes) → bytes_eq a b ≡ true → a ≡ b
unfolding bytes_eq
bytes_eq→eq [] [] h = refl
bytes_eq→eq [] (y ∷ b) h = cc
bytes_eq→eq (x ∷ a) [] h = cc
bytes_eq→eq (x ∷ a) (y ∷ b) h = ground (arith, bytes_eq→eq a b)
