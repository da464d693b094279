-- ===== src/Font/Encode.antt =====
-- `ConvertUTF8To32` of kernel/font.cpp against the encoding of characters as UTF-8.
use Prim.Native.Nat.{bit_and, bit_or, bit_or-bitwise}
use native.Mathlib.Nat.{pow-suc, le_refl}
use mikansaos.Base.{
  ℕ, zero, suc, ◌+◌, ◌*◌, ◌/◌, ◌%◌, ◌^◌, ◌≤◌, ◌<◌, ◌≡◌, ap, ◌∙◌, inl, inr, Bool-cases, ltb→lt, List,
  [], ◌∷◌, ltb, if◌then◌else◌, get_or, length, arith,
}
use mikansaos.Base.Bits.{bit_or_lowest, bit_and_lowest, bit_and-zero, twice}
use mikansaos.Font.{count_utf8_size, masked, convert_sized, convert_utf8_to32}

bit_or-zero : (k a : ℕ) → a ≤ k → bit_or a 0 ≡ a
bit_or-zero k zero h = simp bit_or-bitwise (omega arith)
bit_or-zero zero (suc a) h = absurd (omega arith)
bit_or-zero (suc k) (suc a) h =
    omega (arith, bit_or_lowest (suc a) 0, bit_or-zero k (suc a / 2) (omega arith))

-- Numbers whose digits do not meet are added.
bit_or-disjoint : (k x y : ℕ) → y < 2 ^ k → bit_or (x * 2 ^ k) y ≡ x * 2 ^ k + y
bit_or-disjoint zero x zero h = bit_or-zero (x * 1) (x * 1) (le_refl _) ∙ omega arith
bit_or-disjoint zero x (suc y) h = absurd (omega arith)
bit_or-disjoint (suc k) x y h =
    let half : x * 2 ^ suc k / 2 ≡ x * 2 ^ k = omega (arith, twice k x) in
    omega (
      arith,
      bit_or_lowest (x * 2 ^ suc k) y,
      ap (λ (t : ℕ). bit_or t (y / 2)) half,
      bit_or-disjoint k x (y / 2) (omega (arith, pow-suc 2 k)),
      twice k x,
    )

-- The masks of the lowest digits.
mask_1 : (a : ℕ) → bit_and a 1 ≡ a % 2
mask_1 a = omega (arith, bit_and_lowest a 1, bit_and-zero (a / 2) (a / 2) (le_refl _))

mask_3 : (a : ℕ) → bit_and a 3 ≡ a % 4
mask_3 a = omega (arith, bit_and_lowest a 3, mask_1 (a / 2))

mask_7 : (a : ℕ) → bit_and a 7 ≡ a % 8
mask_7 a = omega (arith, bit_and_lowest a 7, mask_3 (a / 2))

mask_15 : (a : ℕ) → bit_and a 15 ≡ a % 16
mask_15 a = omega (arith, bit_and_lowest a 15, mask_7 (a / 2))

mask_31 : (a : ℕ) → bit_and a 31 ≡ a % 32
mask_31 a = omega (arith, bit_and_lowest a 31, mask_15 (a / 2))

mask_63 : (a : ℕ) → bit_and a 63 ≡ a % 64
mask_63 a = omega (arith, bit_and_lowest a 63, mask_31 (a / 2))

-- The encoding of a character below 2 ^ 21.
abbrev pub encode : ℕ → List ℕ
encode c =
    if ltb c 128
    then c ∷ []
    else if ltb c 2048
    then (192 + c / 64) ∷ (128 + c % 64) ∷ []
    else if ltb c 65536
    then (224 + c / 4096) ∷ (128 + c / 64 % 64) ∷ (128 + c % 64) ∷ []
    else (240 + c / 262144) ∷ (128 + c / 4096 % 64) ∷ (128 + c / 64 % 64) ∷ (128 + c % 64) ∷ []

-- The memory holds the bytes.
unfoldable pub Holds : (ℕ → ℕ) → List ℕ → Type 0
Holds u8 bytes = (i : ℕ) → i < length bytes → u8 i ≡ get_or bytes i 0

size_1 : (b : ℕ) → b < 128 → count_utf8_size b ≡ 1
unfolding count_utf8_size
size_1 b h = ground arith

size_2 : (b : ℕ) → 192 ≤ b → b < 224 → count_utf8_size b ≡ 2
unfolding count_utf8_size
size_2 b h k = ground arith

size_3 : (b : ℕ) → 224 ≤ b → b < 240 → count_utf8_size b ≡ 3
unfolding count_utf8_size
size_3 b h k = ground arith

size_4 : (b : ℕ) → 240 ≤ b → b < 248 → count_utf8_size b ≡ 4
unfolding count_utf8_size
size_4 b h k = ground arith

convert_2 :
    (u8 : ℕ → ℕ)
    → count_utf8_size (u8 0) ≡ 2
    → convert_utf8_to32 u8 ≡ (u8 0 % 32 * 64 + u8 1 % 64, 2)
unfolding convert_utf8_to32 convert_sized masked
convert_2 u8 h =
    rw (h, mask_31 (u8 0), mask_63 (u8 1))
      (ap (λ (t : ℕ). (t, 2))
        (bit_or-disjoint 6 (u8 0 % 32) (u8 1 % 64 * 1) (omega arith) ∙ omega arith))

-- The parts of two and of three bytes, joined.
join_two : (a b : ℕ) → b < 64 → bit_or (a * 2 ^ 12) (b * 2 ^ 6) ≡ (a * 64 + b) * 2 ^ 6
join_two a b h = bit_or-disjoint 12 a (b * 2 ^ 6) (omega arith) ∙ omega arith

join_three :
    (a b c : ℕ)
    → b < 64
    → c < 64
    → bit_or (bit_or (a * 2 ^ 12) (b * 2 ^ 6)) (c * 2 ^ 0) ≡ a * 4096 + b * 64 + c
join_three a b c h k =
    ap (λ (t : ℕ). bit_or t (c * 1)) (join_two a b h)
    ∙ bit_or-disjoint 6 (a * 64 + b) (c * 1) (omega arith)
    ∙ omega arith

join_four :
    (a b c d : ℕ)
    → b < 64
    → c < 64
    → d < 64
    → bit_or (bit_or (bit_or (a * 2 ^ 18) (b * 2 ^ 12)) (c * 2 ^ 6)) (d * 2 ^ 0)
      ≡ a * 262144 + b * 4096 + c * 64 + d
join_four a b c d h k l =
    let top : bit_or (a * 2 ^ 18) (b * 2 ^ 12) ≡ (a * 64 + b) * 2 ^ 12 =
      bit_or-disjoint 18 a (b * 2 ^ 12) (omega arith) ∙ omega arith in
    ap (λ (t : ℕ). bit_or (bit_or t (c * 2 ^ 6)) (d * 1)) top
    ∙ join_three (a * 64 + b) c d k l
    ∙ omega arith

convert_3 :
    (u8 : ℕ → ℕ)
    → count_utf8_size (u8 0) ≡ 3
    → convert_utf8_to32 u8 ≡ (u8 0 % 16 * 4096 + u8 1 % 64 * 64 + u8 2 % 64, 3)
unfolding convert_utf8_to32 convert_sized masked
convert_3 u8 h =
    rw (h, mask_15 (u8 0), mask_63 (u8 1), mask_63 (u8 2))
      (ap (λ (t : ℕ). (t, 3))
        (join_three (u8 0 % 16) (u8 1 % 64) (u8 2 % 64) (omega arith) (omega arith)))

convert_4 :
    (u8 : ℕ → ℕ)
    → count_utf8_size (u8 0) ≡ 4
    → convert_utf8_to32 u8 ≡ (u8 0 % 8 * 262144 + u8 1 % 64 * 4096 + u8 2 % 64 * 64 + u8 3 % 64, 4)
unfolding convert_utf8_to32 convert_sized masked
convert_4 u8 h =
    rw (h, mask_7 (u8 0), mask_63 (u8 1), mask_63 (u8 2), mask_63 (u8 3))
      (ap (λ (t : ℕ). (t, 4))
        (join_four (u8 0 % 8) (u8 1 % 64) (u8 2 % 64) (u8 3 % 64) (omega arith) (omega arith)
          (omega arith)))

convert_1 : (u8 : ℕ → ℕ) → count_utf8_size (u8 0) ≡ 1 → convert_utf8_to32 u8 ≡ (u8 0, 1)
unfolding convert_utf8_to32 convert_sized
convert_1 u8 h = rw h (λ i. (u8 0, 1))

decode_1 : (c : ℕ) (u8 : ℕ → ℕ) → c < 128 → Holds u8 (c ∷ []) → convert_utf8_to32 u8 ≡ (c, 1)
unfolding Holds
decode_1 c u8 h holds =
    let first : u8 0 ≡ c = holds 0 (omega arith) in
    convert_1 u8 (ap count_utf8_size first ∙ size_1 c h) ∙ ap (λ (t : ℕ). (t, 1)) first

decode_2 :
    (c : ℕ) (u8 : ℕ → ℕ)
    → 128 ≤ c
    → c < 2048
    → Holds u8 ((192 + c / 64) ∷ (128 + c % 64) ∷ [])
    → convert_utf8_to32 u8 ≡ (c, 2)
unfolding Holds
decode_2 c u8 l h holds =
    let b0 : u8 0 ≡ 192 + c / 64 = holds 0 (omega arith) in
    let b1 : u8 1 ≡ 128 + c % 64 = holds 1 (omega arith) in
    convert_2 u8 (ap count_utf8_size b0 ∙ size_2 (192 + c / 64) (omega arith) (omega arith))
    ∙ ap (λ (t : ℕ). (t, 2)) (omega arith)

decode_3 :
    (c : ℕ) (u8 : ℕ → ℕ)
    → 2048 ≤ c
    → c < 65536
    → Holds u8 ((224 + c / 4096) ∷ (128 + c / 64 % 64) ∷ (128 + c % 64) ∷ [])
    → convert_utf8_to32 u8 ≡ (c, 3)
unfolding Holds
decode_3 c u8 l h holds =
    let b0 : u8 0 ≡ 224 + c / 4096 = holds 0 (omega arith) in
    let b1 : u8 1 ≡ 128 + c / 64 % 64 = holds 1 (omega arith) in
    let b2 : u8 2 ≡ 128 + c % 64 = holds 2 (omega arith) in
    convert_3 u8 (ap count_utf8_size b0 ∙ size_3 (224 + c / 4096) (omega arith) (omega arith))
    ∙ ap (λ (t : ℕ). (t, 3)) (omega arith)

decode_4 :
    (c : ℕ) (u8 : ℕ → ℕ)
    → 65536 ≤ c
    → c < 2097152
    → Holds u8
        ((240 + c / 262144) ∷ (128 + c / 4096 % 64) ∷ (128 + c / 64 % 64) ∷ (128 + c % 64) ∷ [])
    → convert_utf8_to32 u8 ≡ (c, 4)
unfolding Holds
decode_4 c u8 l h holds =
    let b0 : u8 0 ≡ 240 + c / 262144 = holds 0 (omega arith) in
    let b1 : u8 1 ≡ 128 + c / 4096 % 64 = holds 1 (omega arith) in
    let b2 : u8 2 ≡ 128 + c / 64 % 64 = holds 2 (omega arith) in
    let b3 : u8 3 ≡ 128 + c % 64 = holds 3 (omega arith) in
    convert_4 u8 (ap count_utf8_size b0 ∙ size_4 (240 + c / 262144) (omega arith) (omega arith))
    ∙ ap (λ (t : ℕ). (t, 4)) (omega arith)

-- `ConvertUTF8To32` at the UTF-8 encoding of a character below 2 ^ 21 gives the character and the
-- number of its bytes.
pub convert_utf8_to32-encode :
    (c : ℕ) (u8 : ℕ → ℕ)
    → c < 2097152
    → Holds u8 (encode c)
    → convert_utf8_to32 u8 ≡ (c, length (encode c))
convert_utf8_to32-encode c u8 h = elim (Bool-cases (ltb c 128)) [
  | inl one ↦ rw one (decode_1 c u8 (ltb→lt c 128 one))
  | inr more ↦ rw more (elim (Bool-cases (ltb c 2048)) [
    | inl two ↦ rw two (decode_2 c u8 (ground arith) (ltb→lt c 2048 two))
    | inr more_2 ↦ rw more_2 (elim (Bool-cases (ltb c 65536)) [
      | inl three ↦ rw three (decode_3 c u8 (ground arith) (ltb→lt c 65536 three))
      | inr four ↦ rw four (decode_4 c u8 (ground arith) h)
    ])
  ])
]

continuation_size : (b : ℕ) → 128 ≤ b → b < 192 → count_utf8_size b ≡ 0
unfolding count_utf8_size
continuation_size b h k = ground arith

-- A byte that continues a character is no start of one.
pub convert_utf8_to32-continuation :
    (u8 : ℕ → ℕ) → 128 ≤ u8 0 → u8 0 < 192 → convert_utf8_to32 u8 ≡ (0, 0)
unfolding convert_utf8_to32 convert_sized
convert_utf8_to32-continuation u8 h k = rw (continuation_size (u8 0) h k) (λ i. (0, 0))
