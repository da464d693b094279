-- ===== src/Font.antt =====
-- kernel/font.cpp: the decoding of UTF-8. A `const char*` is the memory from it on, a function from
-- offsets to bytes. The masks drop what the cast of a negative `char` to `char32_t` puts above a byte.
mod Tests
pub mod Encode
use Prim.Native.Nat.{bit_and, bit_or}
use mikansaos.Base.{ℕ, zero, suc, ◌*◌, ◌^◌, Bool, ◌&&◌, ltb, leb, if◌then◌else◌}

-- `CountUTF8Size`.
unfoldable pub count_utf8_size : ℕ → ℕ
count_utf8_size c =
    if ltb c 128
    then 1
    else if leb 192 c && ltb c 224
    then 2
    else if leb 224 c && ltb c 240
    then 3
    else if leb 240 c && ltb c 248
    then 4
    else 0

-- The bits that the mask leaves, shifted to the left.
pub masked : ℕ → ℕ → ℕ → ℕ
masked byte mask shift = bit_and byte mask * 2 ^ shift

-- `ConvertUTF8To32`, by the size of the sequence.
pub convert_sized : ℕ → (ℕ → ℕ) → ℕ × ℕ
convert_sized (suc zero) u8 = (u8 0, 1)
convert_sized (suc (suc zero)) u8 = (bit_or (masked (u8 0) 31 6) (masked (u8 1) 63 0), 2)
convert_sized (suc (suc (suc zero))) u8 =
    (bit_or (bit_or (masked (u8 0) 15 12) (masked (u8 1) 63 6)) (masked (u8 2) 63 0), 3)
convert_sized (suc (suc (suc (suc zero)))) u8 = (
  bit_or (bit_or (bit_or (masked (u8 0) 7 18) (masked (u8 1) 63 12)) (masked (u8 2) 63 6))
      (masked (u8 3) 63 0),
  4,
)
convert_sized _ u8 = (0, 0)

-- `ConvertUTF8To32`: the character and the number of its bytes.
unfoldable pub convert_utf8_to32 : (ℕ → ℕ) → ℕ × ℕ
convert_utf8_to32 u8 = convert_sized (count_utf8_size (u8 0)) u8

-- `IsHankaku`: a character of one cell.
unfoldable pub is_hankaku : ℕ → Bool
is_hankaku c = leb c 127
