-- ===== src/Memory/Frames.antt =====
-- The bitmap of kernel/memory_manager.cpp as a set of frames.
use Prim.Native.Nat.{bit_and, bit_or}
use mikansaos.Base.{
  ℕ, zero, suc, ◌+◌, ◌-◌, ◌*◌, ◌/◌, ◌%◌, ◌^◌, ◌≤◌, ◌<◌, ◌==◌, ltb, leb, if◌then◌else◌, ◌≡◌, refl,
  ap, ◌∙◌, Bool, true, false, ◌&&◌, length, length-set, get_or-set_self, get_or-set_ne, arith,
}
use mikansaos.Base.Bits.{
  digit, digit-lt, digit-or, digit-and, digit-pow, digit-complement, bit_and-pow,
}
use native.Mathlib.Nat.{one-le-pow, pow-le-pow_right}
use mikansaos.Memory.{
  BitmapMemoryManager, line_of, get_bit, set_bit, set_bits, mark_allocated, free,
}

-- The number of frames that the map has a bit for.
abbrev pub frames : BitmapMemoryManager → ℕ
frames m = 64 * length m.alloc_map

pub get_bit-eq-digit :
    (m : BitmapMemoryManager) (f : ℕ) → get_bit m f ≡ (digit (line_of m (f / 64)) (f % 64) == 1)
unfolding get_bit
get_bit-eq-digit m f =
    let line = line_of m (f / 64) in
    ground (arith, digit-lt line (f % 64), bit_and-pow line (f % 64), one-le-pow (f % 64) 2)

-- `line |= 1 << b` and `line &= ~(1 << b)`, digit by digit.
digit-set : (line b k : ℕ) → digit (bit_or line (2 ^ b)) k ≡ (if b == k then 1 else digit line k)
digit-set line b k = ground (arith, digit-or line (2 ^ b) k, digit-pow b k, digit-lt line k)

pow_word : (b : ℕ) → b < 64 → 2 ^ b < 2 ^ 64
pow_word b h = omega (arith, pow-le-pow_right {n = 2} (omega arith) (le-pred_64 b h))
  where
    le-pred_64 : (b : ℕ) → b < 64 → b ≤ 63
    le-pred_64 b h = omega arith

digit-clear :
    (line b k : ℕ)
    → b < 64
    → k < 64
    → digit (bit_and line (2 ^ 64 - 1 - 2 ^ b)) k ≡ (if b == k then 0 else digit line k)
digit-clear line b k hb hk = ground (
  arith,
  digit-and line (2 ^ 64 - 1 - 2 ^ b) k,
  digit-complement 64 (2 ^ b) k (pow_word b hb) hk,
  digit-pow b k,
  digit-lt line k,
)

pub length-set_bit :
    (m : BitmapMemoryManager) (f : ℕ) (v : Bool)
    → length (set_bit m f v).alloc_map ≡ length m.alloc_map
unfolding set_bit
length-set_bit m f v = length-set m.alloc_map (f / 64) _

pub range-set_bit :
    (m : BitmapMemoryManager) (f : ℕ) (v : Bool)
    → ((set_bit m f v).range_start ≡ m.range_start) × ((set_bit m f v).range_end ≡ m.range_end)
unfolding set_bit
range-set_bit m f v = (refl, refl)

-- Writing one frame's bit changes that bit and no other.
pub get_bit-set_bit :
    (m : BitmapMemoryManager) (f g : ℕ) (v : Bool)
    → f < frames m
    → get_bit (set_bit m f v) g ≡ (if f == g then v else get_bit m g)
unfolding set_bit
get_bit-set_bit m f g true h = ground (
  arith,
  get_bit-eq-digit m g,
  get_bit-eq-digit (set_bit m f true) g,
  get_or-set_self m.alloc_map (f / 64) (bit_or (line_of m (f / 64)) (2 ^ (f % 64))) 0,
  get_or-set_ne m.alloc_map (f / 64) (g / 64) (bit_or (line_of m (f / 64)) (2 ^ (f % 64))) 0,
  digit-set (line_of m (f / 64)) (f % 64) (g % 64),
)
get_bit-set_bit m f g false h =
    let cleared = bit_and (line_of m (f / 64)) (2 ^ 64 - 1 - 2 ^ (f % 64)) in
    ground (
      arith,
      get_bit-eq-digit m g,
      get_bit-eq-digit (set_bit m f false) g,
      get_or-set_self m.alloc_map (f / 64) cleared 0,
      get_or-set_ne m.alloc_map (f / 64) (g / 64) cleared 0,
      digit-clear (line_of m (f / 64)) (f % 64) (g % 64),
    )

-- The frames `start ..< start + n`.
abbrev pub within : ℕ → ℕ → ℕ → Bool
within start n f = leb start f && ltb f (start + n)

length-set_bits :
    (m : BitmapMemoryManager) (start i n : ℕ) (v : Bool)
    → length (set_bits m start i n v).alloc_map ≡ length m.alloc_map
unfolding set_bits
length-set_bits m start i zero v = refl
length-set_bits m start i (suc n) v =
    length-set_bits (set_bit m (start + i) v) start (i + 1) n v ∙ length-set_bit m (start + i) v

range-set_bits :
    (m : BitmapMemoryManager) (start i n : ℕ) (v : Bool)
    → ((set_bits m start i n v).range_start ≡ m.range_start)
      × ((set_bits m start i n v).range_end ≡ m.range_end)
unfolding set_bits
range-set_bits m start i zero v = (refl, refl)
range-set_bits m start i (suc n) v =
    let rest = range-set_bits (set_bit m (start + i) v) start (i + 1) n v in
    let first = range-set_bit m (start + i) v in (rest.0 ∙ first.0, rest.1 ∙ first.1)

get_bit-set_bits :
    (m : BitmapMemoryManager) (start i n g : ℕ) (v : Bool)
    → start + i + n ≤ frames m
    → get_bit (set_bits m start i n v) g ≡ (if within (start + i) n g then v else get_bit m g)
unfolding set_bits
get_bit-set_bits m start i zero g v h = ground arith
get_bit-set_bits m start i (suc n) g v h = ground (
  arith,
  length-set_bit m (start + i) v,
  get_bit-set_bits (set_bit m (start + i) v) start (i + 1) n g v,
  get_bit-set_bit m (start + i) g v,
)

-- Marking changes the bits of its frames to true, and no other bit.
pub get_bit-mark_allocated :
    (m : BitmapMemoryManager) (start n g : ℕ)
    → start + n ≤ frames m
    → get_bit (mark_allocated m start n) g ≡ (if within start n g then true else get_bit m g)
unfolding mark_allocated
get_bit-mark_allocated m start n g h = ground (arith, get_bit-set_bits m start 0 n g true)

pub frames-mark_allocated :
    (m : BitmapMemoryManager) (start n : ℕ) → frames (mark_allocated m start n) ≡ frames m
unfolding mark_allocated
frames-mark_allocated m start n = ap (λ (t : ℕ). 64 * t) (length-set_bits m start 0 n true)

pub range-mark_allocated :
    (m : BitmapMemoryManager) (start n : ℕ)
    → ((mark_allocated m start n).range_start ≡ m.range_start)
      × ((mark_allocated m start n).range_end ≡ m.range_end)
unfolding mark_allocated
range-mark_allocated m start n = range-set_bits m start 0 n true

-- Freeing frames inside the map clears their bits and no other, and leaves the range as it was.
pub get_bit-free :
    (m : BitmapMemoryManager) (start n g : ℕ)
    → start + n ≤ frames m
    → (get_bit (free m start n).1 g ≡ (if within start n g then false else get_bit m g))
      × ((free m start n).1.range_start ≡ m.range_start)
      × ((free m start n).1.range_end ≡ m.range_end)
unfolding free
get_bit-free m start n g h =
    let r = range-set_bits m start 0 n false in
    (ground (arith, get_bit-set_bits m start 0 n g false), r.0, r.1)
