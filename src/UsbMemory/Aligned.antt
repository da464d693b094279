-- ===== src/UsbMemory/Aligned.antt =====
-- `Align` of kernel/usb/memory.cpp rounds up to a power of two.
use Prim.Native.Nat.{bit_and}
use native.Mathlib.Nat.{pow-suc, le_refl, mod-eq_of_lt, one-le-pow, pow-le-pow_right}
use mikansaos.Base.{ℕ, zero, suc, ◌+◌, ◌-◌, ◌*◌, ◌/◌, ◌%◌, ◌^◌, ◌≤◌, ◌<◌, ◌≡◌, ap, ◌∙◌, arith}
use mikansaos.Base.Bits.{bit_and_lowest, bit_and-zero, twice}
use mikansaos.UsbMemory.{align, word}

-- All ones, as a mask.
bit_and-ones : (w v : ℕ) → v < 2 ^ w → bit_and v (2 ^ w - 1) ≡ v
bit_and-ones zero v h = bit_and-zero v v (le_refl _) ∙ omega arith
bit_and-ones (suc w) v h =
    let half : (2 ^ suc w - 1) / 2 ≡ 2 ^ w - 1 = omega (arith, pow-suc 2 w) in
    omega (
      arith,
      bit_and_lowest v (2 ^ suc w - 1),
      ap (λ (t : ℕ). bit_and (v / 2) t) half,
      bit_and-ones w (v / 2) (omega (arith, pow-suc 2 w)),
      pow-suc 2 w,
    )

-- Ones with `k` zeros below: the digits below are cut off, which leaves a multiple of `2 ^ k`.
pub bit_and-above :
    (k w v : ℕ)
    → k ≤ w
    → v < 2 ^ w
    → (q : ℕ) × (bit_and v (2 ^ w - 1 - (2 ^ k - 1)) ≡ q * 2 ^ k)
      × (q * 2 ^ k ≤ v)
      × (v < q * 2 ^ k + 2 ^ k)
bit_and-above zero w v h l =
    (v, ap (bit_and v) (omega arith) ∙ bit_and-ones w v l ∙ omega arith, omega arith, omega arith)
bit_and-above (suc k) zero v h l = absurd (omega arith)
bit_and-above (suc k) (suc w) v h l =
    let below = bit_and-above k w (v / 2) (omega arith) (omega (arith, pow-suc 2 w)) in
    let q = below.0 in
    let half : (2 ^ suc w - 1 - (2 ^ suc k - 1)) / 2 ≡ 2 ^ w - 1 - (2 ^ k - 1) =
      omega (arith, pow-suc 2 w, pow-suc 2 k) in
    let cut = ap (λ (t : ℕ). bit_and (v / 2) t) half in
    let even : (2 ^ suc w - 1 - (2 ^ suc k - 1)) % 2 ≡ 0 = omega (
      arith,
      pow-suc 2 w,
      pow-suc 2 k,
      one-le-pow k 2 (omega arith),
      pow-le-pow_right {n = 2} (omega arith) {i = k} {j = w} (omega arith),
    ) in
    (
      q,
      omega (
        arith,
        bit_and_lowest v (2 ^ suc w - 1 - (2 ^ suc k - 1)),
        cut,
        below.1,
        even,
        twice k q,
      ),
      omega (arith, below.2, twice k q),
      omega (arith, below.3, twice k q, pow-suc 2 k),
    )

-- A value and the least multiple of a power of two that is not below it.
pub align-Rounds :
    (k v : ℕ)
    → k ≤ 64
    → v + 2 ^ k - 1 < word
    → (q : ℕ) × (align v (2 ^ k) ≡ q * 2 ^ k) × (v ≤ q * 2 ^ k) × (q * 2 ^ k < v + 2 ^ k)
unfolding align
align-Rounds k v h l =
    let r = bit_and-above k 64 (v + 2 ^ k - 1) h l in
    let fits : (v + 2 ^ k - 1) % word ≡ v + 2 ^ k - 1 = mod-eq_of_lt l in
    let some_width = one-le-pow k 2 (omega arith) in
    (
      r.0,
      ap (λ (t : ℕ). bit_and t (word - 1 - (2 ^ k - 1))) fits ∙ r.1,
      omega (arith, r.2, r.3),
      omega (arith, r.2),
    )
