-- ===== src/Base/Bits.antt =====
-- Binary digits of the native numbers, and what the bitwise operations do to each of them.
use Prim.Native.Nat.{
  ℕ, zero, suc, ◌+◌, ◌-◌, ◌*◌, ◌/◌, ◌%◌, ◌^◌, ◌≤◌, ◌<◌, min, max, bit_and, bit_or, digits, bitwise,
  bit_and-bitwise, bit_or-bitwise,
}
use mathlib.Core.Path.{◌≡◌, refl, ap, ◌∙◌}
use native.Mathlib.Nat.{pow-suc, le_refl}
use native.Mathlib.Omega.{arith}
use mikansaos.Base.Tests.{◌==◌, if◌then◌else◌}

-- The recursion behind the native operations, with its fuel dropped.
module _ (rest : ℕ → ℕ) (op : ℕ → ℕ → ℕ) where
  more_fuel : (n m a b : ℕ) → a ≤ n → a ≤ m → digits rest op n a b ≡ digits rest op m a b
  more_fuel zero zero a b p q = refl
  more_fuel zero (suc m) zero b p q = refl
  more_fuel (suc n) zero zero b p q = refl
  more_fuel (suc n) (suc m) zero b p q = refl
  more_fuel zero (suc m) (suc a) b p q = absurd (omega arith)
  more_fuel (suc n) zero (suc a) b p q = absurd (omega arith)
  more_fuel (suc n) (suc m) (suc a) b p q =
      let half = more_fuel n m (suc a / 2) (b / 2) (omega arith) (omega arith) in
      ap (λ (t : ℕ). t * 2 + op (suc a % 2) (b % 2)) half

  bitwise_lowest :
      (a b : ℕ)
      → bitwise rest op (suc a) b ≡ bitwise rest op (suc a / 2) (b / 2) * 2 + op (suc a % 2) (b % 2)
  bitwise_lowest a b =
      let h = more_fuel a (suc a / 2) (suc a / 2) (b / 2) (omega arith) (le_refl _) in
      ap (λ (t : ℕ). t * 2 + op (suc a % 2) (b % 2)) h

pub bit_or_lowest : (a b : ℕ) → bit_or a b ≡ bit_or (a / 2) (b / 2) * 2 + max (a % 2) (b % 2)
bit_or_lowest zero b = simp bit_or-bitwise (omega arith)
bit_or_lowest (suc a) b = simp bit_or-bitwise (bitwise_lowest (λ y. y) max a b)

pub bit_and_lowest : (a b : ℕ) → bit_and a b ≡ bit_and (a / 2) (b / 2) * 2 + min (a % 2) (b % 2)
bit_and_lowest zero b = simp bit_and-bitwise (omega arith)
bit_and_lowest (suc a) b = simp bit_and-bitwise (bitwise_lowest (λ y. 0) min a b)

-- The digit of weight `2 ^ k`.
abbrev pub digit : ℕ → ℕ → ℕ
digit a zero = a % 2
digit a (suc k) = digit (a / 2) k

pub digit-lt : (a k : ℕ) → digit a k < 2
digit-lt a zero = omega arith
digit-lt a (suc k) = digit-lt (a / 2) k

digit-zero : (k : ℕ) → digit 0 k ≡ 0
digit-zero zero = refl
digit-zero (suc k) = digit-zero k

pub digit-or : (a b k : ℕ) → digit (bit_or a b) k ≡ max (digit a k) (digit b k)
digit-or a b zero = omega (arith, bit_or_lowest a b)
digit-or a b (suc k) =
    let half : bit_or a b / 2 ≡ bit_or (a / 2) (b / 2) = omega (arith, bit_or_lowest a b) in
    ap (λ (t : ℕ). digit t k) half ∙ digit-or (a / 2) (b / 2) k

pub digit-and : (a b k : ℕ) → digit (bit_and a b) k ≡ min (digit a k) (digit b k)
digit-and a b zero = omega (arith, bit_and_lowest a b)
digit-and a b (suc k) =
    let half : bit_and a b / 2 ≡ bit_and (a / 2) (b / 2) = omega (arith, bit_and_lowest a b) in
    ap (λ (t : ℕ). digit t k) half ∙ digit-and (a / 2) (b / 2) k

pub digit-pow : (j k : ℕ) → digit (2 ^ j) k ≡ (if j == k then 1 else 0)
digit-pow zero zero = refl
digit-pow zero (suc k) = ground (arith, digit-zero k)
digit-pow (suc j) zero = ground (arith, pow-suc 2 j)
digit-pow (suc j) (suc k) =
    let half : 2 ^ suc j / 2 ≡ 2 ^ j = omega (arith, pow-suc 2 j) in
    ap (λ (t : ℕ). digit t k) half ∙ ground (arith, digit-pow j k)

-- `~m` in a word of `n` bits.
pub digit-complement : (n m k : ℕ) → m < 2 ^ n → k < n → digit (2 ^ n - 1 - m) k ≡ 1 - digit m k
digit-complement zero m k hm hk = absurd (omega arith)
digit-complement (suc n) m zero hm hk = omega (arith, pow-suc 2 n)
digit-complement (suc n) m (suc k) hm hk =
    let half : (2 ^ suc n - 1 - m) / 2 ≡ 2 ^ n - 1 - m / 2 = omega (arith, pow-suc 2 n) in
    ap (λ (t : ℕ). digit t k) half
    ∙ digit-complement n (m / 2) k (omega (arith, pow-suc 2 n)) (omega arith)

pub bit_and-zero : (k a : ℕ) → a ≤ k → bit_and a 0 ≡ 0
bit_and-zero k zero h = refl
bit_and-zero zero (suc a) h = absurd (omega arith)
bit_and-zero (suc k) (suc a) h =
    omega (arith, bit_and_lowest (suc a) 0, bit_and-zero k (suc a / 2) (omega arith))

-- A mask with one bit cuts that digit out.
pub bit_and-pow : (a k : ℕ) → bit_and a (2 ^ k) ≡ digit a k * 2 ^ k
bit_and-pow a zero = omega (arith, bit_and_lowest a 1, bit_and-zero (a / 2) (a / 2) (le_refl _))
bit_and-pow a (suc k) =
    let half : 2 ^ suc k / 2 ≡ 2 ^ k = omega (arith, pow-suc 2 k) in
    omega (
      arith,
      bit_and_lowest a (2 ^ suc k),
      ap (λ (t : ℕ). bit_and (a / 2) t) half,
      bit_and-pow (a / 2) k,
      pow-suc 2 k,
      ap (λ (t : ℕ). digit (a / 2) k * t) (pow-suc 2 k),
    )

pub twice : (k x : ℕ) → x * 2 ^ suc k ≡ x * 2 ^ k * 2
twice k x = ap (λ (t : ℕ). x * t) (pow-suc 2 k) ∙ omega arith
