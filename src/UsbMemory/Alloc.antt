-- ===== src/UsbMemory/Alloc.antt =====
-- `AllocMem` of kernel/usb/memory.cpp: where the memory lies that it gives out.
use native.Mathlib.Nat.{mod-eq_of_lt, one-le-pow, le_refl, mul_assoc}
use mikansaos.Base.{
  ℕ, zero, suc, ◌+◌, ◌*◌, ◌^◌, ◌≤◌, ◌<◌, ◌≡◌, refl, ap, ◌∙◌, sym, inl, inr, Bool-cases, ltb, lt→ltb,
  if◌then◌else◌, none, some, arith,
}
use mikansaos.UsbMemory.{Pool, memory_poll_size, word, align, to_alignment, to_boundary, alloc_mem}
use mikansaos.UsbMemory.Aligned.{align-Rounds}

-- `size` bytes from `p` on begin at a multiple of `2 ^ a` and lie in one block of `2 ^ b` bytes.
pub record Lies (a b size p : ℕ) : Type 0 where
  pub multiple : ℕ
  pub aligned : p ≡ multiple * 2 ^ a
  pub block : ℕ
  pub block_start : block * 2 ^ b ≤ p
  pub block_end : p + size ≤ block * 2 ^ b + 2 ^ b

to_alignment-pow : (v a x : ℕ) → align v (2 ^ a) ≡ x → to_alignment v (2 ^ a) ≡ x
to_alignment-pow v a x e = rw (lt→ltb 0 (2 ^ a) (one-le-pow a 2 (omega arith))) e

to_boundary-pow :
    (v size b x : ℕ)
    → v + size < word
    → align v (2 ^ b) ≡ x
    → to_boundary v size (2 ^ b) ≡ (if ltb x (v + size) then x else v)
to_boundary-pow v size b x l e =
    rw (lt→ltb 0 (2 ^ b) (one-le-pow b 2 (omega arith)), e, mod-eq_of_lt l) refl

-- A start before a boundary, with the end not behind it.
stays :
    (size width start q : ℕ)
    → 0 < size
    → start + size ≤ q * width
    → q * width < start + width
    → (r : ℕ) × (r * width ≤ start) × (start + size ≤ r * width + width)
stays size width start zero h l k = absurd (omega arith)
stays size width start (suc q) h l k =
    let sum : suc q * width ≡ q * width + width = omega arith in (q, omega arith, omega arith)

module _ (a b c size : ℕ) (blocks : 2 ^ b ≡ c * 2 ^ a) (fits : size ≤ 2 ^ b)
    (some_size : 0 < size) where
  -- Where `alloc_ptr` is moved to.
  pub moved :
      (v : ℕ)
      → a ≤ 64
      → b ≤ 64
      → v + 2 ^ a + 2 ^ b + size < word
      → (p : ℕ) × (to_boundary (to_alignment v (2 ^ a)) size (2 ^ b) ≡ p)
        × Lies a b size p
        × (v ≤ p)
        × (p < v + 2 ^ a + 2 ^ b)
  moved v ha hb room =
      let first = align-Rounds a v ha (omega arith) in
      let start = first.0 * 2 ^ a in
      let next = align-Rounds b start hb (omega (arith, first.3)) in
      let end = next.0 * 2 ^ b in
      let at : to_boundary (to_alignment v (2 ^ a)) size (2 ^ b)
          ≡ (if ltb end (start + size) then end else start) =
        ap (λ (x : ℕ). to_boundary x size (2 ^ b)) (to_alignment-pow v a start first.1)
        ∙ to_boundary-pow start size b end (omega (arith, first.3)) next.1 in
      elim (Bool-cases (ltb end (start + size))) [
        | inl over ↦ (
          end,
          at ∙ rw over refl,
          record {
            multiple = next.0 * c;
            aligned = ap (λ (t : ℕ). next.0 * t) blocks ∙ sym (mul_assoc next.0 c (2 ^ a));
            block = next.0;
            block_start = le_refl _;
            block_end = omega (arith, fits);
          },
          omega (arith, first.2, next.2),
          omega (arith, first.3, next.3),
        )
        | inr within ↦
            let at_most : start + size ≤ end = ground (arith, within) in
            let s = stays size (2 ^ b) start next.0 some_size at_most next.3 in
            (
              start,
              at ∙ rw within refl,
              record {
                multiple = first.0;
                aligned = refl;
                block = s.0;
                block_start = s.1;
                block_end = s.2;
              },
              first.2,
              omega (arith, first.3),
            )
      ]

  -- `AllocMem` of some bytes, not more than the boundary, with powers of two for the alignment and a
  -- boundary that is a multiple of it, where no address comes near 2 ^ 64: it gives an address at a
  -- multiple of the alignment, with all bytes between two boundaries, in the pool and behind all that
  -- was given out before; or there is no room for the bytes from where `alloc_ptr` has moved to.
  pub alloc_mem-Lies :
      (m : Pool)
      → a ≤ 64
      → b ≤ 64
      → m.memory_pool ≤ m.alloc_ptr
      → m.alloc_ptr + 2 ^ a + 2 ^ b + size < word
      → (p : ℕ) × Lies a b size p
        × (m.alloc_ptr ≤ p)
        × (p < m.alloc_ptr + 2 ^ a + 2 ^ b)
        × (alloc_mem m size (2 ^ a) (2 ^ b) ≡ (
            if ltb (m.memory_pool + memory_poll_size) (p + size)
            then (none, record m { alloc_ptr = p })
            else (some p, record m { alloc_ptr = p + size })))
  unfolding alloc_mem
  alloc_mem-Lies m ha hb pool room =
      let r = moved m.alloc_ptr ha hb room in
      (
        r.0,
        r.2,
        r.3,
        r.4,
        rw (r.1, mod-eq_of_lt {n = r.0 + size} {m = word} (omega (arith, r.4))) refl,
      )
