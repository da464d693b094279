-- ===== src/Ring/Slice.antt =====
-- Slices of the memory of a ring of kernel/usb/xhci/ring.cpp.
use mikansaos.Base.{
  ℕ, zero, suc, ◌+◌, ◌-◌, ◌<◌, ◌≤◌, ◌≡◌, ◌⊎◌, refl, ap, ◌∙◌, inl, inr, List, [], ◌∷◌, ◌++◌, length,
  arith,
}
use mathlib.Core.Path.{ap₂}
use mikansaos.Base.Maps.{update, update_self, update_ne}
use mikansaos.Ring.{Trb}

abbrev pub slice : (ℕ → Trb) → ℕ → ℕ → List Trb
slice buf d zero = []
slice buf d (suc n) = buf d ∷ slice buf (d + 1) n

pub length-slice : (buf : ℕ → Trb) (d n : ℕ) → length (slice buf d n) ≡ n
length-slice buf d zero = refl
length-slice buf d (suc n) = ap suc (length-slice buf (d + 1) n)

pub slice-update :
    (buf : ℕ → Trb) (i d n : ℕ) (t : Trb)
    → (i < d) ⊎ (d + n ≤ i)
    → slice (update buf i t) d n ≡ slice buf d n
slice-update buf i d zero t out = refl
slice-update buf i d (suc n) t out =
    ap₂ (λ (x : Trb) (xs : List Trb). x ∷ xs) (update_ne buf i d t (λ e. ground (arith, out)))
      (slice-update buf i (d + 1) n t
        (elim out [ inl a ↦ inl (omega arith) | inr b ↦ inr (omega arith) ]))

pub slice-suc : (buf : ℕ → Trb) (d n : ℕ) → slice buf d (suc n) ≡ slice buf d n ++ buf (d + n) ∷ []
slice-suc buf d zero = ap (λ (k : ℕ). buf k ∷ []) (omega arith)
slice-suc buf d (suc n) =
    let next : d + 1 + n ≡ d + suc n = omega arith in
    ap (buf d ∷◌) (slice-suc buf (d + 1) n)
    ∙ ap (λ (k : ℕ). buf d ∷ (slice buf (d + 1) n ++ buf k ∷ [])) next

-- What is written at the write index is the last of the entries up to it.
pub slice-write :
    (buf : ℕ → Trb) (d w : ℕ) (t : Trb)
    → d ≤ w
    → slice (update buf w t) d (w + 1 - d) ≡ slice buf d (w - d) ++ t ∷ []
slice-write buf d w t h =
    let size : w + 1 - d ≡ suc (w - d) = omega arith in
    let at : d + (w - d) ≡ w = omega arith in
    ap (slice (update buf w t) d) size
    ∙ slice-suc (update buf w t) d (w - d)
    ∙ ap₂ (λ (xs : List Trb) (x : Trb). xs ++ x ∷ [])
        (slice-update buf w d (w - d) t (inr (omega arith)))
        (ap (update buf w t) at ∙ update_self buf w t)
