-- ===== src/Terminal/Strings.antt =====
-- `strlen` and `strcpy`, as kernel/terminal.cpp uses them on lines of characters.
use mikansaos.Base.{
  ℕ, zero, suc, ◌≤◌, ◌<◌, ◌≡◌, refl, ap, inl, inr, Bool-cases, List, [], ◌∷◌, ◌==◌, length, set,
  take, arith,
}
use mikansaos.Terminal.{strlen, strcpy}

pub strlen-set_zero : (cs : List ℕ) (i : ℕ) → i < length cs → strlen (set cs i 0) ≤ i
unfolding strlen
strlen-set_zero [] i h = absurd (omega arith)
strlen-set_zero (c ∷ cs) zero h = ground arith
strlen-set_zero (c ∷ cs) (suc i) h = ground (arith, strlen-set_zero cs i (omega arith))

pub length-strcpy : (dst src : List ℕ) → length (strcpy dst src) ≡ length dst
unfolding strcpy
length-strcpy dst [] = refl
length-strcpy [] (c ∷ cs) = refl
length-strcpy (d ∷ ds) (c ∷ cs) = ground (arith, length-strcpy ds cs)

-- What is copied, if it has an end within the copy.
pub take-strcpy :
    (dst src : List ℕ)
    → strlen src < length src
    → length src ≤ length dst
    → take (strlen src) (strcpy dst src) ≡ take (strlen src) src
unfolding strlen strcpy
take-strcpy dst [] h k = absurd (omega arith)
take-strcpy [] (c ∷ cs) h k = absurd (omega arith)
take-strcpy (d ∷ ds) (c ∷ cs) h k = elim (Bool-cases (c == 0)) [
  | inl ended ↦ rw ended refl
  | inr more ↦ rw more (ap (c ∷◌) (take-strcpy ds cs (ground arith) (omega arith)))
]
