-- ===== src/ArrayMap/Lookup.antt =====
-- What `Put` and `Delete` of kernel/usb/arraymap.hpp do to `Get`.
use mikansaos.Base.{
  ◌≡◌, inl, inr, Bool, true, false, List, [], ◌∷◌, none, some, Option-cases, arith,
}
use mikansaos.ArrayMap.{Slot, get, delete, put}

abbrev pub has_space {ℓ} : {K V : Type ℓ} → List (Slot K V) → Bool
has_space [] = false
has_space (s ∷ table) = elim s.first [ none ↦ true | some _ ↦ has_space table ]

module _ {ℓ} {K V : Type ℓ} (same : K → K → Bool) where
  -- Where the map has a free slot and not the key, `Get` after `Put` gives the value for this key and
  -- what it gave before for every key that is told apart from it, and `Delete` then makes `Get` give
  -- what it gave before `Put` for every key.
  pub get-put :
      (table : List (Slot K V)) (key : K) (value : V)
      → same key key ≡ true
      → has_space table ≡ true
      → get same table key ≡ none
      → (get same (put table key value) key ≡ some value)
        × ((k : K) → same key k ≡ false → get same (put table key value) k ≡ get same table k)
        × ((k : K) → get same (delete same (put table key value) key) k ≡ get same table k)
  unfolding get put delete
  get-put [] key value self space absent = absurd (ground (arith, space))
  get-put (s ∷ table) key value self space absent = elim (Option-cases s.first) [
    | inl free ↦ (
      ground (arith, free, self),
      (λ k other. ground (arith, free, other)),
      (λ k. ground (arith, free, self)),
    )
    | inr (x, taken) ↦
        let rest =
          get-put table key value self (ground (arith, taken, space))
            (ground (arith, taken, absent)) in
        (
          ground (arith, taken, absent, rest.0),
          (λ k other. ground (arith, taken, rest.1 k other)),
          (λ k. ground (arith, taken, absent, rest.2 k)),
        )
  ]
