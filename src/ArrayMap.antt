-- ===== src/ArrayMap.antt =====
-- kernel/usb/arraymap.hpp: `ArrayMap`, a map in an array of slots, each with an optional key and a
-- value. `same` is the comparison of keys.
pub mod Lookup
mod Tests
use mikansaos.Base.{ℕ, if◌then◌else◌, Bool, List, [], ◌∷◌, Option, none, some, replicate}

pub record Slot {ℓ} (K V : Type ℓ) : Type ℓ where
  pub first : Option K
  pub second : V

module _ {ℓ} {K V : Type ℓ} (same : K → K → Bool) where
  -- The test of `Get` and `Delete`.
  abbrev pub holds : Slot K V → K → Bool
  holds s key = elim s.first [ none ↦ Bool.false | some k ↦ same k key ]

  pub get : List (Slot K V) → K → Option V
  get [] key = none
  get (s ∷ table) key = if holds s key then some s.second else get table key

  pub delete : List (Slot K V) → K → List (Slot K V)
  delete [] key = []
  delete (s ∷ table) key =
      if holds s key then record s { first = none } ∷ table else s ∷ delete table key

module _ {ℓ} {K V : Type ℓ} where
  -- The first free slot takes the key; where there is none, nothing happens.
  pub put : List (Slot K V) → K → V → List (Slot K V)
  put [] key value = []
  put (s ∷ table) key value = elim s.first [
    | none ↦ record { first = some key; second = value } ∷ table
    | some _ ↦ s ∷ put table key value
  ]
