-- ===== src/ArrayMap/Tests.antt =====
-- Inputs for the theorem on kernel/usb/arraymap.hpp.
use mikansaos.Base.{ℕ, ◌==◌, ◌≡◌, refl, Bool, false, List, [], ◌∷◌, none, some}
use mikansaos.ArrayMap.{Slot, get, delete, put}
use mikansaos.ArrayMap.Lookup.{get-put}

abbrev same_number : ℕ → ℕ → Bool
same_number a b = a == b

-- The key 5 is in use; a slot that was deleted before it is free.
abbrev sample : List (Slot ℕ ℕ)
sample = record { first = none; second = 9 } ∷ record { first = some 5; second = 50 } ∷ []

full : put (put sample 6 60) 7 70 ≡ put sample 6 60
unfolding put
full = refl

get-put_example :
    (get same_number (put sample 6 60) 6 ≡ some 60)
    × ((k : ℕ)
        → same_number 6 k ≡ false
        → get same_number (put sample 6 60) k ≡ get same_number sample k)
    × ((k : ℕ)
        → get same_number (delete same_number (put sample 6 60) 6) k ≡ get same_number sample k)
unfolding get
get-put_example = get-put same_number sample 6 60 refl refl refl
