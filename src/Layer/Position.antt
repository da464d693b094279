-- ===== src/Layer/Position.antt =====
-- `FindLayerByPosition` of kernel/layer.cpp finds the topmost layer.
use mikansaos.Base.{ℕ, ◌≡◌, ◌⊎◌, true, false, List, [], ◌∷◌, ◌++◌, Option, none, some}
use mikansaos.Graphics.{Vector2D}
use mikansaos.Layer.{Layer, is_hit}

-- None of the layers is hit.
abbrev pub AllMiss : List Layer → Vector2D → ℕ → List ℕ → Type 0
AllMiss layers at exclude_id [] = Unit {0}
AllMiss layers at exclude_id (id ∷ ids) =
    (is_hit layers at exclude_id id ≡ false) × AllMiss layers at exclude_id ids

-- Nothing is hit, or the layer found is and no layer above it.
abbrev pub IsTopMost : List Layer → Vector2D → ℕ → List ℕ → Option ℕ → Type 0
IsTopMost layers at exclude_id stack r =
    ((r ≡ none) × AllMiss layers at exclude_id stack)
    ⊎ ((id : ℕ) × (below above : List ℕ) × (r ≡ some id)
        × (stack ≡ below ++ id ∷ above)
        × (is_hit layers at exclude_id id ≡ true)
        × AllMiss layers at exclude_id above)
