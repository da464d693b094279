-- ===== src/Layer/Tests.antt =====
-- Inputs for the theorems on kernel/layer.cpp.
use mikansaos.Base.{ℕ, ◌+◌, ◌≡◌, refl, false, [], ◌∷◌, some, arith}
use mikansaos.Base.Int.{pos}
use mikansaos.Layer.{
  Layer, LayerManager, find_layer, erase_found, set_index, place_layer, put_back, get_index,
  ActiveLayer, bring_up,
}
use mikansaos.Layer.Rising.{bring_up-below_mouse}

-- A layer with a window of ten by ten pixels at the origin.
abbrev layer : ℕ → Layer
layer id = record {
  id = id;
  place = record { x = pos 0; y = pos 0 };
  window = some (record { x = pos 10; y = pos 10 });
  draggable = false;
  transparentable = false;
}

-- Four layers; the last is not on the stack, and 3 is the mouse's.
abbrev sample : LayerManager
sample = record {
  layers = layer 1 ∷ layer 2 ∷ layer 3 ∷ layer 4 ∷ [];
  layer_stack = 1 ∷ 2 ∷ 3 ∷ [];
  last_id = 4;
}

abbrev active : ActiveLayer
active = record { active_layer = 2; mouse_layer = 3 }

to_the_top :
    set_index sample 1 (pos 2)
    ≡ some (record { layers = sample.layers; layer_stack = 2 ∷ 1 ∷ 3 ∷ []; last_id = 4 })
unfolding set_index place_layer put_back find_layer
to_the_top = refl

bring_up-below_mouse_example :
    (m' : LayerManager) × (k : ℕ) × (bring_up sample active 1 ≡ some m')
    × (get_index m' 1 ≡ pos k)
    × (get_index m' 3 ≡ pos (k + 1))
    × (erase_found m'.layer_stack 1 ≡ 2 ∷ 3 ∷ [])
unfolding find_layer
bring_up-below_mouse_example =
    bring_up-below_mouse sample active 1 (layer 1) refl (λ e. omega arith) refl refl
