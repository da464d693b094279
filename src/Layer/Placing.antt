-- ===== src/Layer/Placing.antt =====
-- `SetIndex`, `Hide` and the rise of the active layer in kernel/layer.cpp.
use mikansaos.Base.{
  ℕ, ◌-◌, ◌<◌, ◌≤◌, ◌%◌, ◌^◌, ◌≡◌, refl, ap, ◌∙◌, true, false, List, Option, none, some, length,
  min, arith,
}
use mikansaos.Base.Int.{pos, negsuc}
use mikansaos.Layer.{
  Layer, LayerManager, find_layer, layer_ptr, on_stack, erase_found, insert_at, get_index, hide,
  put_back, place_layer, set_index,
}
use mikansaos.Layer.Stack.{
  erase_found-insert_at, index_from-insert_at, length-erase_found, id-find_layer,
  erase_found-absent,
}

layer_ptr-found :
    (m : LayerManager) (id : ℕ) (l : Layer) → find_layer m.layers id ≡ some l → layer_ptr m id ≡ id
layer_ptr-found m id l h = rw (h, layer_ptr) (id-find_layer m.layers id l h)

set_index-stack :
    (m : LayerManager) (id i : ℕ) (l : Layer) (stack : List ℕ)
    → find_layer m.layers id ≡ some l
    → place_layer m.layer_stack id i ≡ some stack
    → set_index m id (pos i) ≡ some (record m { layer_stack = stack })
unfolding set_index
set_index-stack m id i l stack h e =
    let p : place_layer m.layer_stack (layer_ptr m id) i ≡ some stack =
      ap (λ (k : ℕ). place_layer m.layer_stack k i) (layer_ptr-found m id l h) ∙ e in
    rw (p, set_index) refl

-- The outcome of `SetIndex`: the layer is at `index`, and the others are in the order they had.
pub record Places (m : LayerManager) (id index : ℕ) (others : List ℕ) (r : Option LayerManager)
    : Type 0 where
  pub m' : LayerManager
  pub returns : r ≡ some m'
  pub at : get_index m' id ≡ pos index
  pub order : m'.layer_stack ≡ insert_at others index id
  pub rest : erase_found m'.layer_stack id ≡ others
  pub same_layers : m'.layers ≡ m.layers

pub placed :
    (m : LayerManager) (id i : ℕ) (l : Layer) (others : List ℕ) (index : ℕ)
    → find_layer m.layers id ≡ some l
    → place_layer m.layer_stack id i ≡ some (insert_at others index id)
    → on_stack others id ≡ false
    → index ≤ length others
    → Places m id index others (set_index m id (pos i))
placed m id i l others index h e out inside = record {
  m' = record m { layer_stack = insert_at others index id };
  returns = set_index-stack m id i l (insert_at others index id) h e;
  at = index_from-insert_at others index id 0 out inside ∙ ap pos (omega arith);
  order = refl;
  rest = erase_found-insert_at others index id out inside;
  same_layers = refl;
}

place_hidden :
    (stack : List ℕ) (id i : ℕ)
    → on_stack stack id ≡ false
    → place_layer stack id i ≡ some (insert_at stack (min i (length stack)) id)
unfolding place_layer
place_hidden stack id i out = ground (arith, out)

place_shown :
    (stack : List ℕ) (id i : ℕ)
    → on_stack stack id ≡ true
    → 2 ≤ length stack
    → place_layer stack id i ≡ some (insert_at (erase_found stack id) (min i (length stack - 2)) id)
unfolding place_layer put_back
place_shown stack id i on two = ground (arith, on, length-erase_found stack id on)

-- `SetIndex` to an index that is not negative puts a layer that was not on the stack at this index, or
-- on top of the stack where this has fewer layers; the others keep their order.
pub set_index-Places :
    (m : LayerManager) (id i : ℕ) (l : Layer)
    → find_layer m.layers id ≡ some l
    → on_stack m.layer_stack id ≡ false
    → Places m id (min i (length m.layer_stack)) m.layer_stack (set_index m id (pos i))
set_index-Places m id i l found out =
    placed m id i l m.layer_stack (min i (length m.layer_stack)) found
      (place_hidden m.layer_stack id i out) out (omega arith)

-- `SetIndex` to an index that is not negative, of a layer that is on the stack once and not alone,
-- puts it at this index, but never on top: at most at the last index but one. The others keep their
-- order.
pub set_index-never_on_top :
    (m : LayerManager) (id i : ℕ) (l : Layer)
    → find_layer m.layers id ≡ some l
    → on_stack m.layer_stack id ≡ true
    → on_stack (erase_found m.layer_stack id) id ≡ false
    → 2 ≤ length m.layer_stack
    → Places m id
        (min i (length m.layer_stack - 2))
        (erase_found m.layer_stack id)
        (set_index m id (pos i))
set_index-never_on_top m id i l found on once two =
    placed m id i l (erase_found m.layer_stack id) (min i (length m.layer_stack - 2)) found
      (place_shown m.layer_stack id i on two) once
      (omega (arith, length-erase_found m.layer_stack id on))

-- `Hide` after `SetIndex` of a layer that was not on the stack gives the stack back.
pub hide-set_index :
    (m : LayerManager) (id i : ℕ) (l : Layer)
    → find_layer m.layers id ≡ some l
    → on_stack m.layer_stack id ≡ false
    → (m' : LayerManager) × (set_index m id (pos i) ≡ some m')
      × ((hide m' id).layer_stack ≡ m.layer_stack)
unfolding hide
hide-set_index m id i l found out =
    let p = set_index-Places m id i l found out in
    let ptr =
      layer_ptr-found p.m' id l
        (ap (λ (ls : List Layer). find_layer ls id) p.same_layers ∙ found) in
    (p.m', p.returns, ap (erase_found p.m'.layer_stack) ptr ∙ p.rest)

-- `SetIndex` to the index -(n + 1), where no layer's id is this index as an unsigned number of 32 bits
-- and no null pointer is on the stack, leaves the stack as it is: the layer is not hidden.
pub set_index-negative :
    (m : LayerManager) (id n : ℕ)
    → n < 2 ^ 31
    → find_layer m.layers (2 ^ 32 - 1 - n) ≡ none
    → on_stack m.layer_stack 0 ≡ false
    → (m' : LayerManager) × (set_index m id (negsuc n) ≡ some m') × (m'.layer_stack ≡ m.layer_stack)
unfolding set_index hide
set_index-negative m id n small unknown no_null =
    let hidden = (2 ^ 32 - 1 - n) % 2 ^ 32 in
    let as_is : hidden ≡ 2 ^ 32 - 1 - n = omega arith in
    let ptr : layer_ptr m hidden ≡ 0 = ap (layer_ptr m) as_is ∙ rw (unknown, layer_ptr) refl in
    (
      hide m hidden,
      refl,
      ap (erase_found m.layer_stack) ptr ∙ erase_found-absent m.layer_stack 0 no_null,
    )
