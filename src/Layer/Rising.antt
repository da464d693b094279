-- ===== src/Layer/Rising.antt =====
-- The two calls of `SetIndex` in `Activate` of kernel/layer.cpp.
use mikansaos.Base.{
  ℕ, suc, ◌+◌, ◌-◌, ◌≡◌, ◌≢◌, refl, sym, ap, ◌∙◌, inl, inr, true, false, List, Option, some, length,
  min, Bool-cases, arith,
}
use mikansaos.Base.Int.{ℤ, pos, ◌-ℤ◌}
use mikansaos.Layer.{
  Layer, LayerManager, find_layer, on_stack, erase_found, insert_at, index_from, get_index,
  set_index, ActiveLayer, bring_up,
}
use mikansaos.Layer.Stack.{
  length-erase_found, on_stack-insert_at, index_from-on_stack, index_from-insert_before,
  on_stack-erase_other, erase_found-absent,
}
use mikansaos.Layer.Placing.{Places, set_index-Places, set_index-never_on_top}

Places-cast :
    (m : LayerManager) (id i j : ℕ) (xs ys : List ℕ) (r : Option LayerManager)
    → i ≡ j
    → xs ≡ ys
    → Places m id i xs r
    → Places m id j ys r
Places-cast m id i j xs ys r e f p = rw (← e, ← f) p

-- The first call: the layer is at the bottom of the stack, whether it was on it or not.
to_bottom :
    (m : LayerManager) (id mouse : ℕ) (l : Layer)
    → find_layer m.layers id ≡ some l
    → id ≢ mouse
    → on_stack m.layer_stack mouse ≡ true
    → on_stack (erase_found m.layer_stack id) id ≡ false
    → Places m id 0 (erase_found m.layer_stack id) (set_index m id (pos 0))
to_bottom m id mouse l found ne mouse_on once = elim (Bool-cases (on_stack m.layer_stack id)) [
  | inr out ↦
      let start : min 0 (length m.layer_stack) ≡ 0 = omega arith in
      let same = erase_found-absent m.layer_stack id out in
      Places-cast m id _ 0 _ _ _ start (sym same) (set_index-Places m id 0 l found out)
  | inl on ↦
      let kept = on_stack-erase_other m.layer_stack id mouse ne mouse_on in
      let (_, some_left, _) = index_from-on_stack (erase_found m.layer_stack id) mouse kept in
      let start : min 0 (length m.layer_stack - 2) ≡ 0 = omega arith in
      Places-cast m id _ 0 _ _ _ start refl (
        set_index-never_on_top m id 0 l found on once
          (omega (arith, some_left, length-erase_found m.layer_stack id on)))
]

one_less : (z : ℤ) (k : ℕ) → z ≡ pos (k + 1) → z -ℤ pos 1 ≡ pos k
unfolding ◌-ℤ◌
one_less z k h = rw h (ground arith)

-- The index of another layer above a layer at the bottom.
index_above_bottom :
    (others : List ℕ) (id mouse k : ℕ)
    → id ≢ mouse
    → ((from : ℕ) → index_from from others mouse ≡ pos (from + k))
    → index_from 0 (insert_at others 0 id) mouse ≡ pos (k + 1)
unfolding index_from
index_above_bottom others id mouse k ne at = ground (arith, at 1)

-- A layer that is activated, on the stack at most once, goes right below the mouse's layer where that
-- one is on the stack, and all other layers keep their order.
pub bring_up-below_mouse :
    (m : LayerManager) (a : ActiveLayer) (id : ℕ) (l : Layer)
    → find_layer m.layers id ≡ some l
    → id ≢ a.mouse_layer
    → on_stack m.layer_stack a.mouse_layer ≡ true
    → on_stack (erase_found m.layer_stack id) id ≡ false
    → (m' : LayerManager) × (k : ℕ) × (bring_up m a id ≡ some m')
      × (get_index m' id ≡ pos k)
      × (get_index m' a.mouse_layer ≡ pos (k + 1))
      × (erase_found m'.layer_stack id ≡ erase_found m.layer_stack id)
unfolding bring_up
bring_up-below_mouse m a id l found ne mouse_on once =
    let mouse = a.mouse_layer in
    let others = erase_found m.layer_stack id in
    let p = to_bottom m id mouse l found ne mouse_on once in
    let kept = on_stack-erase_other m.layer_stack id mouse ne mouse_on in
    let (k, inside, at) = index_from-on_stack others mouse kept in
    let found' = ap (λ (ls : List Layer). find_layer ls id) p.same_layers ∙ found in
    let m1 = p.m' in
    let size : length m1.layer_stack ≡ suc (length others) = ap length p.order in
    let on : on_stack m1.layer_stack id ≡ true =
      ap (λ (xs : List ℕ). on_stack xs id) p.order ∙ on_stack-insert_at others 0 id in
    let once' = ap (λ (xs : List ℕ). on_stack xs id) p.rest ∙ once in
    let target : min k (length m1.layer_stack - 2) ≡ k = omega (arith, size, inside) in
    let q =
      Places-cast m1 id _ k _ others _ target p.rest
        (set_index-never_on_top m1 id k l found' on once' (omega (arith, size, inside))) in
    let mouse_at : get_index m1 mouse -ℤ pos 1 ≡ pos k = one_less _ k (
      ap (λ (xs : List ℕ). index_from 0 xs mouse) p.order
      ∙ index_above_bottom others id mouse k ne at) in
    (
      q.m',
      k,
      rw (p.returns, bring_up) (ap (set_index m1 id) mouse_at ∙ q.returns),
      q.at,
      ap (λ (xs : List ℕ). index_from 0 xs mouse) q.order
          ∙ index_from-insert_before others k id mouse 0 ne (at 0)
          ∙ ap pos (omega arith),
      q.rest,
    )
