-- ===== src/Layer.antt =====
-- kernel/layer.cpp and kernel/layer.hpp: the layers, their stack, and the active one. A `Layer*` is the
-- layer's id, 0 for the null pointer; `none` is a change of the stack that is undefined. Drawing, and
-- the handlers of clicks, are left out.
pub mod Stack
pub mod Placing
pub mod Rising
pub mod Position
mod Tests
use mikansaos.Base.{
  ℕ, zero, suc, ◌+◌, ◌-◌, ◌%◌, ◌^◌, ◌==◌, ltb, leb, if◌then◌else◌, Bool, true, false, not, ◌||◌,
  List, [], ◌∷◌, ◌++◌, Option, none, some, length,
}
use mikansaos.Base.Int.{ℤ, pos, negsuc, ◌-ℤ◌}
use mikansaos.ErrorCode.{Code, success, no_such_task, no_such_entry}
use mikansaos.Message.{Message, window_active, window_active_arg}
use mikansaos.Task.{TaskManager, send_message}
use mikansaos.Graphics.{Vector2D, Rectangle, add, zero_vector, covers}

-- `window` is the size of the layer's window, if it has one.
pub record Layer : Type 0 where
  pub id : ℕ
  pub place : Vector2D
  pub window : Option Vector2D
  pub draggable : Bool
  pub transparentable : Bool

pub record LayerManager : Type 0 where
  pub layers : List Layer
  pub layer_stack : List ℕ
  pub last_id : ℕ

-- The place of a new layer is not determined before `Move`; here it is the origin.
pub new_layer : LayerManager → LayerManager × ℕ
new_layer m =
    let id = m.last_id + 1 in
    let layer : Layer = record {
      id = id;
      place = zero_vector;
      window = none;
      draggable = false;
      transparentable = false;
    } in
    (record m { layers = m.layers ++ layer ∷ []; last_id = id }, id)

pub find_layer : List Layer → ℕ → Option Layer
find_layer [] id = none
find_layer (l ∷ ls) id = if l.id == id then some l else find_layer ls id

abbrev pub layer_ptr : LayerManager → ℕ → ℕ
layer_ptr m id = elim (find_layer m.layers id) [ none ↦ 0 | some l ↦ l.id ]

-- `std::find(...) != end()`.
abbrev pub on_stack : List ℕ → ℕ → Bool
on_stack [] layer = false
on_stack (x ∷ xs) layer = x == layer || on_stack xs layer

-- `erase(std::find(...))`.
abbrev pub erase_found : List ℕ → ℕ → List ℕ
erase_found [] layer = []
erase_found (x ∷ xs) layer = if x == layer then xs else x ∷ erase_found xs layer

-- `insert(begin() + index, layer)`.
abbrev pub insert_at : List ℕ → ℕ → ℕ → List ℕ
insert_at xs zero layer = layer ∷ xs
insert_at [] (suc index) layer = layer ∷ []
insert_at (x ∷ xs) (suc index) layer = x ∷ insert_at xs index layer

pub hide : LayerManager → ℕ → LayerManager
hide m id = record m { layer_stack = erase_found m.layer_stack (layer_ptr m id) }

-- `EraseIf`, for the layers with the id.
pub erase_layers : List Layer → ℕ → List Layer
erase_layers [] id = []
erase_layers (l ∷ ls) id = if l.id == id then erase_layers ls id else l ∷ erase_layers ls id

pub remove_layer : LayerManager → ℕ → LayerManager
remove_layer m id = record (hide m id) { layers = erase_layers m.layers id }

-- The new place of a layer that has been taken from the stack: `iter_new_pos` is `index` still, and
-- one before the end where it is not inside what is left. There is none in an empty stack.
pub put_back : List ℕ → ℕ → ℕ → Option (List ℕ)
put_back rest index layer =
    if leb (length rest) index
    then if length rest == 0 then none else some (insert_at rest (length rest - 1) layer)
    else some (insert_at rest index layer)

-- The stack after `SetIndex` to an index that is not negative.
pub place_layer : List ℕ → ℕ → ℕ → Option (List ℕ)
place_layer stack layer index =
    let index' = if ltb (length stack) index then length stack else index in
    if on_stack stack layer
    then put_back (erase_found stack layer) index' layer
    else some (insert_at stack index' layer)

-- A negative index is hidden as if it were an id, as an unsigned number of 32 bits.
pub set_index : LayerManager → ℕ → ℤ → Option LayerManager
set_index m id (negsuc n) = some (hide m ((2 ^ 32 - 1 - n) % 2 ^ 32))
set_index m id (pos index) = elim (place_layer m.layer_stack (layer_ptr m id) index) [
  | none ↦ none
  | some stack ↦ some (record m { layer_stack = stack })
]

-- The loop of `GetIndex` from index `i` on.
unfoldable pub index_from : ℕ → List ℕ → ℕ → ℤ
index_from i [] id = negsuc 0
index_from i (x ∷ xs) id = if x == id then pos i else index_from (i + 1) xs id

abbrev pub get_index : LayerManager → ℕ → ℤ
get_index m id = index_from 0 m.layer_stack id

-- The predicate of `FindLayerByPosition`.
pub is_hit : List Layer → Vector2D → ℕ → ℕ → Bool
is_hit layers at exclude_id id = if id == exclude_id then false else elim (find_layer layers id) [
  | none ↦ false
  | some l ↦ elim l.window [
    | none ↦ false
    | some size ↦ covers (record { pos = l.place; size = size }) at
  ]
]

-- The search from the top of the stack, its last element, down.
pub find_from_top : List Layer → Vector2D → ℕ → List ℕ → Option ℕ
find_from_top layers at exclude_id [] = none
find_from_top layers at exclude_id (id ∷ ids) = elim (find_from_top layers at exclude_id ids) [
  | some found ↦ some found
  | none ↦ if is_hit layers at exclude_id id then some id else none
]

pub find_layer_by_position : LayerManager → Vector2D → ℕ → Option ℕ
find_layer_by_position m at exclude_id = find_from_top m.layers at exclude_id m.layer_stack

pub move_layers : List Layer → ℕ → (Vector2D → Vector2D) → List Layer
move_layers [] id f = []
move_layers (l ∷ ls) id f =
    if l.id == id then record l { place = f l.place } ∷ ls else l ∷ move_layers ls id f

pub move : LayerManager → ℕ → Vector2D → LayerManager
move m id to = record m { layers = move_layers m.layers id (λ _. to) }

pub move_relative : LayerManager → ℕ → Vector2D → LayerManager
move_relative m id delta = record m { layers = move_layers m.layers id (λ at. add at delta) }

pub record ActiveLayer : Type 0 where
  pub active_layer : ℕ
  pub mouse_layer : ℕ

abbrev pub activation_message : ℤ → Message
activation_message activate = record {
  type = window_active;
  src_task_id = 0;
  arg = window_active_arg activate;
}

-- `SendWindowActiveMessage`, with the map from layers to their tasks.
pub send_window_active : (ℕ → Option ℕ) → TaskManager → ℕ → ℤ → Code × TaskManager
send_window_active layer_task_map tasks layer_id activate = elim (layer_task_map layer_id) [
  | none ↦ (no_such_task, tasks)
  | some task_id ↦ send_message tasks task_id (activation_message activate)
]

-- The two calls of `SetIndex` in `Activate`.
pub bring_up : LayerManager → ActiveLayer → ℕ → Option LayerManager
bring_up m a layer_id = elim (set_index m layer_id (pos 0)) [
  | none ↦ none
  | some m' ↦ set_index m' layer_id (get_index m' a.mouse_layer -ℤ pos 1)
]

-- `Activate`: the layers, the active layer and the tasks.
pub activate :
    (ℕ → Option ℕ)
    → LayerManager
    → ActiveLayer
    → TaskManager
    → ℕ
    → Option (LayerManager × ActiveLayer × TaskManager)
activate layer_task_map m a tasks layer_id =
    let told =
      if ltb 0 a.active_layer
      then (send_window_active layer_task_map tasks a.active_layer (pos 0)).1
      else tasks in
    let a' = record a { active_layer = layer_id } in
    let up : Option (LayerManager × ActiveLayer × TaskManager) = elim (bring_up m a' layer_id) [
      | none ↦ none
      | some m' ↦ some (m', a', (send_window_active layer_task_map told layer_id (pos 1)).1)
    ] in
    if a.active_layer == layer_id
    then some (m, a, tasks)
    else if ltb 0 layer_id
    then up
    else some (m, a', told)

-- `CloseLayer`.
pub close_layer :
    (ℕ → Option ℕ)
    → LayerManager
    → ActiveLayer
    → TaskManager
    → ℕ
    → Code × Option (LayerManager × ActiveLayer × TaskManager × (ℕ → Option ℕ))
close_layer layer_task_map m a tasks layer_id = elim (find_layer m.layers layer_id) [
  | none ↦ (no_such_entry, some (m, a, tasks, layer_task_map))
  | some _ ↦ elim (activate layer_task_map m a tasks 0) [
    | none ↦ (success, none)
    | some (m', a', tasks') ↦ (
      success,
      some (
        remove_layer m' layer_id,
        a',
        tasks',
        λ id. if id == layer_id then none else layer_task_map id,
      ),
    )
  ]
]
