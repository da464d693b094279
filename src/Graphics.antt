-- ===== src/Graphics.antt =====
-- The vectors and rectangles of kernel/graphics.hpp, over `int`. Coordinates stay far inside 32 bits,
-- so sums of them are not wrapped.
pub mod Overlap
mod Tests
use mikansaos.Base.{Bool, if◌then◌else◌, ◌||◌, ◌&&◌, not}
use mikansaos.Base.Int.{ℤ, pos, ltb_ℤ, ◌+ℤ◌, ◌-ℤ◌}

pub record Vector2D : Type 0 where
  pub x : ℤ
  pub y : ℤ

pub record Rectangle : Type 0 where
  pub pos : Vector2D
  pub size : Vector2D

-- `operator +` and `operator -`.
abbrev pub add : Vector2D → Vector2D → Vector2D
add a b = record { x = a.x +ℤ b.x; y = a.y +ℤ b.y }

abbrev pub sub : Vector2D → Vector2D → Vector2D
sub a b = record { x = a.x -ℤ b.x; y = a.y -ℤ b.y }

-- `std::max` and `std::min`.
abbrev pub max_ℤ : ℤ → ℤ → ℤ
max_ℤ a b = if ltb_ℤ a b then b else a

abbrev pub min_ℤ : ℤ → ℤ → ℤ
min_ℤ a b = if ltb_ℤ b a then b else a

abbrev pub element_max : Vector2D → Vector2D → Vector2D
element_max a b = record { x = max_ℤ a.x b.x; y = max_ℤ a.y b.y }

abbrev pub element_min : Vector2D → Vector2D → Vector2D
element_min a b = record { x = min_ℤ a.x b.x; y = min_ℤ a.y b.y }

abbrev pub zero_vector : Vector2D
zero_vector = record { x = pos 0; y = pos 0 }

-- `operator &`.
pub intersect : Rectangle → Rectangle → Rectangle
intersect lhs rhs =
    let lhs_end = add lhs.pos lhs.size in
    let rhs_end = add rhs.pos rhs.size in
    let new_pos = element_max lhs.pos rhs.pos in
    if ltb_ℤ lhs_end.x rhs.pos.x
      || ltb_ℤ rhs_end.x lhs.pos.x
      || ltb_ℤ lhs_end.y rhs.pos.y
      || ltb_ℤ rhs_end.y lhs.pos.y
    then record { pos = zero_vector; size = zero_vector }
    else record { pos = new_pos; size = sub (element_min lhs_end rhs_end) new_pos }

-- Whether the point is in the rectangle, its right and lower edges left out.
pub covers : Rectangle → Vector2D → Bool
covers r p =
    let end = add r.pos r.size in
    not (ltb_ℤ p.x r.pos.x) && ltb_ℤ p.x end.x && not (ltb_ℤ p.y r.pos.y) && ltb_ℤ p.y end.y
