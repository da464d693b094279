-- ===== src/Graphics/Tests.antt =====
-- Inputs for the theorem on the rectangles of kernel/graphics.hpp.
use mikansaos.Base.{◌≡◌, refl, ◌&&◌}
use mikansaos.Base.Int.{pos, ◌+ℤ◌, ◌-ℤ◌}
use mikansaos.Graphics.{Rectangle, intersect, covers}
use mikansaos.Graphics.Overlap.{covers-intersect}

abbrev left : Rectangle
left = record { pos = record { x = pos 0; y = pos 0 }; size = record { x = pos 4; y = pos 3 } }

abbrev right : Rectangle
right = record { pos = record { x = pos 2; y = pos 1 }; size = record { x = pos 5; y = pos 5 } }

overlap :
    intersect left right
    ≡ record { pos = record { x = pos 2; y = pos 1 }; size = record { x = pos 2; y = pos 2 } }
unfolding intersect ◌+ℤ◌ ◌-ℤ◌
overlap = refl

covers-intersect_example : covers (intersect left right) (record { x = pos 3; y = pos 2 }) ≡ (
    covers left (record { x = pos 3; y = pos 2 }) && covers right (record { x = pos 3; y = pos 2 }))
covers-intersect_example = covers-intersect left right (record { x = pos 3; y = pos 2 })
