-- ===== src/Graphics/Overlap.antt =====
-- `operator &` of kernel/graphics.hpp is the intersection of the rectangles' points.
use mikansaos.Base.{◌≡◌, true, false, not, ◌&&◌, inl, inr, Bool-cases, arith}
use mikansaos.Base.Int.{ℤ, pos, ltb_ℤ, ◌+ℤ◌, ◌-ℤ◌, +ℤ_parts, -ℤ_parts}
use mikansaos.Graphics.{Vector2D, Rectangle, max_ℤ, min_ℤ, intersect, covers}

-- One axis: from `a` for `m` and from `b` for `n`.
on_axis :
    (a m b n p : ℤ)
    → ltb_ℤ (a +ℤ m) b ≡ false
    → ltb_ℤ (b +ℤ n) a ≡ false
    → (not (ltb_ℤ p (max_ℤ a b)) && ltb_ℤ p (max_ℤ a b +ℤ (min_ℤ (a +ℤ m) (b +ℤ n) -ℤ max_ℤ a b)))
      ≡ (not (ltb_ℤ p a) && ltb_ℤ p (a +ℤ m) && (not (ltb_ℤ p b) && ltb_ℤ p (b +ℤ n)))
on_axis a m b n p h k =
    let e = min_ℤ (a +ℤ m) (b +ℤ n) -ℤ max_ℤ a b in
    ground (
      arith,
      +ℤ_parts a m,
      +ℤ_parts b n,
      -ℤ_parts (min_ℤ (a +ℤ m) (b +ℤ n)) (max_ℤ a b),
      +ℤ_parts (max_ℤ a b) e,
    )

apart :
    (a m b n p : ℤ)
    → ltb_ℤ (a +ℤ m) b ≡ true
    → (not (ltb_ℤ p a) && ltb_ℤ p (a +ℤ m) && (not (ltb_ℤ p b) && ltb_ℤ p (b +ℤ n))) ≡ false
apart a m b n p h = ground (arith, h)

nowhere : (q : ℤ) → (not (ltb_ℤ q (pos 0)) && ltb_ℤ q (pos 0 +ℤ pos 0)) ≡ false
nowhere q = ground (arith, +ℤ_parts (pos 0) (pos 0))

-- A point is in the rectangle that `operator &` gives exactly if it is in both rectangles, also where
-- these do not meet.
pub covers-intersect :
    (a b : Rectangle) (p : Vector2D) → covers (intersect a b) p ≡ (covers a p && covers b p)
unfolding covers intersect
covers-intersect a b p = elim (Bool-cases (ltb_ℤ (a.pos.x +ℤ a.size.x) b.pos.x)) [
  | inl left ↦ ground (arith, left, apart a.pos.x a.size.x b.pos.x b.size.x p.x left, nowhere p.x)
  | inr l ↦ elim (Bool-cases (ltb_ℤ (b.pos.x +ℤ b.size.x) a.pos.x)) [
    | inl right ↦
        ground (arith, l, right, apart b.pos.x b.size.x a.pos.x a.size.x p.x right, nowhere p.x)
    | inr r ↦ elim (Bool-cases (ltb_ℤ (a.pos.y +ℤ a.size.y) b.pos.y)) [
      | inl above ↦
          ground
            (arith, l, r, above, apart a.pos.y a.size.y b.pos.y b.size.y p.y above, nowhere p.x)
      | inr u ↦ elim (Bool-cases (ltb_ℤ (b.pos.y +ℤ b.size.y) a.pos.y)) [
        | inl below ↦
            ground (
              arith,
              l,
              r,
              u,
              below,
              apart b.pos.y b.size.y a.pos.y a.size.y p.y below,
              nowhere p.x,
            )
        | inr d ↦ ground (
          arith,
          l,
          r,
          u,
          d,
          on_axis a.pos.x a.size.x b.pos.x b.size.x p.x l r,
          on_axis a.pos.y a.size.y b.pos.y b.size.y p.y u d,
        )
      ]
    ]
  ]
]
