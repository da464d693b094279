-- ===== src/Terminal/Cells.antt =====
-- `InputKey` and `Print(char32_t)` of kernel/terminal.cpp: the bounds of the cursor, of the line and of
-- the history, and the cells that are drawn.
use mikansaos.Base.{
  ℕ, ◌+◌, ◌-◌, ◌≤◌, ◌<◌, ◌≡◌, inl, inr, Bool-cases, List, [], ◌∷◌, ◌++◌, ltb, ltb→lt, leb, ◌==◌,
  if◌then◌else◌, length, arith,
}
use mikansaos.Font.{is_hankaku}
use mikansaos.Terminal.{
  Terminal, Drawn, glyph, blank, text, scrolled, columns, rows, line_max, newline, put_glyph,
  print_shown, print_char, strlen,
}

-- In the window: a glyph takes up to two cells, a string at most one cell for each of its bytes.
unfoldable pub Inside : Drawn → Type 0
Inside (glyph x y c) = (x + (if leb c 127 then 1 else 2) ≤ columns) × (y < rows)
Inside (blank x y cells) = (x + cells ≤ columns) × (y < rows)
Inside (text x y string) = (x + strlen string ≤ columns) × (y < rows)
Inside scrolled = Unit

unfoldable pub AllInside : List Drawn → Type 0
AllInside [] = Unit
AllInside (d ∷ ds) = Inside d × AllInside ds

pub AllInside-snoc :
    (ds : List Drawn) (d : Drawn) → AllInside ds → Inside d → AllInside (ds ++ d ∷ [])
unfolding AllInside
AllInside-snoc [] d all one = (one, tt)
AllInside-snoc (e ∷ ds) d all one = (all.0, AllInside-snoc ds d all.1 one)

-- Lines that fit behind the prompt.
unfoldable pub AllShort : List (List ℕ) → Type 0
AllShort [] = Unit
AllShort (h ∷ hs) = (strlen h < columns) × AllShort hs

-- The bounds that hold between two keys.
pub record Inv (t : Terminal) : Type 0 where
  pub column : t.cursor_x ≤ columns
  pub row : t.cursor_y < rows
  pub index_column : t.linebuf_index ≤ t.cursor_x
  pub index : t.linebuf_index < columns
  pub size : length t.linebuf ≡ line_max
  pub short : AllShort t.cmd_history
  pub inside : AllInside t.drawn

pub newline-Inv : (t : Terminal) → Inv t → t.linebuf_index ≡ 0 → Inv (newline t)
unfolding newline Inside
newline-Inv t i e = elim (Bool-cases (ltb t.cursor_y (rows - 1))) [
  | inl below ↦
      let low = ltb→lt t.cursor_y (rows - 1) below in
      rw below (record {
        column = omega arith;
        row = omega arith;
        index_column = omega arith;
        index = i.index;
        size = i.size;
        short = i.short;
        inside = i.inside;
      })
  | inr bottom ↦ rw bottom (record {
    column = omega arith;
    row = i.row;
    index_column = omega arith;
    index = i.index;
    size = i.size;
    short = i.short;
    inside = AllInside-snoc t.drawn scrolled i.inside tt;
  })
]

newline-column : (t : Terminal) → (newline t).cursor_x ≡ 0
unfolding newline
newline-column t = ground arith

pub newline-index : (t : Terminal) → (newline t).linebuf_index ≡ t.linebuf_index
unfolding newline
newline-index t = ground arith

-- A glyph that has room.
put_glyph-Inv :
    (t : Terminal) (c width : ℕ)
    → Inv t
    → t.cursor_x + (if leb c 127 then 1 else 2) ≤ columns
    → t.cursor_x + width ≤ columns
    → Inv (put_glyph t c width)
unfolding put_glyph Inside
put_glyph-Inv t c width i room moved = record {
  column = moved;
  row = i.row;
  index_column = omega (arith, i.index_column);
  index = i.index;
  size = i.size;
  short = i.short;
  inside = AllInside-snoc t.drawn (glyph t.cursor_x t.cursor_y c) i.inside (room, i.row);
}

print_shown-Inv : (t : Terminal) (c : ℕ) → Inv t → t.linebuf_index ≡ 0 → Inv (print_shown t c)
unfolding print_shown is_hankaku
print_shown-Inv t c i e =
    let fresh = newline-Inv t i e in
    elim (Bool-cases (c == 10)) [
      | inl ended ↦ rw ended fresh
      | inr other ↦ rw other (elim (Bool-cases (leb c 127)) [
        | inl narrow ↦ rw narrow (elim (Bool-cases (t.cursor_x == columns)) [
          | inl full ↦ rw full (
              put_glyph-Inv (newline t) c 1 fresh (ground (arith, newline-column t))
                (ground (arith, newline-column t)))
          | inr room ↦
              rw room (put_glyph-Inv t c 1 i (ground (arith, i.column)) (ground (arith, i.column)))
        ])
        | inr wide ↦ rw wide (elim (Bool-cases (leb (columns - 1) t.cursor_x)) [
          | inl full ↦ rw full (
              put_glyph-Inv (newline t) c 2 fresh (ground (arith, newline-column t))
                (ground (arith, newline-column t)))
          | inr room ↦
              rw room (put_glyph-Inv t c 2 i (ground (arith, i.column)) (ground (arith, i.column)))
        ])
      ])
    ]

-- Where the line is empty, `Print(char32_t)` keeps the bounds and leaves the line empty.
pub print_char-Inv : (t : Terminal) (c : ℕ) → Inv t → t.linebuf_index ≡ 0 → Inv (print_char t c)
unfolding print_char
print_char-Inv t c i e = elim (Bool-cases t.show_window) [
  | inr hidden ↦ simp (hidden) i
  | inl shown ↦ simp (shown) (print_shown-Inv t c i e)
]

pub print_char-index : (t : Terminal) (c : ℕ) → (print_char t c).linebuf_index ≡ t.linebuf_index
unfolding print_char print_shown put_glyph newline
print_char-index t c = ground arith
