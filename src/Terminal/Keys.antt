-- ===== src/Terminal/Keys.antt =====
-- `InputKey` of kernel/terminal.cpp: what a key keeps.
use mikansaos.Base.{
  ℕ, zero, suc, ◌-◌, ◌<◌, ◌≡◌, refl, ◌∙◌, inl, inr, Bool-cases, Bool, true, false, List, [], ◌∷◌,
  ◌++◌, ltb, ltb→lt, lt→ltb, ◌==◌, if◌then◌else◌, length, length-set, set, get_or, arith, ◌&&◌,
}
use mikansaos.Base.Int.{ℤ, pos, negsuc}
use mikansaos.Terminal.Strings.{strlen-set_zero, length-strcpy}
use mikansaos.Terminal.{
  Terminal, Drawn, glyph, blank, text, columns, line_max, newline, strlen, pop_back, history_line,
  end_line, backspace, type_char, history_up_down, step_history, prompt, request_draw, input_key,
}
use mikansaos.Terminal.Cells.{
  Inside, AllInside, AllInside-snoc, AllShort, Inv, newline-Inv, newline-index, print_char-Inv,
}

AllShort-pop_back : (h : List (List ℕ)) → AllShort h → AllShort (pop_back h)
unfolding AllShort
AllShort-pop_back [] s = tt
AllShort-pop_back (x ∷ []) s = tt
AllShort-pop_back (x ∷ y ∷ ys) s = (s.0, AllShort-pop_back (y ∷ ys) s.1)

AllShort-get_or : (h : List (List ℕ)) (n : ℕ) → AllShort h → strlen (get_or h n (0 ∷ [])) < columns
unfolding AllShort strlen
AllShort-get_or [] n s = ground arith
AllShort-get_or (x ∷ xs) zero s = s.0
AllShort-get_or (x ∷ xs) (suc n) s = AllShort-get_or xs n s.1

history_line-short : (h : List (List ℕ)) (i : ℤ) → AllShort h → strlen (history_line h i) < columns
unfolding strlen
history_line-short h (negsuc n) s = ground arith
history_line-short h (pos n) s = AllShort-get_or h n s

end_line-short :
    (line : List ℕ) (i : ℕ) (h : List (List ℕ))
    → i < columns
    → length line ≡ line_max
    → AllShort h
    → AllShort (if ltb 0 i then set line i 0 ∷ pop_back h else h)
unfolding AllShort
end_line-short line zero h l e s = s
end_line-short line (suc i) h l e s =
    let ends = strlen-set_zero line (suc i) (omega arith) in
    rw (lt→ltb 0 (suc i) (omega arith)) (omega arith, AllShort-pop_back h s)

end_line-Inv : (t : Terminal) → Inv t → Inv (end_line t)
unfolding end_line
end_line-Inv t i = record {
  column = i.column;
  row = i.row;
  index_column = omega arith;
  index = omega arith;
  size = length-set t.linebuf t.linebuf_index 0 ∙ i.size;
  short = end_line-short t.linebuf t.linebuf_index t.cmd_history i.index i.size i.short;
  inside = i.inside;
}

end_line-index : (t : Terminal) → (end_line t).linebuf_index ≡ 0
unfolding end_line
end_line-index t = refl

drawn_or-Inside :
    (b : Bool) (ds : List Drawn) (d : Drawn)
    → AllInside ds
    → Inside d
    → AllInside (if b then ds ++ d ∷ [] else ds)
drawn_or-Inside true ds d all one = AllInside-snoc ds d all one
drawn_or-Inside false ds d all one = all

backspace-Inv : (t : Terminal) → Inv t → Inv (backspace t)
unfolding backspace Inside
backspace-Inv t i = elim (Bool-cases (ltb 1 t.cursor_x)) [
  | inr start ↦ rw start i
  | inl later ↦
      let past = ltb→lt 1 t.cursor_x later in
      rw later (record {
        column = omega (arith, i.column);
        row = i.row;
        index_column = ground (arith, i.index_column);
        index = ground (arith, i.index);
        size = i.size;
        short = i.short;
        inside =
            drawn_or-Inside t.show_window t.drawn (blank (t.cursor_x - 1) t.cursor_y 1) i.inside
              (omega (arith, i.column), i.row);
      })
]

type_char-Inv : (t : Terminal) (c : ℕ) → Inv t → Inv (type_char t c)
unfolding type_char Inside
type_char-Inv t c i =
    elim (Bool-cases (ltb t.cursor_x (columns - 1) && ltb t.linebuf_index (line_max - 1))) [
      | inr full ↦ rw full i
      | inl room ↦
          let left : t.cursor_x < columns - 1 = ground arith in
          rw room (record {
            column = omega arith;
            row = i.row;
            index_column = omega (arith, i.index_column);
            index = omega (arith, i.index_column);
            size = length-set t.linebuf t.linebuf_index c ∙ i.size;
            short = i.short;
            inside =
                drawn_or-Inside t.show_window t.drawn (glyph t.cursor_x t.cursor_y c) i.inside
                  (ground arith, i.row);
          })
    ]

history_up_down-Inv : (t : Terminal) (d : ℤ) → Inv t → Inv (history_up_down t d).0
unfolding history_up_down Inside
history_up_down-Inv t d i =
    let index = step_history t.cmd_history_index (length t.cmd_history) d in
    let line = history_line t.cmd_history index in
    let fits : strlen line < columns = history_line-short t.cmd_history index i.short in
    record {
      column = omega arith;
      row = i.row;
      index_column = omega arith;
      index = fits;
      size = length-strcpy t.linebuf line ∙ i.size;
      short = i.short;
      inside =
          AllInside-snoc (t.drawn ++ blank 1 t.cursor_y (columns - 1) ∷ []) (text 1 t.cursor_y line)
            (AllInside-snoc t.drawn (blank 1 t.cursor_y (columns - 1)) i.inside
              (omega arith, i.row))
            (omega arith, i.row);
    }

-- What `ExecuteLine` must keep: the bounds, and the empty line.
abbrev pub Keeps : (Terminal → Terminal) → Type 0
Keeps f = (t : Terminal) → Inv t → t.linebuf_index ≡ 0 → Inv (f t) × ((f t).linebuf_index ≡ 0)

pub prompt-Inv : (t : Terminal) → Inv t → t.linebuf_index ≡ 0 → Inv (prompt t)
unfolding prompt request_draw
prompt-Inv t i e =
    let j = print_char-Inv t 62 i e in
    record {
      column = j.column;
      row = j.row;
      index_column = j.index_column;
      index = j.index;
      size = j.size;
      short = j.short;
      inside = j.inside;
    }

-- Every key keeps the cursor and the line within their bounds, and draws within the window, provided
-- that the execution of a line does.
pub input_key-Inv :
    (execute_line : Terminal → Terminal) (t : Terminal) (keycode ascii : ℕ)
    → Keeps execute_line
    → Inv t
    → Inv (input_key execute_line t keycode ascii).0
unfolding input_key
input_key-Inv execute_line t keycode ascii keeps i = elim (Bool-cases (ascii == 10)) [
  | inl enter ↦
      let fresh = newline-Inv (end_line t) (end_line-Inv t i) (end_line-index t) in
      let done =
        keeps (newline (end_line t)) fresh (newline-index (end_line t) ∙ end_line-index t) in
      rw enter (prompt-Inv (execute_line (newline (end_line t))) done.0 done.1)
  | inr typed ↦ rw typed (elim (Bool-cases (ascii == 8)) [
    | inl back ↦ rw back (backspace-Inv t i)
    | inr other ↦ rw other (elim (Bool-cases (ascii == 0)) [
      | inr char ↦ rw char (type_char-Inv t ascii i)
      | inl none ↦ rw none (elim (Bool-cases (keycode == 81)) [
        | inl down ↦ rw down (history_up_down-Inv t (negsuc 0) i)
        | inr not_down ↦ rw not_down (elim (Bool-cases (keycode == 82)) [
          | inl up ↦ rw up (history_up_down-Inv t (pos 1) i)
          | inr neither ↦ rw neither i
        ])
      ])
    ])
  ])
]
