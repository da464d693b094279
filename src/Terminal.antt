-- ===== src/Terminal.antt =====
-- kernel/terminal.cpp and terminal.hpp: the terminal's cursor, its line and its history of commands.
-- What is drawn is kept as a log of text cells, the requests to redraw as a log of messages to task 1;
-- the bar at the cursor is left out. `ExecuteLine` is a parameter of `input_key`.
mod Tests
pub mod Strings
pub mod Cells
pub mod Keys
pub mod Printing
pub mod Editing
pub mod History
pub mod Argv
use mikansaos.Base.{
  ℕ, zero, suc, ◌+◌, ◌-◌, ◌*◌, ◌^◌, Bool, true, not, ◌&&◌, ltb, leb, ◌==◌, if◌then◌else◌, List, [],
  ◌∷◌, ◌++◌, length, set, get_or, Option, none, some,
}
use mikansaos.Base.Int.{ℤ, pos, negsuc, ◌+ℤ◌, ◌-ℤ◌, ltb_ℤ, pos_part, neg_part}
use mikansaos.Graphics.{Vector2D, Rectangle}
use mikansaos.Message.{Message, LayerOperation, layer_ops, layer_arg, draw_area}
use mikansaos.Font.{convert_utf8_to32, is_hankaku}

abbrev pub rows : ℕ
rows = 18

abbrev pub columns : ℕ
columns = 60

abbrev pub line_max : ℕ
line_max = 128

-- `glyph` at a cell, `blank` and `text` from a cell on, or all lines moved up.
pub data Drawn : Type 0 where
  glyph : (x y c : ℕ) → Drawn
  blank : (x y cells : ℕ) → Drawn
  text : (x y : ℕ) (string : List ℕ) → Drawn
  scrolled : Drawn

-- The cursor never is negative, so it is kept in naturals.
pub record Terminal : Type 0 where
  pub task_id : ℕ
  pub layer_id : ℕ
  pub show_window : Bool
  pub cursor_x : ℕ
  pub cursor_y : ℕ
  pub cursor_visible : Bool
  pub linebuf_index : ℕ
  pub linebuf : List ℕ
  pub cmd_history : List (List ℕ)
  pub cmd_history_index : ℤ
  pub drawn : List Drawn
  pub sent : List Message

abbrev pub draw : Terminal → Drawn → Terminal
draw t d = record t { drawn = t.drawn ++ d ∷ [] }

-- `CalcCursorPos`, with the margin of the window's frame.
pub calc_cursor_pos : Terminal → Vector2D
calc_cursor_pos t = record {
  x = pos (2 + (2 + 8 * t.cursor_x));
  y = pos (27 + (5 + 16 * t.cursor_y));
}

abbrev pub top_left_margin : Vector2D
top_left_margin = record { x = pos 2; y = pos 27 }

-- `InnerSize` of the window that the constructor makes.
abbrev pub inner_size : Vector2D
inner_size = record { x = pos (columns * 8 + 8); y = pos (rows * 16 + 8) }

-- `BlinkCursor`.
pub blink_cursor : Terminal → Terminal × Rectangle
blink_cursor t = (
  record t { cursor_visible = not t.cursor_visible },
  record { pos = calc_cursor_pos t; size = record { x = pos 7; y = pos 15 } },
)

-- The lambda `newline` of `Print`, and the same lines of `InputKey`.
pub newline : Terminal → Terminal
newline t =
    if ltb t.cursor_y (rows - 1)
    then record t { cursor_x = 0; cursor_y = t.cursor_y + 1 }
    else record (draw t scrolled) { cursor_x = 0 }

-- `WriteUnicode` at the cursor, which then moves on.
pub put_glyph : Terminal → ℕ → ℕ → Terminal
put_glyph t c width = record (draw t (glyph t.cursor_x t.cursor_y c)) {
  cursor_x = t.cursor_x + width;
}

-- `Print(char32_t)` with a window.
pub print_shown : Terminal → ℕ → Terminal
print_shown t c =
    if c == 10
    then newline t
    else if is_hankaku c
    then put_glyph (if t.cursor_x == columns then newline t else t) c 1
    else put_glyph (if leb (columns - 1) t.cursor_x then newline t else t) c 2

-- `Print(char32_t)`.
pub print_char : Terminal → ℕ → Terminal
print_char t c = if not t.show_window then t else print_shown t c

-- U'□', which stands for what cannot be decoded.
abbrev pub white_square : ℕ
white_square = 9633

-- The loop of `Print(const char*, ...)`: `s` is the memory from the string on.
pub print_loop : ℕ → Terminal → (ℕ → ℕ) → ℕ → ℕ → Option Terminal
print_loop zero t s i ptrlen = none
print_loop (suc fuel) t s i ptrlen =
    let (u32, bytes) = convert_utf8_to32 (λ k. s (i + k)) in
    let rest =
      print_loop fuel (print_char t (if u32 == 0 then white_square else u32)) s (i + bytes)
        ptrlen in
    if s i == 0 then some t else if leb ptrlen i then some t else rest

-- `MakeLayerMessage` with `DrawArea`.
pub make_draw_area : ℕ → ℕ → Rectangle → Message
make_draw_area task_id layer_id area = record {
  type = layer_ops;
  src_task_id = task_id;
  arg = layer_arg draw_area layer_id area.pos.x area.pos.y area.size.x area.size.y;
}

-- The end of `Print(const char*, ...)`: the rows from the old cursor's to the new one's are sent.
pub request_draw : Terminal → Terminal → Terminal
request_draw before after =
    let from = (calc_cursor_pos before).y in
    let area : Rectangle = record {
      pos = record { x = top_left_margin.x; y = from };
      size = record { x = inner_size.x; y = (calc_cursor_pos after).y -ℤ from +ℤ pos 16 };
    } in
    record after { sent = after.sent ++ make_draw_area after.task_id after.layer_id area ∷ [] }

abbrev max_length : Option ℕ → ℕ
max_length none = 2 ^ 64 - 1
max_length (some len) = len

abbrev requested : Terminal → Option Terminal → Option Terminal
requested before none = none
requested before (some after) = some (request_draw before after)

-- `Print(const char*, std::optional<size_t>)`.
pub print : ℕ → Terminal → (ℕ → ℕ) → Option ℕ → Option Terminal
print fuel t s len = requested t (print_loop fuel t s 0 (max_length len))

-- `Print(">")`: the one character of the string is printed.
pub prompt : Terminal → Terminal
prompt t = request_draw t (print_char t 62)

-- `strlen` and `strcpy` within arrays of characters.
unfoldable pub strlen : List ℕ → ℕ
strlen [] = 0
strlen (c ∷ cs) = if c == 0 then 0 else suc (strlen cs)

unfoldable pub strcpy : List ℕ → List ℕ → List ℕ
strcpy dst [] = dst
strcpy [] (c ∷ cs) = []
strcpy (d ∷ ds) (c ∷ cs) = if c == 0 then 0 ∷ ds else c ∷ strcpy ds cs

-- `pop_back` of a deque.
abbrev pub pop_back : List (List ℕ) → List (List ℕ)
pop_back [] = []
pop_back (x ∷ []) = []
pop_back (x ∷ y ∷ ys) = x ∷ pop_back (y ∷ ys)

-- `==` on `int`.
abbrev pub eq_ℤ : ℤ → ℤ → Bool
eq_ℤ a b = pos_part a + neg_part b == pos_part b + neg_part a

-- The new `_cmd_history_index`: -1 is the empty line.
pub step_history : ℤ → ℕ → ℤ → ℤ
step_history index size direction =
    if eq_ℤ direction (negsuc 0) && not (ltb_ℤ index (pos 0))
    then index -ℤ pos 1
    else if eq_ℤ direction (pos 1) && ltb_ℤ (index +ℤ pos 1) (pos size)
    then index +ℤ pos 1
    else index

-- `history` of `HistoryUpDown`.
abbrev pub history_line : List (List ℕ) → ℤ → List ℕ
history_line h (negsuc n) = 0 ∷ []
history_line h (pos n) = get_or h n (0 ∷ [])

-- `HistoryUpDown`.
pub history_up_down : Terminal → ℤ → Terminal × Rectangle
history_up_down t direction =
    let index = step_history t.cmd_history_index (length t.cmd_history) direction in
    let first = record t { cmd_history_index = index; cursor_x = 1 } in
    let history = history_line t.cmd_history index in
    let cleared =
      draw (draw first (blank 1 t.cursor_y (columns - 1))) (text 1 t.cursor_y history) in
    (
      record cleared {
        linebuf = strcpy t.linebuf history;
        linebuf_index = strlen history;
        cursor_x = strlen history + 1;
      },
      record {
        pos = calc_cursor_pos first;
        size = record { x = pos (8 * (columns - 1)); y = pos 16 };
      },
    )

-- The start of the branch of `InputKey` for a line's end: the line ends and joins the history.
pub end_line : Terminal → Terminal
end_line t =
    let line = set t.linebuf t.linebuf_index 0 in
    record t {
      linebuf = line;
      cmd_history = if ltb 0 t.linebuf_index then line ∷ pop_back t.cmd_history else t.cmd_history;
      linebuf_index = 0;
      cmd_history_index = negsuc 0;
    }

-- The branch for a backspace; the cell is only drawn in a window.
pub backspace : Terminal → Terminal
backspace t =
    if ltb 1 t.cursor_x
    then (let x = t.cursor_x - 1 in
        record t {
          cursor_x = x;
          drawn = if t.show_window then t.drawn ++ blank x t.cursor_y 1 ∷ [] else t.drawn;
          linebuf_index = if ltb 0 t.linebuf_index then t.linebuf_index - 1 else t.linebuf_index;
        })
    else t

-- The branch for a character.
pub type_char : Terminal → ℕ → Terminal
type_char t ascii =
    if ltb t.cursor_x (columns - 1) && ltb t.linebuf_index (line_max - 1)
    then record t {
      linebuf = set t.linebuf t.linebuf_index ascii;
      linebuf_index = t.linebuf_index + 1;
      drawn = if t.show_window then t.drawn ++ glyph t.cursor_x t.cursor_y ascii ∷ [] else t.drawn;
      cursor_x = t.cursor_x + 1;
    }
    else t

-- The area that `InputKey` asks to be drawn again, from the cell of the cursor on.
abbrev pub two_cells : Terminal → Rectangle
two_cells t = record { pos = calc_cursor_pos t; size = record { x = pos (8 * 2); y = pos 16 } }

-- `InputKey`.
pub input_key : (Terminal → Terminal) → Terminal → ℕ → ℕ → Terminal × Rectangle
input_key execute_line t keycode ascii =
    if ascii == 10
    then (
      prompt (execute_line (newline (end_line t))),
      record { pos = top_left_margin; size = inner_size },
    )
    else if ascii == 8
    then (backspace t, if ltb 1 t.cursor_x then two_cells (backspace t) else two_cells t)
    else if not (ascii == 0)
    then (type_char t ascii, two_cells t)
    else if keycode == 81
    then history_up_down t (negsuc 0)
    else if keycode == 82
    then history_up_down t (pos 1)
    else (t, two_cells t)
