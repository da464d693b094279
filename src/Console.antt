-- ===== src/Console.antt =====
-- kernel/console.cpp and kernel/console.hpp: the text of the console. What is drawn is left out: the
-- pixels follow the text.
pub mod Page
mod Tests
use mikansaos.Base.{ℕ, zero, suc, ◌+◌, ◌-◌, ◌==◌, ltb, if◌then◌else◌, List, [], ◌∷◌}
use mikansaos.Base.Maps.{update}

-- `kRows` and `kColumns`.
abbrev pub rows : ℕ
rows = 25

abbrev pub columns : ℕ
columns = 80

-- `buffer` holds a line for each row, of `kColumns + 1` bytes.
pub record Console : Type 0 where
  pub buffer : ℕ → ℕ → ℕ
  pub cursor_row : ℕ
  pub cursor_column : ℕ

-- A new console.
abbrev pub new_console : Console
new_console = record { buffer = λ _ _. 0; cursor_row = 0; cursor_column = 0 }

-- The loop of `NewLine` that moves each line up by one, with `todo` rounds to go.
pub scroll_loop : ℕ → ℕ → (ℕ → ℕ → ℕ) → ℕ → ℕ → ℕ
scroll_loop zero row buffer = buffer
scroll_loop (suc todo) row buffer =
    scroll_loop todo (row + 1) (update buffer row (buffer (row + 1)))

-- `NewLine`.
pub new_line : Console → Console
new_line s =
    if ltb s.cursor_row (rows - 1)
    then record s { cursor_column = 0; cursor_row = s.cursor_row + 1 }
    else record s {
      cursor_column = 0;
      buffer = update (scroll_loop (rows - 1) 0 s.buffer) (rows - 1) (λ _. 0);
    }

-- A round of `PutString`; 10 is the line feed.
pub put_char : Console → ℕ → Console
put_char s c =
    if c == 10
    then new_line s
    else if ltb s.cursor_column (columns - 1)
    then record s {
      buffer = update s.buffer s.cursor_row (update (s.buffer s.cursor_row) s.cursor_column c);
      cursor_column = s.cursor_column + 1;
    }
    else s

-- `PutString`, of the characters before the terminator.
pub put_string : Console → List ℕ → Console
put_string s [] = s
put_string s (c ∷ cs) = put_string (put_char s c) cs
