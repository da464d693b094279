-- ===== src/Console/Page.antt =====
-- What the console of kernel/console.cpp shows of a text.
use mikansaos.Base.{
  ℕ, zero, suc, ◌+◌, ◌-◌, ◌<◌, ◌≤◌, min, ◌==◌, ltb, leb, ◌&&◌, if◌then◌else◌, ◌≡◌, refl, sym, ap,
  ◌∙◌, inl, inr, true, false, List, [], ◌∷◌, ◌++◌, length, length-append, take, get_or, Bool-cases,
  arith,
}
use mikansaos.Base.Maps.{update}
use mikansaos.Base.Slices.{take_empty, take-append_within}
use mikansaos.Console.{
  Console, new_console, rows, columns, scroll_loop, new_line, put_char, put_string,
}

-- The lines of a text that has been printed, the one that is written last in front, and each cut to
-- one character less than the columns.
pub record Page : Type 0 where
  pub line : List ℕ
  pub earlier : List (List ℕ)

abbrev pub add_char : Page → ℕ → Page
add_char p c =
    if c == 10
    then record { line = []; earlier = p.line ∷ p.earlier }
    else record p { line = take (columns - 1) (p.line ++ c ∷ []) }

unfoldable pub print_all : Page → List ℕ → Page
print_all p [] = p
print_all p (c ∷ cs) = print_all (add_char p c) cs

-- The byte in a row and a column where the lines, the newest in front, end in the row of the cursor.
abbrev pub shown : List (List ℕ) → ℕ → ℕ → ℕ → ℕ
shown lines cursor_row r j =
    if leb r cursor_row then get_or (get_or lines (cursor_row - r) []) j 0 else 0

abbrev pub lines : Page → List (List ℕ)
lines p = p.line ∷ p.earlier

-- The console shows the last lines, and the cursor is behind the newest.
pub record Shows (s : Console) (p : Page) : Type 0 where
  pub column : s.cursor_column ≡ length p.line
  pub inside : s.cursor_column < columns
  pub row : s.cursor_row ≡ min (length p.earlier) (rows - 1)
  pub bytes : (r j : ℕ) → r < rows → s.buffer r j ≡ shown (lines p) s.cursor_row r j

scroll_loop-row :
    (todo row : ℕ) (buffer : ℕ → ℕ → ℕ) (r j : ℕ)
    → scroll_loop todo row buffer r j
      ≡ (if leb row r && ltb r (row + todo) then buffer (r + 1) j else buffer r j)
unfolding scroll_loop
scroll_loop-row zero row buffer r j = ground arith
scroll_loop-row (suc todo) row buffer r j =
    ground (arith, scroll_loop-row todo (row + 1) (update buffer row (buffer (row + 1))) r j)

get_or-snoc :
    (xs : List ℕ) (c j : ℕ)
    → get_or (xs ++ c ∷ []) j 0 ≡ (if length xs == j then c else get_or xs j 0)
get_or-snoc [] c zero = refl
get_or-snoc [] c (suc j) = ground arith
get_or-snoc (x ∷ xs) c zero = ground arith
get_or-snoc (x ∷ xs) c (suc j) = ground (arith, get_or-snoc xs c j)

take-all : (n : ℕ) (xs : List ℕ) → length xs ≤ n → take n xs ≡ xs
take-all n [] h = take_empty n
take-all zero (x ∷ xs) h = absurd (omega arith)
take-all (suc n) (x ∷ xs) h = ap (x ∷◌) (take-all n xs (omega arith))

new-Shows : Shows new_console (record { line = []; earlier = [] })
new-Shows = record {
  column = refl;
  inside = omega arith;
  row = omega arith;
  bytes = λ r j h. ground arith;
}

shown-newest :
    (l : List ℕ) (ls : List (List ℕ)) (last r j : ℕ)
    → r ≡ last
    → shown (l ∷ ls) last r j ≡ get_or l j 0
shown-newest l ls last r j e =
    let here : leb r last ≡ true = ground (arith, e) in
    let first : last - r ≡ 0 = omega (arith, e) in rw (here, first) refl

shown-past : (ls : List (List ℕ)) (last r j : ℕ) → last < r → shown ls last r j ≡ 0
shown-past ls last r j h = let past : leb r last ≡ false = ground arith in rw past refl

-- A line in front does not change those above it, which are counted from one row further.
shown-up :
    (l : List ℕ) (ls : List (List ℕ)) (last r j : ℕ)
    → r < last
    → shown (l ∷ ls) last r j ≡ shown ls last (r + 1) j
shown-up l ls last r j h =
    let above : leb r last ≡ true = ground arith in
    let above' : leb (r + 1) last ≡ true = ground arith in
    let next : last - r ≡ suc (last - (r + 1)) = omega arith in rw (above, above', next) refl

shown-down :
    (l : List ℕ) (ls : List (List ℕ)) (last r j : ℕ)
    → r ≤ last
    → shown (l ∷ ls) (last + 1) r j ≡ shown ls last r j
shown-down l ls last r j h =
    let above : leb r last ≡ true = ground arith in
    let above' : leb r (last + 1) ≡ true = ground arith in
    let next : last + 1 - r ≡ suc (last - r) = omega arith in rw (above, above', next) refl

next_row : (ls : List (List ℕ)) (last r j : ℕ) → shown ([] ∷ ls) (last + 1) r j ≡ shown ls last r j
next_row ls last r j = elim (Bool-cases (leb r last)) [
  | inl above ↦ shown-down [] ls last r j (ground (arith, above))
  | inr past ↦ elim (Bool-cases (r == last + 1)) [
    | inl here ↦
        shown-newest [] ls (last + 1) r j (ground (arith, here))
        ∙ sym (shown-past ls last r j (ground (arith, past)))
    | inr further ↦
        shown-past ([] ∷ ls) (last + 1) r j (ground (arith, past, further))
        ∙ sym (shown-past ls last r j (ground (arith, past)))
  ]
]

new_line-Shows :
    (s : Console) (p : Page)
    → Shows s p
    → Shows (new_line s) (record { line = []; earlier = p.line ∷ p.earlier })
unfolding new_line
new_line-Shows s p h = elim (Bool-cases (ltb s.cursor_row (rows - 1))) [
  | inl more ↦ rw more (record {
    column = refl;
    inside = omega arith;
    row = ground (arith, h.row, more);
    bytes = λ r j k. h.bytes r j k ∙ sym (next_row (lines p) s.cursor_row r j);
  })
  | inr last ↦ rw last (record {
    column = refl;
    inside = omega arith;
    row = ground (arith, h.row, last);
    bytes = λ r j k. elim (Bool-cases (24 == r)) [
      | inl here ↦
          rw here
            (sym (shown-newest [] (lines p) s.cursor_row r j (ground (arith, here, last, h.row))))
      | inr above ↦ rw above (
          ground (arith, above, k, scroll_loop-row 24 0 s.buffer r j)
          ∙ h.bytes (r + 1) j (ground (arith, above, k))
          ∙ sym (shown-up [] (lines p) s.cursor_row r j (ground (arith, above, k, last, h.row))))
    ];
  })
]

-- The line, one character longer.
line_longer :
    (l : List ℕ) (ls : List (List ℕ)) (last r c j : ℕ)
    → shown ((l ++ c ∷ []) ∷ ls) last r j
      ≡ (if (last == r) && (length l == j) then c else shown (l ∷ ls) last r j)
line_longer l ls last r c j = elim (Bool-cases (last == r)) [
  | inl here ↦
      let e : r ≡ last = ground (arith, here) in
      rw (here, shown-newest (l ++ c ∷ []) ls last r j e, shown-newest l ls last r j e)
        (get_or-snoc l c j)
  | inr other ↦ elim (Bool-cases (leb r last)) [
    | inl above ↦
        let further : r < last = ground (arith, other, above) in
        rw other (shown-up (l ++ c ∷ []) ls last r j further ∙ sym (shown-up l ls last r j further))
    | inr past ↦ rw (other, past) refl
  ]
]

put_char-Shows : (s : Console) (p : Page) (c : ℕ) → Shows s p → Shows (put_char s c) (add_char p c)
unfolding put_char
put_char-Shows s p c h = elim (Bool-cases (c == 10)) [
  | inl feed ↦ rw feed (new_line-Shows s p h)
  | inr char ↦ elim (Bool-cases (ltb s.cursor_column (columns - 1))) [
    | inl room ↦
        let whole : take (columns - 1) (p.line ++ c ∷ []) ≡ p.line ++ c ∷ [] =
          take-all 79 (p.line ++ c ∷ [])
            (ground (arith, room, h.column, length-append p.line (c ∷ []))) in
        rw (char, room, whole)
          (record {
            column = omega (arith, h.column, length-append p.line (c ∷ []));
            inside = ground (arith, room);
            row = h.row;
            bytes = λ r j k.
                ground
                  (arith, h.bytes r j k, h.column, line_longer p.line p.earlier s.cursor_row r c j);
          })
    | inr full ↦
        let cut : take (columns - 1) (p.line ++ c ∷ []) ≡ p.line =
          take-append_within 79 p.line (c ∷ []) (ground (arith, full, h.column))
          ∙ take-all 79 p.line (omega (arith, h.column, h.inside)) in
        rw (char, full, cut) h
  ]
]

put_string-from :
    (cs : List ℕ) (s : Console) (p : Page) → Shows s p → Shows (put_string s cs) (print_all p cs)
unfolding put_string print_all
put_string-from [] s p h = h
put_string-from (c ∷ cs) s p h =
    put_string-from cs (put_char s c) (add_char p c) (put_char-Shows s p c h)

abbrev pub empty_page : Page
empty_page = record { line = []; earlier = [] }

-- A new console on which a text of any length is printed shows the last 25 lines of the text, each cut
-- to 79 characters, from the top, with nothing behind them. Its cursor is behind the last character of
-- the last line, inside the rows and columns.
pub put_string-Shows : (cs : List ℕ) → Shows (put_string new_console cs) (print_all empty_page cs)
put_string-Shows cs = put_string-from cs new_console empty_page new-Shows
