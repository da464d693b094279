-- ===== src/Terminal/Editing.antt =====
-- Typing and deleting in `InputKey` of kernel/terminal.cpp, against a line as a list of characters.
use mikansaos.Base.{
  ℕ, zero, suc, ◌+◌, ◌-◌, ◌≤◌, ◌<◌, ◌≡◌, ◌≢◌, refl, ap, ◌∙◌, sym, inl, inr, Bool-cases, List, [],
  ◌∷◌, ◌++◌, ltb, ltb→lt, ◌==◌, ==_iff, if◌then◌else◌, length, length-take, length-set, set, take,
  arith,
}
use mikansaos.Terminal.{Terminal, columns, line_max, backspace, type_char, input_key}

-- The line that is edited.
abbrev pub line : Terminal → List ℕ
line t = take t.linebuf_index t.linebuf

-- The cursor stands behind the line and the prompt.
pub record AtPrompt (t : Terminal) : Type 0 where
  pub column : t.cursor_x ≡ t.linebuf_index + 1
  pub within : t.cursor_x < columns
  pub size : length t.linebuf ≡ line_max

-- A backspace takes the last character away, any other key adds one while there is room.
unfoldable pub edited : List ℕ → ℕ → List ℕ
edited cs key =
    if key == 8
    then take (length cs - 1) cs
    else if ltb (length cs) (columns - 2)
    then cs ++ key ∷ []
    else cs

-- Keys that edit: all that have a character but the line's end.
unfoldable pub AllEditing : List ℕ → Type 0
AllEditing [] = Unit
AllEditing (key ∷ keys) = (key ≢ 0) × (key ≢ 10) × AllEditing keys

unfoldable pub edited_by : List ℕ → List ℕ → List ℕ
edited_by cs [] = cs
edited_by cs (key ∷ keys) = edited_by (edited cs key) keys

pub type_keys : (Terminal → Terminal) → Terminal → List ℕ → Terminal
type_keys execute_line t [] = t
type_keys execute_line t (key ∷ keys) =
    type_keys execute_line (input_key execute_line t 0 key).0 keys

take-suc-set :
    (xs : List ℕ) (i v : ℕ) → i < length xs → take (suc i) (set xs i v) ≡ take i xs ++ v ∷ []
take-suc-set [] i v h = absurd (omega arith)
take-suc-set (x ∷ xs) zero v h = refl
take-suc-set (x ∷ xs) (suc i) v h = ap (x ∷◌) (take-suc-set xs i v (omega arith))

take-take : (n m : ℕ) (xs : List ℕ) → n ≤ m → take n (take m xs) ≡ take n xs
take-take zero m xs h = refl
take-take (suc n) zero xs h = absurd (omega arith)
take-take (suc n) (suc m) [] h = refl
take-take (suc n) (suc m) (x ∷ xs) h = ap (x ∷◌) (take-take n m xs (omega arith))

line-length : (t : Terminal) → AtPrompt t → length (line t) ≡ t.linebuf_index
line-length t a = omega (arith, length-take t.linebuf_index t.linebuf, a.size, a.column, a.within)

-- What the two branches do to the fields, at the prompt.
backspace-index : (t : Terminal) → AtPrompt t → (backspace t).linebuf_index ≡ t.linebuf_index - 1
unfolding backspace
backspace-index t a = ground (arith, a.column)

backspace-column : (t : Terminal) → AtPrompt t → (backspace t).cursor_x ≡ t.linebuf_index - 1 + 1
unfolding backspace
backspace-column t a = ground (arith, a.column)

backspace-linebuf : (t : Terminal) → (backspace t).linebuf ≡ t.linebuf
unfolding backspace
backspace-linebuf t = ground arith

backspace-edits :
    (t : Terminal)
    → AtPrompt t
    → AtPrompt (backspace t) × (line (backspace t) ≡ take (length (line t) - 1) (line t))
backspace-edits t a =
    let index = backspace-index t a in
    let shorter : take (length (line t) - 1) (line t) ≡ take (t.linebuf_index - 1) t.linebuf =
      rw (line-length t a)
        (take-take (t.linebuf_index - 1) t.linebuf_index t.linebuf (omega arith)) in
    (
      record {
        column = omega (arith, index, backspace-column t a);
        within = omega (arith, backspace-column t a, a.column, a.within);
        size = ap length (backspace-linebuf t) ∙ a.size;
      },
      rw (index, backspace-linebuf t) (sym shorter),
    )

-- A full line stays.
type_char-full :
    (t : Terminal) (c : ℕ) → AtPrompt t → (t.linebuf_index < columns - 2 → ⊥) → type_char t c ≡ t
unfolding type_char
type_char-full t c a h = ground (arith, a.column)

type_char-index :
    (t : Terminal) (c : ℕ)
    → AtPrompt t
    → t.linebuf_index < columns - 2
    → ((type_char t c).linebuf_index ≡ suc t.linebuf_index)
      × ((type_char t c).cursor_x ≡ t.cursor_x + 1)
      × ((type_char t c).linebuf ≡ set t.linebuf t.linebuf_index c)
unfolding type_char
type_char-index t c a h =
    (ground (arith, a.column), ground (arith, a.column), ground (arith, a.column))

type_char-edits :
    (t : Terminal) (c : ℕ)
    → AtPrompt t
    → AtPrompt (type_char t c)
      × (line (type_char t c)
          ≡ (if ltb (length (line t)) (columns - 2) then line t ++ c ∷ [] else line t))
type_char-edits t c a = rw (line-length t a) (elim (Bool-cases (ltb t.linebuf_index 58)) [
  | inl room ↦
      let next = type_char-index t c a (ltb→lt t.linebuf_index 58 room) in
      let low = ltb→lt t.linebuf_index 58 room in
      rw room (
        record {
          column = omega (arith, next.0, next.1, a.column);
          within = omega (arith, next.1, a.column);
          size = ap length next.2 ∙ length-set t.linebuf t.linebuf_index c ∙ a.size;
        },
        rw (next.0, next.2) (take-suc-set t.linebuf t.linebuf_index c (omega (arith, a.size))),
      )
  | inr full ↦ rw (full, type_char-full t c a (λ h. ground arith)) (a, refl)
])

input_key-back :
    (execute_line : Terminal → Terminal) (t : Terminal)
    → (input_key execute_line t 0 8).0 ≡ backspace t
unfolding input_key
input_key-back execute_line t = refl

input_key-char :
    (execute_line : Terminal → Terminal) (t : Terminal) (key : ℕ)
    → key ≢ 0
    → key ≢ 10
    → key ≢ 8
    → (input_key execute_line t 0 key).0 ≡ type_char t key
unfolding input_key
input_key-char execute_line t key nz nl nb = ground arith

input_key-edits :
    (execute_line : Terminal → Terminal) (t : Terminal) (key : ℕ)
    → AtPrompt t
    → key ≢ 0
    → key ≢ 10
    → AtPrompt (input_key execute_line t 0 key).0
      × (line (input_key execute_line t 0 key).0 ≡ edited (line t) key)
unfolding edited
input_key-edits execute_line t key a nz nl = elim (Bool-cases (key == 8)) [
  | inl back ↦ rw ((==_iff key 8).0 back, input_key-back execute_line t) (backspace-edits t a)
  | inr char ↦
      let other : key ≢ 8 = λ e. ground arith in
      rw (char, input_key-char execute_line t key nz nl other) (type_char-edits t key a)
]

-- At a prompt, after any keys with characters other than the line's end, the line is what the same keys
-- make of it as a list: a backspace takes the last character away, and another key adds its character
-- as long as there are fewer than 58.
pub type_keys-line :
    (execute_line : Terminal → Terminal) (keys : List ℕ) (t : Terminal)
    → AtPrompt t
    → AllEditing keys
    → AtPrompt (type_keys execute_line t keys)
      × (line (type_keys execute_line t keys) ≡ edited_by (line t) keys)
unfolding type_keys edited_by AllEditing
type_keys-line execute_line [] t a all = (a, refl)
type_keys-line execute_line (key ∷ keys) t a all =
    let one = input_key-edits execute_line t key a all.0 all.1 in
    let rest = type_keys-line execute_line keys (input_key execute_line t 0 key).0 one.0 all.2 in
    (rest.0, rest.1 ∙ ap (λ (cs : List ℕ). edited_by cs keys) one.1)
