-- ===== src/Fat/Names.antt =====
-- The 8.3 names of kernel/fat.cpp: how they are stored, compared and shown. A C string is the list of
-- its bytes before the terminating zero. `toupper` is that of the C locale.
pub mod Compare
pub mod Shown
mod Tests
use mikansaos.Base.{
  ℕ, zero, suc, ◌+◌, ◌-◌, ◌*◌, ◌/◌, ◌%◌, ◌==◌, ltb, leb, if◌then◌else◌, Bool, true, false, ◌&&◌,
  List, [], ◌∷◌, ◌++◌, Option, none, some, take, drop, set, replicate,
}

abbrev pub dot : ℕ
dot = 46

abbrev pub space : ℕ
space = 0x20

unfoldable pub toupper : ℕ → ℕ
toupper c = if leb 97 c && leb c 122 then c - 32 else c

-- `memcmp(a, b, n) == 0` on two buffers of the same size.
unfoldable pub same_bytes : List ℕ → List ℕ → Bool
same_bytes [] [] = true
same_bytes [] (_ ∷ _) = false
same_bytes (_ ∷ _) [] = false
same_bytes (a ∷ xs) (b ∷ ys) = (a == b) && same_bytes xs ys

-- The loop of `NameIsEqual`: `i83` is the place of the next character.
unfoldable pub encode83 : List ℕ → ℕ → List ℕ → List ℕ
encode83 [] i83 name83 = name83
encode83 (c ∷ cs) i83 name83 =
    let place = if c == dot then 8 else i83 + 1 in
    let written = if c == dot then name83 else set name83 i83 (toupper c) in
    let rest = encode83 cs place written in if ltb i83 11 then rest else name83

unfoldable pub name_is_equal : List ℕ → List ℕ → Bool
name_is_equal entry_name name = same_bytes entry_name (encode83 name 0 (replicate 11 space))

-- `strrchr(name, '.')`: the index of the last dot.
unfoldable pub last_dot : List ℕ → Option ℕ
last_dot [] = none
last_dot (c ∷ cs) = elim (last_dot cs) [
  | some i ↦ some (suc i)
  | none ↦ if c == dot then some 0 else none
]

-- A loop of `SetFileName`: at most `rounds` characters of `from`, in capitals, from place `i` on.
unfoldable pub copy_upper : List ℕ → ℕ → List ℕ → ℕ → List ℕ
copy_upper name i from zero = name
copy_upper name i [] (suc rounds) = name
copy_upper name i (c ∷ cs) (suc rounds) = copy_upper (set name i (toupper c)) (i + 1) cs rounds

-- `SetFileName`: the eleven bytes of the entry's name.
unfoldable pub set_file_name : List ℕ → List ℕ
set_file_name name = elim (last_dot name) [
  | some dot_pos ↦
      copy_upper (copy_upper (replicate 11 space) 0 (take dot_pos name) 8) 8
        (drop (dot_pos + 1) name) 3
  | none ↦ copy_upper (replicate 11 space) 0 name 8
]

-- The loops of `ReadName` that end a string before the spaces at its end.
pub strip_spaces : List ℕ → List ℕ
strip_spaces [] = []
strip_spaces (c ∷ cs) = elim (strip_spaces cs) [
  | [] ↦ if c == space then [] else c ∷ []
  | d ∷ ds ↦ c ∷ d ∷ ds
]

-- `ReadName`: the base and the extension.
pub read_name : List ℕ → List ℕ × List ℕ
read_name entry_name = (strip_spaces (take 8 entry_name), strip_spaces (take 3 (drop 8 entry_name)))

-- `FormatName` on the two parts: the extension, if there is one, behind a dot.
abbrev pub join_name : List ℕ → List ℕ → List ℕ
join_name base [] = base
join_name base (e ∷ es) = base ++ dot ∷ e ∷ es

pub format_name : List ℕ → List ℕ
format_name entry_name = join_name (read_name entry_name).0 (read_name entry_name).1

-- `CheckSum`, in a byte.
pub check_sum_from : ℕ → List ℕ → ℕ
check_sum_from sum [] = sum
check_sum_from sum (c ∷ cs) = check_sum_from ((sum / 2 + sum * 128 + c) % 256) cs

pub check_sum : List ℕ → ℕ
check_sum entry_name = check_sum_from 0 entry_name

-- `NextPathElement`: the rest of the path, if there is a slash, the element before it, and whether
-- there is one.
unfoldable pub next_path_element : List ℕ → Option (List ℕ) × List ℕ × Bool
next_path_element [] = (none, [], false)
next_path_element (c ∷ cs) =
    let (rest, elem, slash) = next_path_element cs in
    if c == 47 then (some cs, [], true) else (rest, c ∷ elem, slash)
