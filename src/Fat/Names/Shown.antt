-- ===== src/Fat/Names/Shown.antt =====
-- `FormatName` of kernel/fat.cpp shows the names that `SetFileName` stores.
use mikansaos.Base.{
  ℕ, zero, suc, ◌+◌, ◌-◌, ◌≤◌, ◌==◌, ◌≡◌, ◌≢◌, refl, sym, ap, ◌∙◌, Bool, false, ◌||◌, List, [], ◌∷◌,
  ◌++◌, take, drop, set, replicate, length, length-append, length-replicate, arith,
}
use mathlib.Core.Path.{ap₂}
use mikansaos.Fat.Names.{
  dot, space, toupper, copy_upper, set_file_name, strip_spaces, read_name, join_name, format_name,
}
use mikansaos.Fat.Names.Compare.{has_dot, set_file_name-dot, take-append}

abbrev pub has_space : List ℕ → Bool
has_space [] = false
has_space (c ∷ cs) = c == space || has_space cs

abbrev pub upper : List ℕ → List ℕ
upper [] = []
upper (c ∷ cs) = toupper c ∷ upper cs

length-upper : (cs : List ℕ) → length (upper cs) ≡ length cs
length-upper [] = refl
length-upper (c ∷ cs) = ap suc (length-upper cs)

toupper-space : (c : ℕ) → c ≢ space → toupper c ≢ space
unfolding toupper
toupper-space c h = ground (arith, h)

upper-has_space : (cs : List ℕ) → has_space cs ≡ false → has_space (upper cs) ≡ false
upper-has_space [] h = refl
upper-has_space (c ∷ cs) h = ground (arith, h, toupper-space c, upper-has_space cs)

set-front : (xs ys : List ℕ) (y v : ℕ) → set (xs ++ y ∷ ys) (length xs) v ≡ xs ++ v ∷ ys
set-front [] ys y v = refl
set-front (x ∷ xs) ys y v = ap (x ∷◌) (set-front xs ys y v)

snoc : (xs ys : List ℕ) (v : ℕ) → (xs ++ v ∷ []) ++ ys ≡ xs ++ v ∷ ys
snoc [] ys v = refl
snoc (x ∷ xs) ys v = ap (x ∷◌) (snoc xs ys v)

length-snoc : (xs : List ℕ) (v : ℕ) → length (xs ++ v ∷ []) ≡ length xs + 1
length-snoc [] v = refl
length-snoc (x ∷ xs) v = omega (arith, length-snoc xs v)

-- The characters replace as many bytes behind `xs`.
copy_upper-behind :
    (xs ys cs : List ℕ) (rounds i : ℕ)
    → i ≡ length xs
    → length cs ≤ rounds
    → length cs ≤ length ys
    → copy_upper (xs ++ ys) i cs rounds ≡ xs ++ (upper cs ++ drop (length cs) ys)
unfolding copy_upper
copy_upper-behind xs ys [] zero i e r f = refl
copy_upper-behind xs ys [] (suc rounds) i e r f = refl
copy_upper-behind xs ys (c ∷ cs) zero i e r f = absurd (omega arith)
copy_upper-behind xs [] (c ∷ cs) (suc rounds) i e r f = absurd (omega arith)
copy_upper-behind xs (y ∷ ys) (c ∷ cs) (suc rounds) i e r f =
    let here : set (xs ++ y ∷ ys) i (toupper c) ≡ (xs ++ toupper c ∷ []) ++ ys =
      ap (λ (k : ℕ). set (xs ++ y ∷ ys) k (toupper c)) e
      ∙ set-front xs ys y (toupper c)
      ∙ sym (snoc xs ys (toupper c)) in
    ap (λ (zs : List ℕ). copy_upper zs (i + 1) cs rounds) here
    ∙ copy_upper-behind (xs ++ toupper c ∷ []) ys cs rounds (i + 1)
        (omega (arith, e, length-snoc xs (toupper c))) (omega arith) (omega arith)
    ∙ snoc xs (upper cs ++ drop (length cs) ys) (toupper c)

strip_spaces-replicate : (n : ℕ) → strip_spaces (replicate n space) ≡ []
unfolding strip_spaces
strip_spaces-replicate zero = refl
strip_spaces-replicate (suc n) = rw (strip_spaces-replicate n, strip_spaces) refl

-- The spaces behind characters that are none are cut off.
strip_spaces-behind :
    (cs : List ℕ) (n : ℕ) → has_space cs ≡ false → strip_spaces (cs ++ replicate n space) ≡ cs
unfolding strip_spaces
strip_spaces-behind [] n h = strip_spaces-replicate n
strip_spaces-behind (c ∷ []) n h =
    let plain : (c == space) ≡ false = ground (arith, h) in
    rw (strip_spaces-replicate n, strip_spaces, plain) refl
strip_spaces-behind (c ∷ d ∷ ds) n h =
    rw (strip_spaces-behind (d ∷ ds) n (ground (arith, h)), strip_spaces) refl

drop-replicate : (n m : ℕ) (s : ℕ) → n ≤ m → drop n (replicate m s) ≡ replicate (m - n) s
drop-replicate zero m s h = ap (λ (k : ℕ). replicate k s) (omega arith)
drop-replicate (suc n) zero s h = absurd (omega arith)
drop-replicate (suc n) (suc m) s h =
    let left : m - n ≡ suc m - suc n = omega arith in
    drop-replicate n m s (omega arith) ∙ ap (λ (k : ℕ). replicate k s) left

-- Characters and the spaces behind them, `width` bytes in all.
abbrev padded : List ℕ → ℕ → List ℕ
padded cs width = upper cs ++ replicate (width - length cs) space

append_assoc : (xs ys zs : List ℕ) → (xs ++ ys) ++ zs ≡ xs ++ (ys ++ zs)
append_assoc [] ys zs = refl
append_assoc (x ∷ xs) ys zs = ap (x ∷◌) (append_assoc xs ys zs)

replicate-add : (n m s : ℕ) → replicate (n + m) s ≡ replicate n s ++ replicate m s
replicate-add zero m s = ap (λ (k : ℕ). replicate k s) (omega arith)
replicate-add (suc n) m s =
    let next : suc n + m ≡ suc (n + m) = omega arith in
    ap (λ (k : ℕ). replicate k s) next ∙ ap (s ∷◌) (replicate-add n m s)

length-padded : (cs : List ℕ) (width : ℕ) → length cs ≤ width → length (padded cs width) ≡ width
length-padded cs width h = omega (
  arith,
  length-append (upper cs) (replicate (width - length cs) space),
  length-upper cs,
  length-replicate (width - length cs) space,
)

set_file_name-padded :
    (base ext : List ℕ)
    → has_dot ext ≡ false
    → length base ≤ 8
    → length ext ≤ 3
    → set_file_name (base ++ dot ∷ ext) ≡ padded base 8 ++ padded ext 3
set_file_name-padded base ext h short short_ext =
    let width : 11 - length base ≡ 8 - length base + 3 = omega arith in
    let first : copy_upper (replicate 11 space) 0 base 8 ≡ padded base 8 ++ replicate 3 space =
      copy_upper-behind [] (replicate 11 space) base 8 0 refl short (omega arith)
      ∙ ap (upper base ++◌) (
          drop-replicate (length base) 11 space (omega arith)
          ∙ ap (λ (k : ℕ). replicate k space) width
          ∙ replicate-add (8 - length base) 3 space)
      ∙ sym (append_assoc (upper base) (replicate (8 - length base) space) (replicate 3 space)) in
    set_file_name-dot base ext h
    ∙ ap (λ (xs : List ℕ). copy_upper xs 8 ext 3) first
    ∙ copy_upper-behind (padded base 8) (replicate 3 space) ext 3 8
        (sym (length-padded base 8 short)) short_ext short_ext
    ∙ ap (λ (ys : List ℕ). padded base 8 ++ (upper ext ++ ys))
        (drop-replicate (length ext) 3 space short_ext)

drop-append_all : (xs ys : List ℕ) → drop (length xs) (xs ++ ys) ≡ ys
drop-append_all [] ys = refl
drop-append_all (x ∷ xs) ys = drop-append_all xs ys

take-all : (xs : List ℕ) → take (length xs) xs ≡ xs
take-all [] = refl
take-all (x ∷ xs) = ap (x ∷◌) (take-all xs)

format_name-parts :
    (entry_name base : List ℕ) (e : ℕ) (es : List ℕ)
    → strip_spaces (take 8 entry_name) ≡ base
    → strip_spaces (take 3 (drop 8 entry_name)) ≡ e ∷ es
    → format_name entry_name ≡ base ++ dot ∷ e ∷ es
unfolding format_name read_name
format_name-parts entry_name base e es h k = ap₂ join_name h k

-- The name of a file with an extension, of the 8.3 form and without spaces, is shown in capitals by
-- `FormatName` from the entry that `SetFileName` has written.
pub format_name-set_file_name :
    (base : List ℕ) (e : ℕ) (es : List ℕ)
    → has_dot (e ∷ es) ≡ false
    → has_space base ≡ false
    → has_space (e ∷ es) ≡ false
    → length base ≤ 8
    → length (e ∷ es) ≤ 3
    → format_name (set_file_name (base ++ dot ∷ e ∷ es)) ≡ upper base ++ dot ∷ upper (e ∷ es)
format_name-set_file_name base e es h plain plain_ext short short_ext =
    let a = padded base 8 in
    let b = padded (e ∷ es) 3 in
    let size : length a ≡ 8 = length-padded base 8 short in
    let size_ext : length b ≡ 3 = length-padded (e ∷ es) 3 short_ext in
    let front : take 8 (a ++ b) ≡ a =
      ap (λ (k : ℕ). take k (a ++ b)) (sym size) ∙ take-append a b in
    let back : take 3 (drop 8 (a ++ b)) ≡ b =
      ap (take 3) (ap (λ (k : ℕ). drop k (a ++ b)) (sym size) ∙ drop-append_all a b)
      ∙ ap (λ (k : ℕ). take k b) (sym size_ext)
      ∙ take-all b in
    ap format_name (set_file_name-padded base (e ∷ es) h short short_ext)
    ∙ format_name-parts (a ++ b) (upper base) (toupper e) (upper es)
        (ap strip_spaces front
          ∙ strip_spaces-behind (upper base) (8 - length base) (upper-has_space base plain))
        (ap strip_spaces back
          ∙ strip_spaces-behind (upper (e ∷ es)) (3 - length (e ∷ es))
              (upper-has_space (e ∷ es) plain_ext))
