-- ===== src/Fat/Names/Compare.antt =====
-- `SetFileName` and `NameIsEqual` of kernel/fat.cpp agree on names of the 8.3 form.
use mikansaos.Base.{
  ℕ, zero, suc, ◌+◌, ◌≤◌, ◌<◌, ◌==◌, ltb, ◌≡◌, refl, sym, ap, ◌∙◌, ◌⊎◌, inl, inr, Bool, true, false,
  ◌||◌, List, [], ◌∷◌, ◌++◌, none, some, take, drop, set, replicate, length, arith,
}
use mikansaos.Fat.Names.{
  dot, space, toupper, same_bytes, encode83, name_is_equal, last_dot, copy_upper, set_file_name,
}

abbrev pub has_dot : List ℕ → Bool
has_dot [] = false
has_dot (c ∷ cs) = c == dot || has_dot cs

pub same_bytes_refl : (xs : List ℕ) → same_bytes xs xs ≡ true
unfolding same_bytes
same_bytes_refl [] = refl
same_bytes_refl (x ∷ xs) = ground (arith, same_bytes_refl xs)

pub last_dot-none : (cs : List ℕ) → has_dot cs ≡ false → last_dot cs ≡ none
unfolding last_dot
last_dot-none [] h = refl
last_dot-none (c ∷ cs) h = ground (arith, h, last_dot-none cs)

pub last_dot-append :
    (base ext : List ℕ) → has_dot ext ≡ false → last_dot (base ++ dot ∷ ext) ≡ some (length base)
unfolding last_dot
last_dot-append [] ext h = ground (arith, last_dot-none ext h)
last_dot-append (c ∷ base) ext h = ground (arith, last_dot-append base ext h)

pub take-append : (xs ys : List ℕ) → take (length xs) (xs ++ ys) ≡ xs
take-append [] ys = refl
take-append (x ∷ xs) ys = ap (x ∷◌) (take-append xs ys)

pub drop-append_one : (xs ys : List ℕ) (y : ℕ) → drop (length xs + 1) (xs ++ y ∷ ys) ≡ ys
drop-append_one [] ys y = refl
drop-append_one (x ∷ xs) ys y =
    let next : suc (length xs) + 1 ≡ suc (length xs + 1) = omega arith in
    ap (λ (k : ℕ). drop k (x ∷ (xs ++ y ∷ ys))) next ∙ drop-append_one xs ys y

-- Characters without a dot go to the places from `i` on, whatever follows.
encode83-append :
    (cs more : List ℕ) (i rounds : ℕ) (name83 : List ℕ)
    → has_dot cs ≡ false
    → i + length cs ≤ 11
    → length cs ≤ rounds
    → encode83 (cs ++ more) i name83 ≡ encode83 more (i + length cs) (copy_upper name83 i cs rounds)
unfolding encode83 copy_upper
encode83-append [] more i zero name83 h f r = ground arith
encode83-append [] more i (suc rounds) name83 h f r = ground arith
encode83-append (c ∷ cs) more i zero name83 h f r = absurd (omega arith)
encode83-append (c ∷ cs) more i (suc rounds) name83 h f r =
    let rest =
      encode83-append cs more (i + 1) rounds (set name83 i (toupper c)) (ground (arith, h))
        (omega arith) (omega arith) in
    let room : ltb i 11 ≡ true = ground arith in
    let plain : (c == dot) ≡ false = ground (arith, h) in
    let next : i + suc (length cs) ≡ i + 1 + length cs = omega arith in rw (room, plain, next) rest

-- A name of at most eight characters, or two of at most eight and three with a dot between them,
-- with no other dot.
abbrev pub Is83 : List ℕ → Type 0
Is83 name =
    ((has_dot name ≡ false) × (length name ≤ 8))
    ⊎ ((base ext : List ℕ) × (name ≡ base ++ dot ∷ ext)
        × (has_dot base ≡ false)
        × (has_dot ext ≡ false)
        × (length base ≤ 8)
        × (length ext ≤ 3))

encode83-dot :
    (cs : List ℕ) (i : ℕ) (name83 : List ℕ)
    → i < 11
    → encode83 (dot ∷ cs) i name83 ≡ encode83 cs 8 name83
unfolding encode83
encode83-dot cs i name83 h = let room : ltb i 11 ≡ true = ground arith in rw room refl

append_nothing : (xs : List ℕ) → xs ++ [] ≡ xs
append_nothing [] = refl
append_nothing (x ∷ xs) = ap (x ∷◌) (append_nothing xs)

encode83-all :
    (cs : List ℕ) (i rounds : ℕ) (name83 : List ℕ)
    → has_dot cs ≡ false
    → i + length cs ≤ 11
    → length cs ≤ rounds
    → encode83 cs i name83 ≡ copy_upper name83 i cs rounds
unfolding encode83
encode83-all cs i rounds name83 h f r =
    ap (λ (xs : List ℕ). encode83 xs i name83) (sym (append_nothing cs))
    ∙ encode83-append cs [] i rounds name83 h f r

set_file_name-plain :
    (name : List ℕ)
    → has_dot name ≡ false
    → set_file_name name ≡ copy_upper (replicate 11 space) 0 name 8
unfolding set_file_name
set_file_name-plain name h = rw (last_dot-none name h, set_file_name) refl

pub set_file_name-dot :
    (base ext : List ℕ)
    → has_dot ext ≡ false
    → set_file_name (base ++ dot ∷ ext)
      ≡ copy_upper (copy_upper (replicate 11 space) 0 base 8) 8 ext 3
unfolding set_file_name
set_file_name-dot base ext h =
    rw (last_dot-append base ext h, set_file_name)
      (rw (take-append base (dot ∷ ext), drop-append_one base ext dot) refl)

encode83-name :
    (name : List ℕ) → Is83 name → encode83 name 0 (replicate 11 space) ≡ set_file_name name
encode83-name name (inl (plain, short)) =
    encode83-all name 0 8 (replicate 11 space) plain (omega arith) short
    ∙ sym (set_file_name-plain name plain)
encode83-name name (inr (base, ext, split, plain, plain_ext, short, short_ext)) = rw split (
    encode83-append base (dot ∷ ext) 0 8 (replicate 11 space) plain (omega arith) short
    ∙ encode83-dot ext (0 + length base) _ (omega arith)
    ∙ encode83-all ext 8 3 _ plain_ext (omega arith) short_ext
    ∙ sym (set_file_name-dot base ext plain_ext))

-- A name of the 8.3 form is equal to the name of the entry that `SetFileName` has given it.
pub name_is_equal-set_file_name :
    (name : List ℕ) → Is83 name → name_is_equal (set_file_name name) name ≡ true
unfolding name_is_equal
name_is_equal-set_file_name name h =
    rw (encode83-name name h) (same_bytes_refl (set_file_name name))
