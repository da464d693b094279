-- ===== src/Fat/Writing/Put.antt =====
-- The copy of bytes into a cluster in `Write` of kernel/fat.cpp.
use mikansaos.Base.{
  ℕ, zero, suc, ◌+◌, ◌<◌, ◌≤◌, ◌≡◌, refl, ap, ◌∙◌, List, [], ◌∷◌, ◌++◌, length, set, drop,
  length-set, arith,
}
use mikansaos.Fat.Writing.{put}

set-append_left : (xs ys : List ℕ) (i v : ℕ) → i < length xs → set (xs ++ ys) i v ≡ set xs i v ++ ys
set-append_left [] ys i v h = absurd (omega arith)
set-append_left (x ∷ xs) ys zero v h = refl
set-append_left (x ∷ xs) ys (suc i) v h = ap (x ∷◌) (set-append_left xs ys i v (omega arith))

pub length-put :
    (sec : List ℕ) (off : ℕ) (buf : ℕ → ℕ) (start n : ℕ)
    → length (put sec off buf start n) ≡ length sec
unfolding put
length-put sec off buf start zero = refl
length-put sec off buf start (suc n) =
    length-put (set sec off (buf start)) (off + 1) buf (start + 1) n
    ∙ length-set sec off (buf start)

pub put-append_left :
    (xs ys : List ℕ) (off : ℕ) (buf : ℕ → ℕ) (start n : ℕ)
    → off + n ≤ length xs
    → put (xs ++ ys) off buf start n ≡ put xs off buf start n ++ ys
unfolding put
put-append_left xs ys off buf start zero h = refl
put-append_left xs ys off buf start (suc n) h =
    let size = length-set xs off (buf start) in
    ap (λ (zs : List ℕ). put zs (off + 1) buf (start + 1) n)
      (set-append_left xs ys off (buf start) (omega arith))
    ∙ put-append_left (set xs off (buf start)) ys (off + 1) buf (start + 1) n (omega (arith, size))

put-cons :
    (x : ℕ) (xs : List ℕ) (off : ℕ) (buf : ℕ → ℕ) (start n : ℕ)
    → put (x ∷ xs) (suc off) buf start n ≡ x ∷ put xs off buf start n
unfolding put
put-cons x xs off buf start zero = refl
put-cons x xs off buf start (suc n) =
    let next : suc off + 1 ≡ suc (off + 1) = omega arith in
    ap (λ (k : ℕ). put (x ∷ set xs off (buf start)) k buf (start + 1) n) next
    ∙ put-cons x (set xs off (buf start)) (off + 1) buf (start + 1) n

pub put-append_right :
    (xs ys : List ℕ) (off : ℕ) (buf : ℕ → ℕ) (start n : ℕ)
    → put (xs ++ ys) (length xs + off) buf start n ≡ xs ++ put ys off buf start n
put-append_right [] ys off buf start n =
    let none_before : 0 + off ≡ off = omega arith in
    ap (λ (k : ℕ). put ys k buf start n) none_before
put-append_right (x ∷ xs) ys off buf start n =
    let next : suc (length xs) + off ≡ suc (length xs + off) = omega arith in
    ap (λ (k : ℕ). put (x ∷ (xs ++ ys)) k buf start n) next
    ∙ put-cons x (xs ++ ys) (length xs + off) buf start n
    ∙ ap (x ∷◌) (put-append_right xs ys off buf start n)

-- Two copies one behind the other are one.
pub put-put :
    (xs : List ℕ) (off : ℕ) (buf : ℕ → ℕ) (start n m : ℕ)
    → put (put xs off buf start n) (off + n) buf (start + n) m ≡ put xs off buf start (n + m)
unfolding put
put-put xs off buf start zero m =
    let o : off + 0 ≡ off = omega arith in
    let s : start + 0 ≡ start = omega arith in let k : 0 + m ≡ m = omega arith in rw (o, s, k) refl
put-put xs off buf start (suc n) m =
    let o : off + suc n ≡ off + 1 + n = omega arith in
    let s : start + suc n ≡ start + 1 + n = omega arith in
    let k : suc n + m ≡ suc (n + m) = omega arith in
    rw (o, s, k) (put-put (set xs off (buf start)) (off + 1) buf (start + 1) n m)

-- `n` bytes of the buffer from `start` on.
abbrev pub bytes_of : (ℕ → ℕ) → ℕ → ℕ → List ℕ
bytes_of buf start zero = []
bytes_of buf start (suc n) = buf start ∷ bytes_of buf (start + 1) n

pub put-front :
    (xs : List ℕ) (buf : ℕ → ℕ) (start n : ℕ)
    → n ≤ length xs
    → put xs 0 buf start n ≡ bytes_of buf start n ++ drop n xs
unfolding put
put-front xs buf start zero h = refl
put-front [] buf start (suc n) h = absurd (omega arith)
put-front (x ∷ xs) buf start (suc n) h =
    let first : 0 + 1 ≡ suc 0 = omega arith in
    put-cons (buf start) xs 0 buf (start + 1) n
    ∙ ap (buf start ∷◌) (put-front xs buf (start + 1) n (omega arith))
