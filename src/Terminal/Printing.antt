-- ===== src/Terminal/Printing.antt =====
-- `Print(const char*, std::optional<size_t>)` of kernel/terminal.cpp: which characters are printed, and
-- when the loop ends.
use mikansaos.Base.{
  ℕ, zero, suc, ◌+◌, ◌≤◌, ◌<◌, ◌≡◌, refl, ap, ◌∙◌, sym, inl, inr, ◌⊎◌, List, [], ◌∷◌, ◌++◌, ◌==◌,
  if◌then◌else◌, length, length-append, get_or, none, some, arith,
}
use mikansaos.Font.{convert_utf8_to32}
use mikansaos.Font.Encode.{encode, Holds, convert_utf8_to32-encode, convert_utf8_to32-continuation}
use mikansaos.Terminal.{Terminal, white_square, print_char, print_loop}

-- The bytes of a text.
unfoldable pub encode_all : List ℕ → List ℕ
encode_all [] = []
encode_all (c ∷ cs) = encode c ++ encode_all cs

-- One character after the other.
pub print_all : Terminal → List ℕ → Terminal
print_all t [] = t
print_all t (c ∷ cs) = print_all (print_char t c) cs

-- Characters that have an encoding, the terminator left out.
unfoldable pub AllCharacters : List ℕ → Type 0
AllCharacters [] = Unit
AllCharacters (c ∷ cs) = (0 < c) × (c < 2097152) × AllCharacters cs

get_or-append_left :
    (bs cs : List ℕ) (i : ℕ) → i < length bs → get_or (bs ++ cs) i 0 ≡ get_or bs i 0
get_or-append_left [] cs i h = absurd (omega arith)
get_or-append_left (b ∷ bs) cs zero h = refl
get_or-append_left (b ∷ bs) cs (suc i) h = get_or-append_left bs cs i (omega arith)

get_or-append_right : (bs cs : List ℕ) (i : ℕ) → get_or (bs ++ cs) (i + length bs) 0 ≡ get_or cs i 0
get_or-append_right [] cs i = ap (λ (t : ℕ). get_or cs t 0) (omega arith)
get_or-append_right (b ∷ bs) cs i =
    let past : i + suc (length bs) ≡ suc (i + length bs) = omega arith in
    ap (λ (t : ℕ). get_or (b ∷ bs ++ cs) t 0) past ∙ get_or-append_right bs cs i

Holds-left : (u8 : ℕ → ℕ) (bs cs : List ℕ) → Holds u8 (bs ++ cs) → Holds u8 bs
unfolding Holds
Holds-left u8 bs cs h =
    λ i l. h i (omega (arith, length-append bs cs)) ∙ get_or-append_left bs cs i l

Holds-right :
    (u8 v8 : ℕ → ℕ) (bs cs : List ℕ)
    → ((k : ℕ) → v8 k ≡ u8 (k + length bs))
    → Holds u8 (bs ++ cs)
    → Holds v8 cs
unfolding Holds
Holds-right u8 v8 bs cs e h = λ i l.
    e i ∙ h (i + length bs) (omega (arith, length-append bs cs)) ∙ get_or-append_right bs cs i

encode-positive : (c : ℕ) → 0 < c → (0 < length (encode c)) × (0 < get_or (encode c) 0 0)
encode-positive c h = ground arith

-- The loop goes on behind a character.
print_loop-step :
    (fuel : ℕ) (t : Terminal) (s : ℕ → ℕ) (i ptrlen u bytes : ℕ)
    → 0 < s i
    → i < ptrlen
    → convert_utf8_to32 (λ k. s (i + k)) ≡ (u, bytes)
    → print_loop (suc fuel) t s i ptrlen
      ≡ print_loop fuel (print_char t (if u == 0 then white_square else u)) s (i + bytes) ptrlen
unfolding print_loop
print_loop-step fuel t s i ptrlen u bytes h k e = rw e (ground arith)

print_loop-end :
    (fuel : ℕ) (t : Terminal) (s : ℕ → ℕ) (i ptrlen : ℕ)
    → (s i ≡ 0) ⊎ (ptrlen ≤ i)
    → print_loop (suc fuel) t s i ptrlen ≡ some t
unfolding print_loop
print_loop-end fuel t s i ptrlen (inl z) = ground arith
print_loop-end fuel t s i ptrlen (inr p) = ground arith

-- At a byte that continues a character `Print` does not end: no number of rounds is enough.
pub print_loop-never_ends :
    (fuel : ℕ) (t : Terminal) (s : ℕ → ℕ) (i ptrlen : ℕ)
    → 128 ≤ s i
    → s i < 192
    → i < ptrlen
    → print_loop fuel t s i ptrlen ≡ none
unfolding print_loop
print_loop-never_ends zero t s i ptrlen h k l = refl
print_loop-never_ends (suc fuel) t s i ptrlen h k l =
    let here : i + 0 ≡ i = omega arith in
    let at = convert_utf8_to32-continuation (λ k. s (i + k)) (rw here h) (rw here k) in
    print_loop-step fuel t s i ptrlen 0 0 (omega arith) l at
    ∙ ap (λ (j : ℕ). print_loop fuel (print_char t white_square) s j ptrlen) here
    ∙ print_loop-never_ends fuel (print_char t white_square) s i ptrlen h k l

-- `Print` of the UTF-8 encoding of a text, up to the given length or to the byte 0 behind it, ends and
-- prints the characters of the text one after the other; a round for each and one more are enough.
pub print_loop-encode_all :
    (cs : List ℕ) (fuel : ℕ) (t : Terminal) (s : ℕ → ℕ) (i ptrlen : ℕ)
    → AllCharacters cs
    → Holds (λ k. s (i + k)) (encode_all cs)
    → i + length (encode_all cs) ≤ ptrlen
    → (s (i + length (encode_all cs)) ≡ 0) ⊎ (ptrlen ≤ i + length (encode_all cs))
    → length cs < fuel
    → print_loop fuel t s i ptrlen ≡ some (print_all t cs)
unfolding encode_all AllCharacters print_all Holds
print_loop-encode_all cs zero t s i ptrlen all holds room end h = absurd (omega arith)
print_loop-encode_all [] (suc fuel) t s i ptrlen all holds room end h =
    let here : i + 0 ≡ i = omega arith in
    print_loop-end fuel t s i ptrlen
      (elim end [ inl z ↦ inl (ap s (sym here) ∙ z) | inr p ↦ inr (omega arith) ])
print_loop-encode_all (c ∷ cs) (suc fuel) t s i ptrlen all holds room end h =
    let size = length (encode c) in
    let first = encode-positive c all.0 in
    let split : length (encode c ++ encode_all cs) ≡ size + length (encode_all cs) =
      length-append (encode c) (encode_all cs) in
    let at =
      convert_utf8_to32-encode c (λ k. s (i + k)) all.1
        (Holds-left (λ k. s (i + k)) (encode c) (encode_all cs) holds) in
    let here : i + 0 ≡ i = omega arith in
    let sum : i + length (encode c ++ encode_all cs) ≡ i + size + length (encode_all cs) =
      omega arith in
    let begins : s (i + 0) ≡ get_or (encode c) 0 0 =
      Holds-left (λ k. s (i + k)) (encode c) (encode_all cs) holds 0 first.0 in
    let lit : 0 < s i = rw⁻¹ (ap s here) (rw begins first.1) in
    print_loop-step fuel t s i ptrlen c size lit (omega arith) at
    ∙ ap (λ (u : ℕ). print_loop fuel (print_char t u) s (i + size) ptrlen) (ground (arith, all.0))
    ∙ print_loop-encode_all cs fuel (print_char t c) s (i + size) ptrlen all.2
        (Holds-right (λ k. s (i + k)) (λ k. s (i + size + k)) (encode c) (encode_all cs)
          (λ k. ap s (omega arith)) holds)
        (omega arith) (rw⁻¹ sum end) (omega arith)
