-- ===== src/FileDescriptor/Line.antt =====
-- What `ReadDelim` of kernel/file.cpp reads.
use mikansaos.Base.{
  ℕ, zero, suc, ◌+◌, ◌-◌, ◌%◌, ◌^◌, ◌<◌, ◌≡◌, refl, ap, inl, inr, Bool-cases, ◌==◌, if◌then◌else◌,
  List, [], ◌∷◌, ◌++◌, take, Option, none, some, arith,
}
use mikansaos.FileDescriptor.{Source, take_byte, delim_loop, read_delim}

-- The bytes up to the first delimiter, which is included.
abbrev pub up_to : ℕ → List ℕ → List ℕ
up_to delim [] = []
up_to delim (b ∷ bs) = let more = up_to delim bs in if b == delim then b ∷ [] else b ∷ more

module _ {ℓ} {S : Type ℓ} (source : Source S) where
  -- The bytes are the line that is next, at most `rounds` of them, and the descriptor is left before
  -- those that follow.
  unfoldable pub ReadsLine : ℕ → ℕ → List ℕ → List ℕ × S → Type 0
  ReadsLine delim rounds bytes r =
      (later : List ℕ) × (r.0 ≡ up_to delim (take rounds bytes))
      × (r.0 ++ later ≡ bytes)
      × source.IsAt r.1 later

  step-end :
      (delim rounds : ℕ) (byte : Option ℕ) (s : S) (more : List ℕ × S)
      → byte ≡ none
      → source.IsAt s []
      → ReadsLine delim (suc rounds) [] (take_byte delim byte s more)
  unfolding ReadsLine take_byte
  step-end delim rounds byte s more e at = rw e ([], refl, refl, at)

  step-byte :
      (delim rounds b : ℕ) (bs : List ℕ) (byte : Option ℕ) (s : S) (more : List ℕ × S)
      → byte ≡ some b
      → source.IsAt s bs
      → ReadsLine delim rounds bs more
      → ReadsLine delim (suc rounds) (b ∷ bs) (take_byte delim byte s more)
  unfolding ReadsLine take_byte
  step-byte delim rounds b bs byte s more e at (later, line, all, there) =
      elim (Bool-cases (b == delim)) [
        | inl here ↦ rw (e, here) (bs, refl, refl, at)
        | inr on ↦ rw (e, on) (later, ap (b ∷◌) line, ap (b ∷◌) all, there)
      ]

  delim_loop-ReadsLine :
      (rounds : ℕ) (bytes : List ℕ) (delim : ℕ) (s : S)
      → source.IsAt s bytes
      → ReadsLine delim rounds bytes (delim_loop source delim rounds s)
  unfolding ReadsLine delim_loop
  delim_loop-ReadsLine zero bytes delim s at = (bytes, refl, refl, at)
  delim_loop-ReadsLine (suc rounds) [] delim s at =
      let (byte, there) = source.at_end s at in
      let next = (source.read_byte s).1 in
      step-end delim rounds (source.read_byte s).0 next (delim_loop source delim rounds next) byte
        there
  delim_loop-ReadsLine (suc rounds) (b ∷ bs) delim s at =
      let (byte, there) = source.at_byte s b bs at in
      let next = (source.read_byte s).1 in
      let more = delim_loop source delim rounds next in
      step-byte delim rounds b bs (source.read_byte s).0 next more byte there
        (delim_loop-ReadsLine rounds bs delim next there)

  rounds-below : (len : ℕ) → 0 < len → len < 2 ^ 64 → (len + 2 ^ 64 - 1) % 2 ^ 64 ≡ len - 1
  rounds-below len h h' = omega arith

  pub read_delim-ReadsLine :
      (delim len : ℕ) (bytes : List ℕ) (s : S)
      → 0 < len
      → len < 2 ^ 64
      → source.IsAt s bytes
      → ReadsLine delim (len - 1) bytes (read_delim source delim len s)
  unfolding read_delim
  read_delim-ReadsLine delim len bytes s h h' at =
      rw (rounds-below len h h') (delim_loop-ReadsLine (len - 1) bytes delim s at)
