-- ===== src/FileDescriptor.antt =====
-- kernel/file.cpp and file.hpp: `ReadDelim`, over the interface of the file descriptors that it calls.
pub mod Line
pub mod OfPipe
pub mod OfFile
mod Tests
use mikansaos.Base.{
  ℕ, zero, suc, ◌+◌, ◌-◌, ◌%◌, ◌^◌, ◌==◌, ◌≡◌, Bool, true, if◌then◌else◌, List, [], ◌∷◌, Option,
  none, some,
}

-- What `ReadDelim` uses of a descriptor: `Read` of one byte, `none` where it returns 0. `IsAt s bytes`
-- says that the descriptor is to give these bytes and then its end.
pub record Source {ℓ} (S : Type ℓ) : Type (1 ⊔ ℓ) where
  pub read_byte : S → Option ℕ × S
  pub IsAt : S → List ℕ → Type 0
  pub at_end : (s : S) → IsAt s [] → ((read_byte s).0 ≡ none) × IsAt (read_byte s).1 []
  pub at_byte :
      (s : S) (b : ℕ) (bs : List ℕ)
      → IsAt s (b ∷ bs)
      → ((read_byte s).0 ≡ some b) × IsAt (read_byte s).1 bs

-- The rest of a round, with the byte that `Read` left and what the rounds behind it leave.
pub take_byte {ℓ} : {S : Type ℓ} → ℕ → Option ℕ → S → List ℕ × S → List ℕ × S
take_byte delim none s r = ([], s)
take_byte delim (some b) s r = if b == delim then (b ∷ [], s) else (b ∷ r.0, r.1)

module _ {ℓ} {S : Type ℓ} (source : Source S) where
  -- The loop with `rounds` bytes to go: the bytes in `buf`, and the descriptor.
  pub delim_loop : ℕ → ℕ → S → List ℕ × S
  delim_loop delim zero s = ([], s)
  delim_loop delim (suc rounds) s =
      let one = source.read_byte s in
      let more = delim_loop delim rounds one.1 in take_byte delim one.0 one.1 more

  -- `ReadDelim`: the bytes before the terminator, whose number is what it returns, and the descriptor.
  -- `len - 1` wraps.
  pub read_delim : ℕ → ℕ → S → List ℕ × S
  read_delim delim len s = delim_loop delim ((len + 2 ^ 64 - 1) % 2 ^ 64) s
