-- ===== src/FileDescriptor/OfFile.antt =====
-- The file of kernel/fat.cpp as a descriptor that `ReadDelim` of kernel/file.cpp reads from.
use mikansaos.Base.{
  ℕ, ◌-◌, ◌^◌, ◌≤◌, ◌<◌, ◌≡◌, refl, List, [], ◌∷◌, ◌++◌, length, Option, none, some, arith,
}
use mikansaos.Fat.File.{Volume, DirectoryEntry, FileDescriptor, read}
use mikansaos.Fat.File.Reading.{read_size-Reads}
use mikansaos.Fat.File.Reading
use mikansaos.FileDescriptor.{Source, read_delim}
use mikansaos.FileDescriptor.Line.{ReadsLine, read_delim-ReadsLine}

abbrev one_byte : FileDescriptor → Option (List ℕ × FileDescriptor) → Option ℕ × FileDescriptor
one_byte fd none = (none, fd)
one_byte fd (some ([], fd')) = (none, fd')
one_byte fd (some (b ∷ bytes, fd')) = (some b, fd')

module _ (v : Volume) (e : DirectoryEntry) where
  -- The descriptor is before these bytes, up to the file's size, in a chain that may go on.
  pub record IsAt (fd : FileDescriptor) (bytes : List ℕ) : Type 0 where
    pub past_size : List ℕ
    pub place : Reading.IsAt v e fd (bytes ++ past_size)
    pub inside : fd.rd_off ≤ e.file_size
    pub size : e.file_size - fd.rd_off ≡ length bytes

  reads_end :
      (fd : FileDescriptor)
      → IsAt fd []
      → ((one_byte fd (read v e fd 1)).0 ≡ none) × IsAt (one_byte fd (read v e fd 1)).1 []
  reads_end fd at =
      let r =
        read_size-Reads v e fd 1 0 at.past_size at.place (ground (arith, at.inside, at.size))
          (omega arith) in
      rw r.returns (
        refl,
        record {
          past_size = at.past_size;
          place = r.later;
          inside = omega (arith, at.inside, r.moves);
          size = omega (arith, at.size, r.moves);
        },
      )

  reads_byte :
      (fd : FileDescriptor) (b : ℕ) (bs : List ℕ)
      → IsAt fd (b ∷ bs)
      → ((one_byte fd (read v e fd 1)).0 ≡ some b) × IsAt (one_byte fd (read v e fd 1)).1 bs
  reads_byte fd b bs at =
      let r =
        read_size-Reads v e fd 1 1 (b ∷ bs ++ at.past_size) at.place
          (ground (arith, at.inside, at.size)) (omega arith) in
      rw r.returns (
        refl,
        record {
          past_size = at.past_size;
          place = r.later;
          inside = omega (arith, at.inside, at.size, r.moves);
          size = omega (arith, at.size, r.moves);
        },
      )

  pub file_source : Source FileDescriptor
  file_source = record {
    read_byte = λ fd. one_byte fd (read v e fd 1);
    IsAt = IsAt;
    at_end = reads_end;
    at_byte = reads_byte;
  }

  -- Where a file's chain holds the bytes that its size promises, `ReadDelim` with a buffer of 1 to
  -- `2 ^ 64 - 1` bytes leaves in the buffer the file's bytes from the descriptor's place up to the first
  -- delimiter, which is included, but one byte less than the buffer has at most, and the descriptor is
  -- left right behind them.
  pub read_delim-file :
      (delim len : ℕ) (bytes : List ℕ) (fd : FileDescriptor)
      → 0 < len
      → len < 2 ^ 64
      → IsAt fd bytes
      → ReadsLine file_source delim (len - 1) bytes (read_delim file_source delim len fd)
  unfolding file_source
  read_delim-file delim len bytes fd h h' at =
      read_delim-ReadsLine file_source delim len bytes fd h h' at
