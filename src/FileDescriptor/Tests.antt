-- ===== src/FileDescriptor/Tests.antt =====
-- Inputs for the theorems on `ReadDelim` of kernel/file.cpp.
use mikansaos.Base.{ℕ, ◌-◌, ◌≡◌, List, [], ◌∷◌, ◌++◌, refl, inl, arith}
use mikansaos.Pipe.{new_pipe, finish_write}
use mikansaos.Pipe.RoundTrip.{write_all, concat}
use mikansaos.FileDescriptor.{read_delim}
use mikansaos.FileDescriptor.Line.{ReadsLine, up_to}
use mikansaos.Fat.File.{new_descriptor}
use mikansaos.Fat.Samples.{volume, file}
use mikansaos.Fat.Table.{is_end_of_cluster_chain}
use mikansaos.FileDescriptor.OfFile.{IsAt, file_source, read_delim-file}
use mikansaos.FileDescriptor.OfPipe.{pipe_source, read_delim-write_all}

-- Two lines in three writes, and a buffer of 80 bytes; 10 is the line feed.
abbrev written : List (List ℕ)
written = (104 ∷ 105 ∷ []) ∷ (33 ∷ 10 ∷ 111 ∷ []) ∷ (107 ∷ 10 ∷ []) ∷ []

up_to_test : up_to 10 (104 ∷ 10 ∷ 33 ∷ []) ≡ 104 ∷ 10 ∷ []
up_to_test = refl

read_delim-write_all_example :
    ReadsLine pipe_source 10
      (80 - 1)
      (concat written)
      (read_delim pipe_source 10 80 (new_pipe, write_all written ++ finish_write ∷ []))
read_delim-write_all_example = read_delim-write_all 10 80 written (omega arith) (omega arith)

-- The file of seven bytes in the clusters 2 and 4, read up to the byte 40, which is in the second one.
abbrev file_bytes : List ℕ
file_bytes = 20 ∷ 21 ∷ 22 ∷ 23 ∷ 40 ∷ 41 ∷ 42 ∷ []

before_file : IsAt volume file new_descriptor file_bytes
unfolding is_end_of_cluster_chain
before_file = record {
  past_size = 43 ∷ [];
  place = inl (record {
    cs = 4 ∷ [];
    used = λ z. omega arith;
    linked = (refl, (λ z. omega arith), refl, refl);
    filled = (refl, (refl, tt));
    within = omega arith;
    rest_eq = refl;
  });
  inside = omega arith;
  size = refl;
}

read_delim-file_example :
    ReadsLine
      (file_source volume file)
      40
      (80 - 1)
      file_bytes
      (read_delim (file_source volume file) 40 80 new_descriptor)
read_delim-file_example =
    read_delim-file volume file 40 80 file_bytes new_descriptor (omega arith) (omega arith)
      before_file
