-- ===== src/Pipe/Tests.antt =====
-- Inputs for the theorems on `PipeDescriptor` of kernel/terminal.cpp.
use mikansaos.Base.{ℕ, ◌≡◌, List, [], ◌∷◌, ◌++◌, replicate, some, arith}
use mikansaos.Pipe.{new_pipe, finish_write}
use mikansaos.Pipe.RoundTrip.{read_all, write_all, concat, read_all-write_all}

-- Two writes, the first of more bytes than one message carries, read by five bytes each.
abbrev written : List (List ℕ)
written = replicate 20 7 ∷ (1 ∷ 2 ∷ []) ∷ []

read_all-write_all_example :
    read_all 5 23 new_pipe (write_all written ++ finish_write ∷ []) ≡ some (concat written)
unfolding concat
read_all-write_all_example = read_all-write_all written 5 23 (omega arith) (omega arith)
