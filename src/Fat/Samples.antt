-- ===== src/Fat/Samples.antt =====
-- A small volume for the tests of kernel/fat.cpp.
use mikansaos.Base.{ℕ, ◌+◌, ◌*◌, List, [], ◌∷◌}
use mikansaos.Fat.File.{Volume, DirectoryEntry}

-- Four bytes that are told apart by their cluster.
abbrev pub marked_bytes : ℕ → List ℕ
marked_bytes c = (c * 10) ∷ (c * 10 + 1) ∷ (c * 10 + 2) ∷ (c * 10 + 3) ∷ []

-- Clusters of four bytes; 2 and 4 are a chain.
abbrev pub volume : Volume
volume = record {
  fat = 0x0ffffff8 ∷ 0x0fffffff ∷ 4 ∷ 0 ∷ 0x0fffffff ∷ 0 ∷ [];
  bytes_per_cluster = 4;
  clusters = marked_bytes;
}

-- A file of seven bytes in the clusters 2 and 4.
abbrev pub file : DirectoryEntry
file = record { first_cluster_low = 2; first_cluster_high = 0; file_size = 7 }
