-- ===== src/Fat/Writing/Tests.antt =====
-- Inputs for the theorems on `Write` of kernel/fat.cpp.
use mikansaos.Base.{ℕ, ◌+◌, ◌≡◌, refl, [], ◌∷◌, some, arith}
use mikansaos.Fat.Table.{is_end_of_cluster_chain}
use mikansaos.Fat.File.{FileDescriptor, new_descriptor, read}
use mikansaos.Fat.Writing.{Written, write}
use mikansaos.Fat.Writing.Put.{bytes_of}
use mikansaos.Fat.Writing.Content.{WritesFile, write-WritesFile}
use mikansaos.Fat.Writing.ReadBack.{read-write}
use mikansaos.Fat.Samples.{volume, file}

abbrev buffer : ℕ → ℕ
buffer i = 100 + i

write-WritesFile_example :
    WritesFile volume file buffer 5 2 (4 ∷ []) (write volume file new_descriptor buffer 5)
unfolding is_end_of_cluster_chain
write-WritesFile_example =
    write-WritesFile volume file buffer 5 (4 ∷ []) (omega arith) (λ z. omega arith)
      (refl, (λ z. omega arith), refl, refl) (refl, (refl, tt)) (refl, (refl, tt)) (omega arith)

read-write_example :
    (w : Written) × (fd : FileDescriptor) × (write volume file new_descriptor buffer 5 ≡ some w)
    × (read w.volume w.entry new_descriptor 5 ≡ some (bytes_of buffer 0 5, fd))
unfolding is_end_of_cluster_chain
read-write_example =
    read-write volume file buffer 5 (4 ∷ []) (omega arith) (λ z. omega arith)
      (refl, (λ z. omega arith), refl, refl) (refl, (refl, tt)) (refl, (refl, tt)) (omega arith)
      (omega arith)
