-- ===== src/Fat/File/Tests.antt =====
-- Inputs for the theorems on `Read` and `Load` of kernel/fat.cpp.
use mikansaos.Base.{ℕ, ◌-◌, ◌≡◌, refl, List, [], ◌∷◌, some, take, drop, min, arith}
use mikansaos.Fat.Table.{is_end_of_cluster_chain, next_cluster}
use mikansaos.Fat.File.{DirectoryEntry, new_descriptor, read_loop, read, seek, load}
use mikansaos.Fat.File.Stream.{content}
use mikansaos.Fat.File.Turns.{sum, read_in_turn, read_in_turn-content}
use mikansaos.Fat.File.Loading.{load-content, load-past_size}
use mikansaos.Fat.Samples.{volume, file}

abbrev bytes : List ℕ
bytes = 20 ∷ 21 ∷ 22 ∷ 23 ∷ 40 ∷ 41 ∷ 42 ∷ 43 ∷ []

load_across : load volume file 3 3 ≡ some (23 ∷ 40 ∷ 41 ∷ [])
unfolding load seek read read_loop next_cluster is_end_of_cluster_chain
load_across = refl

read_in_turn-content_example :
    read_in_turn volume file new_descriptor (3 ∷ 3 ∷ 3 ∷ [])
    ≡ some (take (min (sum (3 ∷ 3 ∷ 3 ∷ [])) 7) (content volume (2 ∷ 4 ∷ [])))
unfolding is_end_of_cluster_chain
read_in_turn-content_example =
    read_in_turn-content volume file (4 ∷ []) (3 ∷ 3 ∷ 3 ∷ []) (omega arith) (λ z. omega arith)
      (refl, (λ z. omega arith), refl, refl) (refl, (refl, tt)) (omega arith)

load-content_example :
    load volume file 9 3 ≡ some (take (min 9 (7 - 3)) (drop 3 (content volume (2 ∷ 4 ∷ []))))
unfolding is_end_of_cluster_chain
load-content_example =
    load-content volume file (4 ∷ []) 9 3 (omega arith) (λ z. omega arith)
      (refl, (λ z. omega arith), refl, refl) (refl, (refl, tt)) (omega arith) (omega arith)

-- The same file with a size of five bytes.
abbrev short_file : DirectoryEntry
short_file = record { first_cluster_low = 2; first_cluster_high = 0; file_size = 5 }

load-past_size_example :
    load volume short_file 2 6 ≡ some (take 2 (drop 6 (content volume (2 ∷ 4 ∷ []))))
unfolding is_end_of_cluster_chain
load-past_size_example =
    load-past_size volume short_file (4 ∷ []) 2 6 (omega arith) (λ z. omega arith)
      (refl, (λ z. omega arith), refl, refl) (refl, (refl, tt)) (omega arith) (omega arith)
      (omega arith)
