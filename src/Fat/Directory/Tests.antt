-- ===== src/Fat/Directory/Tests.antt =====
-- Inputs for the theorems on the directories of kernel/fat.cpp.
use mikansaos.Base.{ℕ, ◌≡◌, refl, inl, false, [], ◌∷◌, some, get_or, if◌then◌else◌, arith}
use mikansaos.ErrorCode.{success}
use mikansaos.Fat.Table.{entry, next_cluster, is_end_of_cluster_chain}
use mikansaos.Fat.Table.Chains.{has}
use mikansaos.Fat.File.{first_cluster}
use mikansaos.Fat.Names.{
  toupper, same_bytes, encode83, name_is_equal, last_dot, copy_upper, set_file_name,
  next_path_element,
}
use mikansaos.Fat.Directory.{
  NamedEntry, Directories, Place, entry_at, deleted, scan, find_in_chain, start_of, find_file,
  lookup, free_slot, last_slash, create_file, name_entry, delete_file, is_protected, prev_entry,
}
use mikansaos.Fat.Directory.Create.{room}
use mikansaos.Fat.Directory.RoundTrip.{lookup-create_file}
use mikansaos.Fat.Directory.Delete.{delete_file-Deletes}

-- The file "B" in the clusters 3 and 4, and a deleted entry.
abbrev b_entry : NamedEntry
b_entry = record {
  name = 66 ∷ 32 ∷ 32 ∷ 32 ∷ 32 ∷ 32 ∷ 32 ∷ 32 ∷ 32 ∷ 32 ∷ 32 ∷ [];
  attr = 32;
  file = record { first_cluster_low = 3; first_cluster_high = 0; file_size = 5 };
}

abbrev gone_entry : NamedEntry
gone_entry = record {
  name = deleted ∷ 32 ∷ 32 ∷ 32 ∷ 32 ∷ 32 ∷ 32 ∷ 32 ∷ 32 ∷ 32 ∷ 32 ∷ [];
  attr = 32;
  file = record { first_cluster_low = 5; first_cluster_high = 0; file_size = 7 };
}

abbrev small : Directories
small = record {
  fat = 0x0ffffff8 ∷ 0x0fffffff ∷ 0x0fffffff ∷ 4 ∷ 0x0fffffff ∷ 0 ∷ [];
  root_cluster = 2;
  entries = λ c. b_entry ∷ gone_entry ∷ [];
}

abbrev second : Place
second = record { cluster = 2; index = 1 }

abbrev first : Place
first = record { cluster = 2; index = 0 }

lookup-create_file_example :
    (create_file small (97 ∷ []) ≡ some (success, some second, name_entry small second (97 ∷ [])))
    × (lookup (name_entry small second (97 ∷ [])) (97 ∷ []) ≡ some (some second, false))
    × ((entry_at (name_entry small second (97 ∷ [])) second).file.file_size ≡ 0)
    × (first_cluster (entry_at (name_entry small second (97 ∷ [])) second).file
        ≡ first_cluster (entry_at small second).file)
unfolding toupper same_bytes encode83 name_is_equal last_dot copy_upper set_file_name
    next_path_element scan find_in_chain start_of find_file free_slot last_slash room next_cluster
    is_end_of_cluster_chain
lookup-create_file_example =
    lookup-create_file small (97 ∷ []) [] second refl (inl (refl, omega arith)) refl
      (λ e. omega arith) refl (omega arith) refl refl

delete_file-Deletes_example :
    (d' : Directories) × (delete_file small (66 ∷ []) ≡ some (success, d'))
    × ((j : ℕ)
        → entry d'.fat j ≡ (
            if has (first_cluster (entry_at small first).file ∷ 4 ∷ []) j
            then 0
            else entry small.fat j))
    × (get_or (entry_at d' first).name 0 0 ≡ deleted)
    × (first_cluster (entry_at d' first).file ≡ first_cluster (entry_at small first).file)
unfolding toupper same_bytes encode83 name_is_equal last_dot copy_upper set_file_name
    next_path_element scan find_in_chain start_of find_file is_protected prev_entry next_cluster
    is_end_of_cluster_chain
delete_file-Deletes_example =
    delete_file-Deletes small (66 ∷ []) first false (4 ∷ []) refl refl
      (refl, λ e. omega arith, refl, refl) (omega arith, (omega arith, tt)) (omega arith)
      (omega arith) (omega arith)
