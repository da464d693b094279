-- ===== src/Fat/Directory/Delete.antt =====
-- `DeleteFile` of kernel/fat.cpp.
use mikansaos.Base.{
  ℕ, ◌<◌, ◌≡◌, ap, ◌∙◌, Bool, true, false, if◌then◌else◌, List, ◌∷◌, length, get_or,
  get_or-set_self, none, some, arith,
}
use mikansaos.ErrorCode.{success, invalid_file}
use mikansaos.Fat.Table.{entry, free_cluster}
use mikansaos.Fat.Table.Chains.{Linked, has}
use mikansaos.Fat.Table.Release.{Within, free_cluster-Releases}
use mikansaos.Fat.File.{first_cluster}
use mikansaos.Fat.Directory.{
  NamedEntry, Directories, Place, put_entry, entry_at, lookup, is_protected, delete_file,
  mark_deleted, deleted,
}
use mikansaos.Fat.Directory.RoundTrip.{entry_at-put_entry}

delete_file-found :
    (d : Directories) (path : List ℕ) (p : Place) (slash : Bool) (fat : List ℕ)
    → lookup d path ≡ some (some p, slash)
    → is_protected d p slash ≡ false
    → free_cluster d.fat (length d.fat) (first_cluster (entry_at d p).file) ≡ some fat
    → delete_file d path
      ≡ some (success, put_entry (record d { fat = fat }) p (mark_deleted (entry_at d p)))
unfolding delete_file
delete_file-found d path p slash fat f i e = ground (arith, f, i, e)

-- `DeleteFile` of a file that `FindFile` finds and that is not protected, whose chain `first_cluster ∷
-- cs` lies in the table, succeeds: it makes the entries of exactly the chain's clusters 0 and marks the
-- directory entry as deleted, which keeps its first cluster.
pub delete_file-Deletes :
    (d : Directories) (path : List ℕ) (p : Place) (slash : Bool) (cs : List ℕ)
    → lookup d path ≡ some (some p, slash)
    → is_protected d p slash ≡ false
    → Linked d.fat (first_cluster (entry_at d p).file) cs
    → Within d.fat (first_cluster (entry_at d p).file ∷ cs)
    → length cs < length d.fat
    → p.index < length (d.entries p.cluster)
    → 0 < length (entry_at d p).name
    → (d' : Directories) × (delete_file d path ≡ some (success, d'))
      × ((j : ℕ)
          → entry d'.fat j
            ≡ (if has (first_cluster (entry_at d p).file ∷ cs) j then 0 else entry d.fat j))
      × (get_or (entry_at d' p).name 0 0 ≡ deleted)
      × (first_cluster (entry_at d' p).file ≡ first_cluster (entry_at d p).file)
unfolding mark_deleted
delete_file-Deletes d path p slash cs f i l w k b n =
    let c = first_cluster (entry_at d p).file in
    let r = free_cluster-Releases d.fat (length d.fat) c cs k w l in
    let e = mark_deleted (entry_at d p) in
    let put = entry_at-put_entry (record d { fat = r.fat' }) p e b in
    (
      put_entry (record d { fat = r.fat' }) p e,
      delete_file-found d path p slash r.fat' f i r.returns,
      r.entries,
      ap (λ (x : NamedEntry). get_or x.name 0 0) put
          ∙ get_or-set_self (entry_at d p).name 0 deleted 0 n,
      ap (λ (x : NamedEntry). first_cluster x.file) put,
    )

-- `DeleteFile` changes nothing where it reports an error: the path is not found, or the file is
-- protected.
pub delete_file-refused :
    (d : Directories) (path : List ℕ) (p : Place) (slash : Bool)
    → (lookup d path ≡ some (none, slash) → delete_file d path ≡ some (invalid_file, d))
      × (lookup d path ≡ some (some p, slash)
          → is_protected d p slash ≡ true
          → delete_file d path ≡ some (invalid_file, d))
unfolding delete_file
delete_file-refused d path p slash = (λ f. ground (arith, f), λ f i. ground (arith, f, i))
