-- ===== src/Fat/Directory.antt =====
-- Directories of kernel/fat.cpp: `FindFile`, `AllocateEntry`, `CreateFile` and `DeleteFile`. A path is
-- the list of its characters; an entry is named by its cluster and its index. `none` stands for a loop
-- that has used up its fuel. The texts that `DeleteFile` puts into `err_str` are left out.
pub mod Lookup
pub mod Create
pub mod RoundTrip
pub mod Delete
mod Tests
use mikansaos.Base.{
  ℕ, zero, suc, ◌+◌, ◌-◌, Bool, true, false, not, ◌&&◌, ◌||◌, ◌==◌, ltb, if◌then◌else◌, List, [],
  ◌∷◌, length, get_or, set, take, drop, replicate, Option, none, some,
}
use mikansaos.Base.Maps.{update}
use mikansaos.ErrorCode.{
  Code, success, is_directory, no_such_entry, is_not_directory, invalid_file, failed,
}
use mikansaos.Fat.Table.{end_of_cluster_chain, next_cluster, extend_cluster, free_cluster}
use mikansaos.Fat.File.{DirectoryEntry, first_cluster}
use mikansaos.Fat.Names.{name_is_equal, set_file_name, next_path_element}

-- `DirectoryEntry` with its name and attribute; `file` has the fields that a descriptor uses.
pub record NamedEntry : Type 0 where
  pub name : List ℕ
  pub attr : ℕ
  pub file : DirectoryEntry

-- The values of `Attribute` that are asked for.
abbrev pub attr_system : ℕ
attr_system = 4

abbrev pub attr_directory : ℕ
attr_directory = 16

abbrev pub attr_long_name : ℕ
attr_long_name = 15

-- The first byte of the name of a deleted entry.
abbrev pub deleted : ℕ
deleted = 0xe5

abbrev pub zero_entry : NamedEntry
zero_entry = record {
  name = replicate 11 0;
  attr = 0;
  file = record { first_cluster_low = 0; first_cluster_high = 0; file_size = 0 };
}

-- The cluster table, and the entries in the memory of each cluster number.
pub record Directories : Type 0 where
  pub fat : List ℕ
  pub root_cluster : ℕ
  pub entries : ℕ → List NamedEntry

pub record Place : Type 0 where
  pub cluster : ℕ
  pub index : ℕ

abbrev pub entry_at : Directories → Place → NamedEntry
entry_at d p = get_or (d.entries p.cluster) p.index zero_entry

abbrev pub put_entry : Directories → Place → NamedEntry → Directories
put_entry d p e = record d {
  entries = update d.entries p.cluster (set (d.entries p.cluster) p.index e);
}

-- The inner loop of `FindFile`: the end of the directory, a match, or the end of the cluster.
pub data Scan : Type 0 where
  not_found : Scan
  found : (index : ℕ) → Scan
  passed : Scan

pub scan : List NamedEntry → List ℕ → ℕ → Scan
scan [] path_elem i = passed
scan (e ∷ es) path_elem i =
    let rest = scan es path_elem (i + 1) in
    if get_or e.name 0 0 == 0
    then not_found
    else if not (name_is_equal e.name path_elem)
    then rest
    else found i

-- The outer loop of `FindFile`. A chain has at most as many clusters as the table has entries.
pub find_in_chain : ℕ → Directories → ℕ → List ℕ → Option (Option Place)
find_in_chain zero d directory_cluster path_elem = none
find_in_chain (suc fuel) d directory_cluster path_elem =
    let rest = find_in_chain fuel d (next_cluster d.fat directory_cluster) path_elem in
    if directory_cluster == end_of_cluster_chain
    then some none
    else elim (scan (d.entries directory_cluster) path_elem 0) [
      | not_found ↦ some none
      | found i ↦ some (some (record { cluster = directory_cluster; index = i }))
      | passed ↦ rest
    ]

abbrev pub chain_fuel : Directories → ℕ
chain_fuel d = length d.fat + 1

-- The start of `FindFile`: the directory to search, and the path from there.
pub start_of : Directories → List ℕ → ℕ → ℕ × List ℕ
start_of d [] directory_cluster =
    (if directory_cluster == 0 then d.root_cluster else directory_cluster, [])
start_of d (c ∷ cs) directory_cluster =
    if c == 47
    then (d.root_cluster, cs)
    else (if directory_cluster == 0 then d.root_cluster else directory_cluster, c ∷ cs)

-- `path_last`: whether the path ends with this element.
abbrev pub path_last : Option (List ℕ) → Bool
path_last none = true
path_last (some []) = true
path_last (some (c ∷ cs)) = false

abbrev pub path_rest : Option (List ℕ) → List ℕ
path_rest none = []
path_rest (some path) = path

-- `FindFile`. Each element that is passed makes the path shorter, so its length and one more rounds are
-- enough.
pub find_file : ℕ → Directories → List ℕ → ℕ → Option (Option Place × Bool)
find_file zero d path directory_cluster = none
find_file (suc fuel) d path directory_cluster =
    let (start, from) = start_of d path directory_cluster in
    let (next_path, path_elem, post_slash) = next_path_element from in
    elim (find_in_chain (chain_fuel d) d start path_elem) [
      | none ↦ none
      | some none ↦ some (none, post_slash)
      | some (some p) ↦
          if (entry_at d p).attr == attr_directory && not (path_last next_path)
          then find_file fuel d (path_rest next_path) (first_cluster (entry_at d p).file)
          else some (some p, post_slash)
    ]

-- `FindFile(path)`.
abbrev pub lookup : Directories → List ℕ → Option (Option Place × Bool)
lookup d path = find_file (length path + 1) d path 0

-- The inner loop of `AllocateEntry`: the first entry that is free or deleted.
pub free_slot : List NamedEntry → ℕ → Option ℕ
free_slot [] i = none
free_slot (e ∷ es) i =
    let rest = free_slot es (i + 1) in
    if get_or e.name 0 0 == 0 || get_or e.name 0 0 == deleted then some i else rest

-- `AllocateEntry`: the directory grows by a cluster of zeros where no entry is free.
pub allocate_entry : ℕ → Directories → ℕ → Option (Directories × Place)
allocate_entry zero d dir_cluster = none
allocate_entry (suc fuel) d dir_cluster =
    let rest = allocate_entry fuel d (next_cluster d.fat dir_cluster) in
    elim (free_slot (d.entries dir_cluster) 0) [
      | some i ↦ some (d, record { cluster = dir_cluster; index = i })
      | none ↦
          if next_cluster d.fat dir_cluster == end_of_cluster_chain
          then elim (extend_cluster d.fat dir_cluster 1) [
            | none ↦ none
            | some (fat, added) ↦ some (
              record d {
                fat = fat;
                entries =
                    update d.entries added (replicate (length (d.entries dir_cluster)) zero_entry);
              },
              record { cluster = added; index = 0 },
            )
          ]
          else rest
    ]

-- `strrchr(path, '/')`.
pub last_slash : List ℕ → Option ℕ
last_slash [] = none
last_slash (c ∷ cs) = elim (last_slash cs) [
  | some i ↦ some (suc i)
  | none ↦ if c == 47 then some 0 else none
]

-- The part of `CreateFile` before the entry is allocated: an error, or the cluster of the directory
-- and the name in it.
pub parent_of : Directories → List ℕ → Option (Code × ℕ × List ℕ)
parent_of d path = elim (last_slash path) [
  | none ↦ some (success, d.root_cluster, path)
  | some slash_pos ↦
      (let filename = drop (slash_pos + 1) path in
        let parent_dir_name = take slash_pos path in
        if length filename == 0
        then some (is_directory, d.root_cluster, filename)
        else if length parent_dir_name == 0
        then some (success, d.root_cluster, filename)
        else elim (lookup d parent_dir_name) [
          | none ↦ none
          | some (none, _) ↦ some (no_such_entry, d.root_cluster, filename)
          | some (some p, _) ↦
              if (entry_at d p).attr == attr_directory
              then some (success, first_cluster (entry_at d p).file, filename)
              else some (is_not_directory, d.root_cluster, filename)
        ])
]

-- The end of `CreateFile`: the entry gets the name and the size 0, and keeps all else.
pub name_entry : Directories → Place → List ℕ → Directories
name_entry d p filename =
    let e = entry_at d p in
    put_entry d p (record {
      name = set_file_name filename;
      attr = e.attr;
      file = record {
        first_cluster_low = e.file.first_cluster_low;
        first_cluster_high = e.file.first_cluster_high;
        file_size = 0;
      };
    })

-- `CreateFile`. `AllocateEntry` never returns a null pointer.
pub create_file : Directories → List ℕ → Option (Code × Option Place × Directories)
create_file d path = elim (parent_of d path) [
  | none ↦ none
  | some (err, parent_dir_cluster, filename) ↦
      if failed err
      then some (err, none, d)
      else elim (allocate_entry (chain_fuel d) d parent_dir_cluster) [
        | none ↦ none
        | some (d', p) ↦ some (success, some p, name_entry d' p filename)
      ]
]

-- `file_entry - 1`: before the first entry of a cluster it is the last one of the memory before it.
pub prev_entry : Directories → Place → NamedEntry
prev_entry d p =
    if p.index == 0
    then get_or (d.entries (p.cluster - 1)) (length (d.entries (p.cluster - 1)) - 1) zero_entry
    else get_or (d.entries p.cluster) (p.index - 1) zero_entry

-- The attributes for which `DeleteFile` gives up.
pub is_protected : Directories → Place → Bool → Bool
is_protected d p post_slash =
    let attr = (entry_at d p).attr in
    not (attr == attr_directory) && post_slash
    || attr == attr_directory
    || attr == attr_system
    || (prev_entry d p).attr == attr_long_name

-- The entry with the first byte of its name replaced by 0xe5.
pub mark_deleted : NamedEntry → NamedEntry
mark_deleted e = record e { name = set e.name 0 deleted }

-- `DeleteFile`: the code, and the directories after it.
pub delete_file : Directories → List ℕ → Option (Code × Directories)
delete_file d path = elim (lookup d path) [
  | none ↦ none
  | some (none, _) ↦ some (invalid_file, d)
  | some (some p, post_slash) ↦
      if is_protected d p post_slash
      then some (invalid_file, d)
      else elim (free_cluster d.fat (length d.fat) (first_cluster (entry_at d p).file)) [
        | none ↦ none
        | some fat ↦
            some (success, put_entry (record d { fat = fat }) p (mark_deleted (entry_at d p)))
      ]
]
