-- ===== src/Fat/Directory/RoundTrip.antt =====
-- `CreateFile` and then `FindFile` of kernel/fat.cpp, in the root directory.
use mikansaos.Base.{
  ℕ, suc, ◌+◌, ◌≤◌, ◌<◌, ◌≡◌, ◌≢◌, refl, ap, ◌∙◌, inl, inr, Bool-cases, Option-cases, false, ◌||◌,
  ◌==◌, List, [], ◌∷◌, length, get_or, get_or-set_self, set, Option, none, some, arith,
}
use mikansaos.Base.Maps.{update_self}
use mikansaos.ErrorCode.{success}
use mikansaos.Fat.Table.{end_of_cluster_chain}
use mikansaos.Fat.Table.Chains.{Linked}
use mikansaos.Fat.File.{first_cluster}
use mikansaos.Fat.Names.{set_file_name, next_path_element}
use mikansaos.Fat.Names.Compare.{Is83, name_is_equal-set_file_name}
use mikansaos.Fat.Directory.{
  NamedEntry, Directories, Place, put_entry, entry_at, find_in_chain, free_slot, allocate_entry,
  deleted, chain_fuel, find_file, start_of, lookup, last_slash, parent_of, create_file, name_entry,
  zero_entry,
}
use mikansaos.Fat.Directory.Create.{room, room-free, find_in_chain-put_entry, allocate_entry-room}

next_path_element-plain :
    (name : List ℕ) → last_slash name ≡ none → next_path_element name ≡ (none, name, false)
unfolding next_path_element last_slash
next_path_element-plain [] h = refl
next_path_element-plain (c ∷ cs) h = elim (Option-cases (last_slash cs)) [
  | inl no_slash ↦
      let rest = next_path_element-plain cs no_slash in
      let other : (c == 47) ≡ false = ground (arith, h, no_slash) in rw (rest, other) refl
  | inr (i, slash) ↦ absurd (ground (arith, h, slash))
]

start_of-plain :
    (d : Directories) (name : List ℕ)
    → last_slash name ≡ none
    → start_of d name 0 ≡ (d.root_cluster, name)
unfolding start_of last_slash
start_of-plain d [] h = refl
start_of-plain d (c ∷ cs) h = elim (Option-cases (last_slash cs)) [
  | inl no_slash ↦ ground (arith, h, no_slash)
  | inr (i, slash) ↦ absurd (ground (arith, h, slash))
]

-- One round of `find_file` at a name without a slash.
find_file-plain :
    (fuel : ℕ) (d : Directories) (name : List ℕ) (r : Option Place)
    → last_slash name ≡ none
    → find_in_chain (chain_fuel d) d d.root_cluster name ≡ some r
    → find_file (suc fuel) d name 0 ≡ some (r, false)
unfolding find_file
find_file-plain fuel d name none h f =
    ground (arith, start_of-plain d name h, next_path_element-plain name h, f)
find_file-plain fuel d name (some p) h f =
    ground (arith, start_of-plain d name h, next_path_element-plain name h, f)

lookup-plain :
    (d : Directories) (name : List ℕ) (r : Option Place)
    → last_slash name ≡ none
    → find_in_chain (chain_fuel d) d d.root_cluster name ≡ some r
    → lookup d name ≡ some (r, false)
lookup-plain d name r h f =
    let rounds : length name + 1 ≡ suc (length name) = omega arith in
    ap (λ (n : ℕ). find_file n d name 0) rounds ∙ find_file-plain (length name) d name r h f

parent_of-plain :
    (d : Directories) (name : List ℕ)
    → last_slash name ≡ none
    → parent_of d name ≡ some (success, d.root_cluster, name)
unfolding parent_of
parent_of-plain d name h = ground (arith, h)

create_file-plain :
    (d : Directories) (name : List ℕ) (p : Place)
    → last_slash name ≡ none
    → allocate_entry (chain_fuel d) d d.root_cluster ≡ some (d, p)
    → create_file d name ≡ some (success, some p, name_entry d p name)
unfolding create_file
create_file-plain d name p h a = ground (arith, parent_of-plain d name h, a)

find_file-stuck :
    (fuel : ℕ) (d : Directories) (name : List ℕ)
    → last_slash name ≡ none
    → find_in_chain (chain_fuel d) d d.root_cluster name ≡ none
    → find_file (suc fuel) d name 0 ≡ none
unfolding find_file
find_file-stuck fuel d name h f =
    ground (arith, start_of-plain d name h, next_path_element-plain name h, f)

lookup-stuck :
    (d : Directories) (name : List ℕ)
    → last_slash name ≡ none
    → find_in_chain (chain_fuel d) d d.root_cluster name ≡ none
    → lookup d name ≡ none
lookup-stuck d name h f =
    let rounds : length name + 1 ≡ suc (length name) = omega arith in
    ap (λ (n : ℕ). find_file n d name 0) rounds ∙ find_file-stuck (length name) d name h f

lookup-none :
    (d : Directories) (name : List ℕ)
    → last_slash name ≡ none
    → lookup d name ≡ some (none, false)
    → find_in_chain (chain_fuel d) d d.root_cluster name ≡ some none
lookup-none d name h l = answer (find_in_chain (chain_fuel d) d d.root_cluster name) refl
  where
    answer :
        (o : Option (Option Place))
        → find_in_chain (chain_fuel d) d d.root_cluster name ≡ o
        → o ≡ some none
    answer none e = absurd (ground (arith, l, lookup-stuck d name h e))
    answer (some none) e = refl
    answer (some (some q)) e = absurd (ground (arith, l, lookup-plain d name (some q) h e))

free_slot-lt : (es : List NamedEntry) (i k : ℕ) → free_slot es i ≡ some k → k < i + length es
unfolding free_slot
free_slot-lt [] i k f = absurd (ground (arith, f))
free_slot-lt (x ∷ es) i k f =
    elim (Bool-cases (get_or x.name 0 0 == 0 || get_or x.name 0 0 == deleted)) [
      | inl free ↦ let here : i ≡ k = ground (arith, f, free) in omega arith
      | inr used ↦ let later = free_slot-lt es (i + 1) k (ground (arith, f, used)) in omega arith
    ]

pub entry_at-put_entry :
    (d : Directories) (p : Place) (e : NamedEntry)
    → p.index < length (d.entries p.cluster)
    → entry_at (put_entry d p e) p ≡ e
entry_at-put_entry d p e h =
    ap (λ (es : List NamedEntry). get_or es p.index zero_entry)
      (update_self d.entries p.cluster (set (d.entries p.cluster) p.index e))
    ∙ get_or-set_self (d.entries p.cluster) p.index e zero_entry h

-- `CreateFile` of an 8.3 name that `FindFile` does not find in the root directory, whose chain has a
-- free or a deleted entry, names the first such entry; `FindFile` then finds it there. The file has the
-- size 0 and the first cluster that the entry had before.
pub lookup-create_file :
    (d : Directories) (name : List ℕ) (cs : List ℕ) (p : Place)
    → last_slash name ≡ none
    → Is83 name
    → (get_or (set_file_name name) 0 0 == 0) ≡ false
    → d.root_cluster ≢ end_of_cluster_chain
    → Linked d.fat d.root_cluster cs
    → length cs ≤ length d.fat
    → room d d.root_cluster cs ≡ some p
    → lookup d name ≡ some (none, false)
    → (create_file d name ≡ some (success, some p, name_entry d p name))
      × (lookup (name_entry d p name) name ≡ some (some p, false))
      × ((entry_at (name_entry d p name) p).file.file_size ≡ 0)
      × (first_cluster (entry_at (name_entry d p name) p).file ≡ first_cluster (entry_at d p).file)
unfolding name_entry
lookup-create_file d name cs p h i z n l k r f =
    let e : NamedEntry = record {
      name = set_file_name name;
      attr = (entry_at d p).attr;
      file = record {
        first_cluster_low = (entry_at d p).file.first_cluster_low;
        first_cluster_high = (entry_at d p).file.first_cluster_high;
        file_size = 0;
      };
    } in
    let within : p.index < length (d.entries p.cluster) =
      omega
        (arith, free_slot-lt (d.entries p.cluster) 0 p.index (room-free cs d d.root_cluster p r)) in
    let put = entry_at-put_entry d p e within in
    (
      create_file-plain d name p h
          (allocate_entry-room cs (chain_fuel d) d d.root_cluster p l (omega arith) r),
      lookup-plain (put_entry d p e) name (some p) h (
          find_in_chain-put_entry cs (chain_fuel d) d d.root_cluster name p e n l (omega arith) r
            (lookup-none d name h f) (name_is_equal-set_file_name name i) z),
      ap (λ (x : NamedEntry). x.file.file_size) put,
      ap (λ (x : NamedEntry). first_cluster x.file) put,
    )
