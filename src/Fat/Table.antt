-- ===== src/Fat/Table.antt =====
-- The cluster table of kernel/fat.cpp. A table is the list of its 32-bit entries; `none` stands for
-- a walk that never ends (a chain that comes back to itself) or that leaves the table, which the
-- source does not check. An entry outside the table reads as the end of a chain here.
pub mod Chains
pub mod Extend
pub mod Append
pub mod Allocate
pub mod Release
mod Tests
use mikansaos.Base.{
  ℕ, zero, suc, ◌+◌, ◌-◌, ◌==◌, ltb, leb, if◌then◌else◌, Bool, ◌||◌, List, Option, none, some,
  length, get_or, set,
}

abbrev pub end_of_cluster_chain : ℕ
end_of_cluster_chain = 0x0fffffff

abbrev pub entry : List ℕ → ℕ → ℕ
entry fat cluster = get_or fat cluster end_of_cluster_chain

unfoldable pub is_end_of_cluster_chain : ℕ → Bool
is_end_of_cluster_chain cluster = leb 0x0ffffff8 cluster

unfoldable pub next_cluster : List ℕ → ℕ → ℕ
next_cluster fat cluster =
    let next = entry fat cluster in
    if is_end_of_cluster_chain next then end_of_cluster_chain else next

-- The first loop of `ExtendCluster`, to the last cluster of a chain. A chain that ends has at most
-- as many clusters as the table has entries, so that much fuel is enough.
pub last_cluster : List ℕ → ℕ → ℕ → Option ℕ
last_cluster fat zero cluster = none
last_cluster fat (suc fuel) cluster =
    let rest = last_cluster fat fuel (entry fat cluster) in
    if is_end_of_cluster_chain (entry fat cluster) then some cluster else rest

-- The second loop, with `n` clusters to go; the fuel is the number of entries from `candidate` on.
-- The new table and the last cluster of the chain.
pub take_free : List ℕ → ℕ → ℕ → ℕ → ℕ → Option (List ℕ × ℕ)
take_free fat fuel current candidate zero = some (set fat current end_of_cluster_chain, current)
take_free fat zero current candidate (suc n) = none
take_free fat (suc fuel) current candidate (suc n) =
    let skip = take_free fat fuel current (candidate + 1) (suc n) in
    let take = take_free (set fat current candidate) fuel candidate (candidate + 1) n in
    if entry fat candidate == 0 then take else skip

pub extend_cluster : List ℕ → ℕ → ℕ → Option (List ℕ × ℕ)
extend_cluster fat eoc_cluster n = elim (last_cluster fat (length fat) eoc_cluster) [
  | none ↦ none
  | some last ↦ take_free fat (length fat - 2) last 2 n
]

-- The first loop of `AllocateClusterChain`: the first free cluster from `cluster` on.
pub first_free : List ℕ → ℕ → ℕ → Option ℕ
first_free fat zero cluster = none
first_free fat (suc fuel) cluster =
    let rest = first_free fat fuel (cluster + 1) in
    if entry fat cluster == 0 then some cluster else rest

-- The new table and the first cluster of the chain.
pub allocate_cluster_chain : List ℕ → ℕ → Option (List ℕ × ℕ)
allocate_cluster_chain fat n = elim (first_free fat (length fat - 2) 2) [
  | none ↦ none
  | some first ↦
      (let taken = set fat first end_of_cluster_chain in
        if ltb 1 n
        then elim (extend_cluster taken first (n - 1)) [
          | none ↦ none
          | some (fat', _) ↦ some (fat', first)
        ]
        else some (taken, first))
]

-- `FreeCluster`: the rest of the chain first, then the cluster itself.
pub free_cluster : List ℕ → ℕ → ℕ → Option (List ℕ)
free_cluster fat zero cluster = none
free_cluster fat (suc fuel) cluster =
    let rest = free_cluster fat fuel (entry fat cluster) in
    if is_end_of_cluster_chain (entry fat cluster) || entry fat cluster == 0
    then some (set fat cluster 0)
    else elim rest [ none ↦ none | some fat' ↦ some (set fat' cluster 0) ]
