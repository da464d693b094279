-- ===== src/Fat/Table/Tests.antt =====
-- Inputs for the theorems on the cluster table of kernel/fat.cpp.
use mikansaos.Base.{ℕ, ◌≡◌, refl, List, [], ◌∷◌, some, arith}
use mikansaos.Fat.Table.{
  end_of_cluster_chain, entry, is_end_of_cluster_chain, next_cluster, last_cluster, take_free,
  extend_cluster, allocate_cluster_chain, free_cluster,
}
use mikansaos.Fat.Table.Extend.{count_free}
use mikansaos.Fat.Table.Allocate.{AllocatesChain, allocate_cluster_chain-AllocatesChain}
use mikansaos.Fat.Table.Release.{free_cluster-allocate_cluster_chain}

-- The chain 2, 5; the clusters 3, 4 and 7 are free, 6 is a chain of its own.
abbrev table : List ℕ
table = 0x0ffffff8 ∷ 0x0fffffff ∷ 5 ∷ 0 ∷ 0 ∷ 0x0fffffff ∷ 0x0fffffff ∷ 0 ∷ []

extend_two :
    extend_cluster table 2 2
    ≡ some (0x0ffffff8 ∷ 0x0fffffff ∷ 5 ∷ 4 ∷ 0x0fffffff ∷ 3 ∷ 0x0fffffff ∷ 0 ∷ [], 4)
unfolding extend_cluster take_free last_cluster is_end_of_cluster_chain
extend_two = refl

next_of_end : next_cluster table 5 ≡ end_of_cluster_chain
unfolding next_cluster is_end_of_cluster_chain
next_of_end = refl

allocate_cluster_chain-AllocatesChain_example :
    AllocatesChain table 3 (allocate_cluster_chain table 3)
unfolding count_free
allocate_cluster_chain-AllocatesChain_example =
    allocate_cluster_chain-AllocatesChain table 3 (omega arith) (omega arith) (omega arith)
      (omega arith)

free_cluster-allocate_cluster_chain_example :
    (taken given_back : List ℕ) × (first : ℕ) × (allocate_cluster_chain table 2
      ≡ some (taken, first))
    × (free_cluster taken 8 first ≡ some given_back)
    × ((j : ℕ) → entry given_back j ≡ entry table j)
unfolding count_free
free_cluster-allocate_cluster_chain_example =
    free_cluster-allocate_cluster_chain table 2 8 (omega arith) (omega arith) (omega arith)
      (omega arith) (omega arith)
