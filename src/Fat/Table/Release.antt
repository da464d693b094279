-- ===== src/Fat/Table/Release.antt =====
-- `FreeCluster` of kernel/fat.cpp on a whole chain.
use mikansaos.Base.{
  ℕ, zero, suc, ◌-◌, ◌≤◌, ◌<◌, if◌then◌else◌, ◌≡◌, refl, ◌∙◌, inl, inr, true, List, [], ◌∷◌, Option,
  some, length, set, length-set, Bool-cases, arith,
}
use mikansaos.Fat.Table.{entry, allocate_cluster_chain, free_cluster}
use mikansaos.Fat.Table.Chains.{entry-set, has, Linked, AllFree}
use mikansaos.Fat.Table.Extend.{IsSmall, count_free}
use mikansaos.Fat.Table.Allocate.{allocate_cluster_chain-AllocatesChain}

-- The chain's entries are all in the table.
abbrev pub Within : List ℕ → List ℕ → Type 0
Within fat [] = Unit {0}
Within fat (x ∷ xs) = (x < length fat) × Within fat xs

-- The outcome of `FreeCluster` on the chain `cs`.
pub record Releases (fat : List ℕ) (cs : List ℕ) (r : Option (List ℕ)) : Type 0 where
  pub fat' : List ℕ
  pub returns : r ≡ some fat'
  pub entries : (j : ℕ) → entry fat' j ≡ (if has cs j then 0 else entry fat j)
  pub same_length : length fat' ≡ length fat

-- On a chain inside the table, and given at least as much fuel as the chain has clusters,
-- `FreeCluster` of its first cluster ends; it makes the entries of exactly the chain's clusters 0
-- and changes no other.
pub free_cluster-Releases :
    (fat : List ℕ) (fuel c : ℕ) (cs : List ℕ)
    → length cs < fuel
    → Within fat (c ∷ cs)
    → Linked fat c cs
    → Releases fat (c ∷ cs) (free_cluster fat fuel c)
unfolding free_cluster
free_cluster-Releases fat zero c cs h w l = absurd (omega arith)
free_cluster-Releases fat (suc fuel) c [] h w l = rw l (record {
  fat' = set fat c 0;
  returns = refl;
  entries = λ j. ground (arith, entry-set fat c j 0 w.0);
  same_length = length-set fat c 0;
})
free_cluster-Releases fat (suc fuel) c (d ∷ ds) h w l =
    let r = free_cluster-Releases fat fuel d ds (omega arith) w.1 l.3 in
    record {
      fat' = set r.fat' c 0;
      returns = ground (arith, l.0, l.1, l.2, r.returns);
      entries = λ j. ground (arith, entry-set r.fat' c j 0 (rw r.same_length w.0), r.entries j);
      same_length = length-set r.fat' c 0 ∙ r.same_length;
    }

entry-outside : (fat : List ℕ) (c : ℕ) → entry fat c ≡ 0 → c < length fat
entry-outside [] c h = absurd (omega arith)
entry-outside (x ∷ fat) zero h = omega arith
entry-outside (x ∷ fat) (suc c) h = let rest = entry-outside fat c h in omega arith

free-Within :
    (fat fat' : List ℕ) (cs : List ℕ) → length fat' ≡ length fat → AllFree fat cs → Within fat' cs
free-Within fat fat' [] same a = tt
free-Within fat fat' (x ∷ xs) same a =
    (rw same (entry-outside fat x a.0), free-Within fat fat' xs same a.1)

has-free : (fat : List ℕ) (j : ℕ) (cs : List ℕ) → AllFree fat cs → has cs j ≡ true → entry fat j ≡ 0
has-free fat j [] a h = cc
has-free fat j (x ∷ xs) a h = ground (arith, has-free fat j xs a.1)

-- In a table with fewer entries than the least number that marks the end of a chain: where
-- `AllocateClusterChain` has enough free clusters, `FreeCluster` of the cluster it returns, given
-- more fuel than clusters were asked for, ends, and every entry is again as it was before.
pub free_cluster-allocate_cluster_chain :
    (fat : List ℕ) (n fuel : ℕ)
    → IsSmall fat
    → 2 ≤ length fat
    → 1 ≤ count_free fat 2 (length fat - 2)
    → n ≤ count_free fat 2 (length fat - 2)
    → n < fuel
    → (taken given_back : List ℕ) × (first : ℕ) × (allocate_cluster_chain fat n
        ≡ some (taken, first))
      × (free_cluster taken fuel first ≡ some given_back)
      × ((j : ℕ) → entry given_back j ≡ entry fat j)
free_cluster-allocate_cluster_chain fat n fuel small two one enough more =
    let a = allocate_cluster_chain-AllocatesChain fat n small two one enough in
    let r =
      free_cluster-Releases a.fat' fuel a.first a.new (ground (arith, a.length_new))
        (free-Within fat a.fat' (a.first ∷ a.new) a.same_length a.free) a.chain in
    (
      a.fat',
      r.fat',
      a.first,
      a.returns,
      r.returns,
      λ j. elim (Bool-cases (has (a.first ∷ a.new) j)) [
        | inl in_chain ↦
            ground (arith, r.entries j, has-free fat j (a.first ∷ a.new) a.free in_chain)
        | inr out ↦ ground (arith, r.entries j, a.unchanged j out)
      ],
    )
