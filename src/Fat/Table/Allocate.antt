-- ===== src/Fat/Table/Allocate.antt =====
-- `AllocateClusterChain` of kernel/fat.cpp: a new chain of clusters that were free.
use mikansaos.Base.{
  ℕ, zero, suc, ◌+◌, ◌-◌, ◌≤◌, ◌<◌, ◌==◌, ltb, ◌≡◌, ◌≢◌, refl, ◌∙◌, inl, inr, true, false, List, [],
  ◌∷◌, Option, some, length, set, length-set, Bool-cases, arith,
}
use mikansaos.Fat.Table.{
  end_of_cluster_chain, entry, is_end_of_cluster_chain, extend_cluster, first_free,
  allocate_cluster_chain,
}
use mikansaos.Fat.Table.Chains.{entry-set, has, Linked, RisesFrom, AllFree, has-AllFree}
use mikansaos.Fat.Table.Extend.{IsSmall, count_free, count_free-set, AllFree-set}
use mikansaos.Fat.Table.Append.{extend_cluster-Appends}

-- The first loop finds a free cluster if there is one, and the others stay free.
pub record FirstFree (fat : List ℕ) (fuel cluster : ℕ) (o : Option ℕ) : Type 0 where
  pub first : ℕ
  pub found : o ≡ some first
  pub above : cluster ≤ first
  pub below : first < cluster + fuel
  pub free : entry fat first ≡ 0
  pub others :
      (v : ℕ) → v ≢ 0 → count_free (set fat first v) cluster fuel + 1 ≡ count_free fat cluster fuel

first_free-FirstFree :
    (fat : List ℕ) (fuel cluster : ℕ)
    → cluster + fuel ≤ length fat
    → 0 < count_free fat cluster fuel
    → FirstFree fat fuel cluster (first_free fat fuel cluster)
unfolding first_free count_free
first_free-FirstFree fat zero cluster h pos = absurd (omega arith)
first_free-FirstFree fat (suc fuel) cluster h pos = elim (Bool-cases (entry fat cluster == 0)) [
  | inl free ↦ rw free (record {
    first = cluster;
    found = refl;
    above = omega arith;
    below = omega arith;
    free = ground arith;
    others = λ v nz.
        let rest =
          count_free-set fat cluster v (cluster + 1) fuel (omega arith) nz (inl (omega arith)) in
        ground (arith, rest, entry-set fat cluster cluster v (omega arith));
  })
  | inr used ↦
      let r = first_free-FirstFree fat fuel (cluster + 1) (omega arith) (ground arith) in
      rw used (record {
        first = r.first;
        found = r.found;
        above = omega arith;
        below = omega arith;
        free = r.free;
        others =
            λ v nz. ground (arith, r.others v nz, entry-set fat r.first cluster v (omega arith));
      })
]

-- The outcome of `AllocateClusterChain`: the chain `first ∷ new`.
pub record AllocatesChain (fat : List ℕ) (n : ℕ) (r : Option (List ℕ × ℕ)) : Type 0 where
  pub fat' : List ℕ
  pub first : ℕ
  pub new : List ℕ
  pub returns : r ≡ some (fat', first)
  pub length_new : length new ≡ n - 1
  pub rises : RisesFrom 2 new
  pub distinct : has new first ≡ false
  pub in_table : (2 ≤ first) × (first < length fat)
  pub free : AllFree fat (first ∷ new)
  pub chain : Linked fat' first new
  pub unchanged : (j : ℕ) → has (first ∷ new) j ≡ false → entry fat' j ≡ entry fat j
  pub same_length : length fat' ≡ length fat

allocate-one :
    (fat : List ℕ) (n first : ℕ)
    → first_free fat (length fat - 2) 2 ≡ some first
    → ltb 1 n ≡ false
    → allocate_cluster_chain fat n ≡ some (set fat first end_of_cluster_chain, first)
unfolding allocate_cluster_chain
allocate-one fat n first e few = rw (e, allocate_cluster_chain, few) refl

allocate-more :
    (fat : List ℕ) (n first : ℕ) (fat' : List ℕ) (last : ℕ)
    → first_free fat (length fat - 2) 2 ≡ some first
    → ltb 1 n ≡ true
    → extend_cluster (set fat first end_of_cluster_chain) first (n - 1) ≡ some (fat', last)
    → allocate_cluster_chain fat n ≡ some (fat', first)
unfolding allocate_cluster_chain
allocate-more fat n first fat' last e many x = rw (e, allocate_cluster_chain, many, x) refl

ends :
    (fat : List ℕ) (first : ℕ)
    → first < length fat
    → Linked (set fat first end_of_cluster_chain) first []
unfolding is_end_of_cluster_chain
ends fat first h = ground (arith, entry-set fat first first end_of_cluster_chain h)

-- In a table with fewer entries than the least number that marks the end of a chain: where `n`
-- clusters (at least one) are free, `AllocateClusterChain` makes a chain of `n` clusters, one if
-- `n` is 0: all of them were free and stand in the chain once, the entries lead from the cluster
-- it returns through the others to an end of chain, and no other entry changes.
pub allocate_cluster_chain-AllocatesChain :
    (fat : List ℕ) (n : ℕ)
    → IsSmall fat
    → 2 ≤ length fat
    → 1 ≤ count_free fat 2 (length fat - 2)
    → n ≤ count_free fat 2 (length fat - 2)
    → AllocatesChain fat n (allocate_cluster_chain fat n)
allocate_cluster_chain-AllocatesChain fat n small two one enough =
    let f = first_free-FirstFree fat (length fat - 2) 2 (omega arith) (omega arith) in
    let taken = set fat f.first end_of_cluster_chain in
    let inside : f.first < length fat = ground (arith, f.below) in
    let same = length-set fat f.first end_of_cluster_chain in
    let at = λ (j : ℕ). entry-set fat f.first j end_of_cluster_chain inside in
    elim (Bool-cases (ltb 1 n)) [
      | inl many ↦
          let left = f.others end_of_cluster_chain (λ z. omega arith) in
          let a =
            extend_cluster-Appends taken f.first (n - 1) [] (rw same small) (rw same two)
              (rw same (omega arith)) (rw same inside) (ends fat f.first inside)
              (rw same (ground arith)) in
          record {
            fat' = a.fat';
            first = f.first;
            new = a.new;
            returns = allocate-more fat n f.first _ _ f.found many a.returns;
            length_new = a.length_new;
            rises = a.rises;
            distinct = has-AllFree taken f.first a.new a.free (ground (arith, at f.first));
            in_table = (f.above, inside);
            free = (
              f.free,
              AllFree-set fat f.first end_of_cluster_chain a.new inside (λ z. omega arith) a.free,
            );
            chain = a.chain;
            unchanged = λ j out. a.unchanged j (ground arith) (ground arith) ∙ ground (arith, at j);
            same_length = a.same_length ∙ same;
          }
      | inr few ↦ record {
        fat' = taken;
        first = f.first;
        new = [];
        returns = allocate-one fat n f.first f.found few;
        length_new = ground arith;
        rises = tt;
        distinct = refl;
        in_table = (f.above, inside);
        free = (f.free, tt);
        chain = ends fat f.first inside;
        unchanged = λ j out. ground (arith, at j);
        same_length = same;
      }
    ]
