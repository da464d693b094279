-- ===== src/Fat/Table/Extend.antt =====
-- `ExtendCluster` and `AllocateClusterChain` of kernel/fat.cpp: what they append to a chain.
use mikansaos.Base.{
  ℕ, zero, suc, ◌+◌, ◌≤◌, ◌<◌, ◌==◌, if◌then◌else◌, ◌≡◌, ◌≢◌, ◌⊎◌, refl, ap, ◌∙◌, inl, inr, false,
  List, [], ◌∷◌, some, length, set, length-set, Bool-cases, arith,
}
use mikansaos.Fat.Table.{end_of_cluster_chain, entry, is_end_of_cluster_chain, take_free}
use mikansaos.Fat.Table.Chains.{entry-set, has, Linked, last_of, RisesFrom, AllFree, has-AllFree}

-- The table has fewer entries than the smallest number that marks the end of a chain.
abbrev pub IsSmall : List ℕ → Type 0
IsSmall fat = length fat ≤ 0x0ffffff8

-- `n` clusters that were free, rising from `candidate` on, now follow `current` and end the chain;
-- no other entry has changed.
pub record Extends (fat : List ℕ) (current candidate n : ℕ) (fat' : List ℕ) (last : ℕ)
    : Type 0 where
  pub new : List ℕ
  pub length_new : length new ≡ n
  pub rises : RisesFrom candidate new
  pub free : AllFree fat new
  pub linked : Linked fat' current new
  pub last_eq : last ≡ last_of current new
  pub unchanged : (j : ℕ) → j ≢ current → has new j ≡ false → entry fat' j ≡ entry fat j
  pub same_length : length fat' ≡ length fat

pub AllFree-set :
    (fat : List ℕ) (i v : ℕ) (xs : List ℕ)
    → i < length fat
    → v ≢ 0
    → AllFree (set fat i v) xs
    → AllFree fat xs
AllFree-set fat i v [] h n a = tt
AllFree-set fat i v (x ∷ xs) h n a =
    (ground (arith, entry-set fat i x v h), AllFree-set fat i v xs h n a.1)

RisesFrom-lower : (lo k : ℕ) (xs : List ℕ) → k ≤ lo → RisesFrom lo xs → RisesFrom k xs
RisesFrom-lower lo k [] h r = tt
RisesFrom-lower lo k (x ∷ xs) h r = (omega arith, r.1)

end-Extends :
    (fat : List ℕ) (current candidate : ℕ)
    → current < length fat
    → Extends fat current candidate 0 (set fat current end_of_cluster_chain) current
unfolding is_end_of_cluster_chain
end-Extends fat current candidate h = record {
  new = [];
  length_new = refl;
  rises = tt;
  free = tt;
  linked = ground (arith, entry-set fat current current end_of_cluster_chain h);
  last_eq = refl;
  unchanged = λ j ne _. ground (arith, entry-set fat current j end_of_cluster_chain h);
  same_length = length-set fat current end_of_cluster_chain;
}

skip-Extends :
    (fat : List ℕ) (current candidate n : ℕ) (fat' : List ℕ) (last : ℕ)
    → Extends fat current (candidate + 1) n fat' last
    → Extends fat current candidate n fat' last
skip-Extends fat current candidate n fat' last e = record {
  new = e.new;
  length_new = e.length_new;
  rises = RisesFrom-lower (candidate + 1) candidate e.new (omega arith) e.rises;
  free = e.free;
  linked = e.linked;
  last_eq = e.last_eq;
  unchanged = e.unchanged;
  same_length = e.same_length;
}

take-Extends :
    (fat : List ℕ) (current candidate n : ℕ) (fat' : List ℕ) (last : ℕ)
    → IsSmall fat
    → current < length fat
    → candidate < length fat
    → 0 < candidate
    → current ≢ candidate
    → entry fat candidate ≡ 0
    → Extends (set fat current candidate) candidate (candidate + 1) n fat' last
    → Extends fat current candidate (suc n) fat' last
unfolding is_end_of_cluster_chain
take-Extends fat current candidate n fat' last small hc hk pos ne free e =
    let at = λ (j : ℕ). entry-set fat current j candidate hc in
    let out =
      has-AllFree (set fat current candidate) current e.new e.free (ground (arith, at current)) in
    record {
      new = candidate ∷ e.new;
      length_new = ap suc e.length_new;
      rises = (omega arith, e.rises);
      free = (free, AllFree-set fat current candidate e.new hc (λ z. omega arith) e.free);
      linked = (
        e.unchanged current ne out ∙ ground (arith, at current),
        (λ z. omega arith),
        ground arith,
        e.linked,
      );
      last_eq = e.last_eq;
      unchanged = λ j nj hj. e.unchanged j (ground arith) (ground arith) ∙ ground (arith, at j);
      same_length = e.same_length ∙ length-set fat current candidate;
    }

-- The invariant of the second loop: the current end of the chain is not among the candidates.
pub take_free-Extends :
    (fuel n : ℕ) (fat : List ℕ) (current candidate : ℕ) (fat' : List ℕ) (last : ℕ)
    → IsSmall fat
    → current < length fat
    → candidate + fuel ≤ length fat
    → 0 < candidate
    → (current < candidate) ⊎ (entry fat current ≢ 0)
    → take_free fat fuel current candidate n ≡ some (fat', last)
    → Extends fat current candidate n fat' last
unfolding take_free
take_free-Extends fuel zero fat current candidate fat' last small hc hk pos away e =
    let p : set fat current end_of_cluster_chain ≡ fat' = ground arith in
    let q : current ≡ last = ground arith in rw (← p, ← q) (end-Extends fat current candidate hc)
take_free-Extends zero (suc n) fat current candidate fat' last small hc hk pos away e = cc
take_free-Extends (suc fuel) (suc n) fat current candidate fat' last small hc hk pos away e =
    elim (Bool-cases (entry fat candidate == 0)) [
      | inl free ↦
          take-Extends fat current candidate n fat' last small hc (omega arith) pos (ground arith)
            (ground arith)
            (take_free-Extends fuel n (set fat current candidate) candidate (candidate + 1) fat'
              last (rw (length-set fat current candidate) small)
              (rw (length-set fat current candidate) (omega arith))
              (rw (length-set fat current candidate) (omega arith)) (omega arith)
              (inl (omega arith)) (ground arith))
      | inr used ↦ skip-Extends fat current candidate (suc n) fat' last (
          take_free-Extends fuel (suc n) fat current (candidate + 1) fat' last small hc
            (omega arith) (omega arith) (elim away [ inl lt ↦ inl (omega arith) | inr ne ↦ inr ne ])
            (ground arith))
    ]

-- The number of free clusters among the `n` from `cluster` on.
unfoldable pub count_free : List ℕ → ℕ → ℕ → ℕ
count_free fat cluster zero = 0
count_free fat cluster (suc n) =
    (if entry fat cluster == 0 then 1 else 0) + count_free fat (cluster + 1) n

-- A write of a non-zero entry outside the candidates, or over one in use, takes none of them away.
pub count_free-set :
    (fat : List ℕ) (i v cluster n : ℕ)
    → i < length fat
    → v ≢ 0
    → (i < cluster) ⊎ (entry fat i ≢ 0)
    → count_free (set fat i v) cluster n ≡ count_free fat cluster n
unfolding count_free
count_free-set fat i v cluster zero h nz away = refl
count_free-set fat i v cluster (suc n) h nz away =
    let rest =
      count_free-set fat i v (cluster + 1) n h nz
        (elim away [ inl lt ↦ inl (omega arith) | inr ne ↦ inr ne ]) in
    ground (arith, rest, entry-set fat i cluster v h)

-- Where enough clusters are free the second loop comes to its end.
pub take_free-total :
    (fuel n : ℕ) (fat : List ℕ) (current candidate : ℕ)
    → current < length fat
    → candidate + fuel ≤ length fat
    → 0 < candidate
    → (current < candidate) ⊎ (entry fat current ≢ 0)
    → n ≤ count_free fat candidate fuel
    → (r : List ℕ × ℕ) × (take_free fat fuel current candidate n ≡ some r)
unfolding take_free count_free
take_free-total fuel zero fat current candidate hc hk pos away enough = (_, refl)
take_free-total zero (suc n) fat current candidate hc hk pos away enough = absurd (omega arith)
take_free-total (suc fuel) (suc n) fat current candidate hc hk pos away enough =
    elim (Bool-cases (entry fat candidate == 0)) [
      | inl free ↦
          let kept =
            count_free-set fat current candidate (candidate + 1) fuel hc (λ z. omega arith)
              (elim away [ inl lt ↦ inl (omega arith) | inr ne ↦ inr ne ]) in
          rw free (
            take_free-total fuel n (set fat current candidate) candidate (candidate + 1)
              (rw (length-set fat current candidate) (omega arith))
              (rw (length-set fat current candidate) (omega arith)) (omega arith)
              (inl (omega arith)) (rw kept (ground arith)))
      | inr used ↦ rw used (
          take_free-total fuel (suc n) fat current (candidate + 1) hc (omega arith) (omega arith)
            (elim away [ inl lt ↦ inl (omega arith) | inr ne ↦ inr ne ]) (ground arith))
    ]
