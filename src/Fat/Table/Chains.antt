-- ===== src/Fat/Table/Chains.antt =====
-- Chains of clusters in the table of kernel/fat.cpp.
use mikansaos.Base.{
  ℕ, zero, suc, ◌+◌, ◌≤◌, ◌<◌, ◌==◌, if◌then◌else◌, ◌≡◌, ◌≢◌, refl, Bool, true, false, ◌||◌, List,
  [], ◌∷◌, some, length, set, get_or-set_self, get_or-set_ne, arith,
}
use mikansaos.Fat.Table.{
  next_cluster, end_of_cluster_chain, entry, is_end_of_cluster_chain, last_cluster,
}

pub entry-set :
    (fat : List ℕ) (i j v : ℕ)
    → i < length fat
    → entry (set fat i v) j ≡ (if i == j then v else entry fat j)
entry-set fat i j v h = ground (
  arith,
  get_or-set_self fat i v end_of_cluster_chain h,
  get_or-set_ne fat i j v end_of_cluster_chain,
)

-- Whether the list has the cluster.
abbrev pub has : List ℕ → ℕ → Bool
has [] c = false
has (x ∷ xs) c = x == c || has xs c

-- From `c` the entries lead through `cs` in this order, and from the last of them to an end.
abbrev pub Linked : List ℕ → ℕ → List ℕ → Type 0
Linked fat c [] = is_end_of_cluster_chain (entry fat c) ≡ true
Linked fat c (d ∷ ds) =
    (entry fat c ≡ d) × (d ≢ 0) × (is_end_of_cluster_chain d ≡ false) × Linked fat d ds

abbrev pub last_of : ℕ → List ℕ → ℕ
last_of c [] = c
last_of c (d ∷ ds) = last_of d ds

pub last_cluster-Linked :
    (fat : List ℕ) (fuel c : ℕ) (cs : List ℕ)
    → length cs < fuel
    → Linked fat c cs
    → last_cluster fat fuel c ≡ some (last_of c cs)
unfolding last_cluster
last_cluster-Linked fat zero c cs h l = absurd (omega arith)
last_cluster-Linked fat (suc fuel) c [] h l = rw l
last_cluster-Linked fat (suc fuel) c (d ∷ ds) h l =
    ground (arith, last_cluster-Linked fat fuel d ds (omega arith) l.3)

-- Strictly rising from `lo` on.
abbrev pub RisesFrom : ℕ → List ℕ → Type 0
RisesFrom lo [] = Unit {0}
RisesFrom lo (x ∷ xs) = (lo ≤ x) × RisesFrom (x + 1) xs

abbrev pub AllFree : List ℕ → List ℕ → Type 0
AllFree fat [] = Unit {0}
AllFree fat (x ∷ xs) = (entry fat x ≡ 0) × AllFree fat xs

pub has-lt : (lo c : ℕ) (xs : List ℕ) → RisesFrom lo xs → c < lo → has xs c ≡ false
has-lt lo c [] r h = refl
has-lt lo c (x ∷ xs) r h = ground (arith, has-lt (x + 1) c xs r.1)

pub has-AllFree :
    (fat : List ℕ) (c : ℕ) (xs : List ℕ) → AllFree fat xs → entry fat c ≢ 0 → has xs c ≡ false
has-AllFree fat c [] a h = refl
has-AllFree fat c (x ∷ xs) a h = ground (arith, has-AllFree fat c xs a.1)

pub next-end : (fat : List ℕ) (c : ℕ) → Linked fat c [] → next_cluster fat c ≡ end_of_cluster_chain
unfolding next_cluster
next-end fat c l = rw l refl

pub next-link :
    (fat : List ℕ) (c d : ℕ) (ds : List ℕ) → Linked fat c (d ∷ ds) → next_cluster fat c ≡ d
unfolding next_cluster
next-link fat c d ds l = ground (arith, l.0, l.2)

pub inner-not_end : (d : ℕ) → is_end_of_cluster_chain d ≡ false → d ≢ end_of_cluster_chain
unfolding is_end_of_cluster_chain
inner-not_end d h e = ground arith
