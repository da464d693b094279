-- ===== src/Fat/File/Stream.antt =====
-- The bytes that follow a position in a file of kernel/fat.cpp.
use mikansaos.Base.{
  Bool-cases, ℕ, ◌+◌, ◌-◌, ◌<◌, ◌≤◌, ◌==◌, ◌≡◌, ◌≢◌, ◌⊎◌, inl, inr, List, [], ◌∷◌, ◌++◌, length,
  take, drop, refl, sym, ap, ◌∙◌, arith, length-drop,
}
use mikansaos.Base.Slices.{drop-drop, drop-append_within, take-append_within, drop-append_past}
use mikansaos.Fat.Table.{end_of_cluster_chain, next_cluster}
use mikansaos.Fat.Table.Chains.{Linked, next-end, next-link}
use mikansaos.Fat.File.{Volume, step_read}

-- The bytes of the clusters, one after the other.
abbrev pub content : Volume → List ℕ → List ℕ
content v [] = []
content v (c ∷ cs) = v.clusters c ++ content v cs

-- Every one of the clusters holds the volume's number of bytes.
abbrev pub IsFilled : Volume → List ℕ → Type 0
IsFilled v [] = Unit {0}
IsFilled v (c ∷ cs) = (length (v.clusters c) ≡ v.bytes_per_cluster) × IsFilled v cs

-- At this position the chain `cluster ∷ cs` goes on with the bytes `rest`.
pub record Inside (v : Volume) (cluster off : ℕ) (rest : List ℕ) : Type 0 where
  pub cs : List ℕ
  pub used : cluster ≢ 0
  pub linked : Linked v.fat cluster cs
  pub filled : IsFilled v (cluster ∷ cs)
  pub within : off < v.bytes_per_cluster
  pub rest_eq : rest ≡ drop off (content v (cluster ∷ cs))

-- The bytes `rest` follow the position: it is inside a cluster, or past the last one.
abbrev pub Follows : Volume → ℕ → ℕ → List ℕ → Type 0
Follows v cluster off rest =
    Inside v cluster off rest ⊎ ((cluster ≡ end_of_cluster_chain) × (off ≡ 0) × (rest ≡ []))

-- The position after the last byte of a cluster.
pub Follows-next :
    (v : Volume) (cluster : ℕ) (cs : List ℕ)
    → 0 < v.bytes_per_cluster
    → Linked v.fat cluster cs
    → IsFilled v (cluster ∷ cs)
    → Follows v (next_cluster v.fat cluster) 0 (content v cs)
Follows-next v cluster [] pos l f = inr (next-end v.fat cluster l, refl, refl)
Follows-next v cluster (d ∷ ds) pos l f =
    rw (next-link v.fat cluster d ds l) (
      inl
        (record { cs = ds; used = l.1; linked = l.3; filled = f.1; within = pos; rest_eq = refl }))

-- A round of the loop of `Read`: `n` bytes of the cluster, which are the next ones of the file, and
-- the position after them.
pub step_read-Follows :
    (v : Volume) (cluster off n : ℕ) (rest : List ℕ)
    → Inside v cluster off rest
    → n ≤ v.bytes_per_cluster - off
    → (take n (drop off (v.clusters cluster)) ≡ take n rest)
      × Follows v (step_read v cluster (off + n)).0 (step_read v cluster (off + n)).1 (drop n rest)
step_read-Follows v cluster off n rest i h =
    let bytes = v.clusters cluster in
    let size = length-drop off bytes in
    let split = drop-append_within off bytes (content v i.cs) (omega (arith, i.filled.0)) in
    let short : n ≤ length (drop off bytes) = omega (arith, i.filled.0) in
    let later = drop-drop n off (content v (cluster ∷ i.cs)) in
    (
      sym (
          ap (take n) (i.rest_eq ∙ split)
          ∙ take-append_within n (drop off bytes) (content v i.cs) short),
      elim (Bool-cases ((off + n) == v.bytes_per_cluster)) [
        | inl last ↦
            let past =
              drop-append_past (off + n) bytes (content v i.cs)
                (ground (arith, i.filled.0, last)) in
            let none_left : off + n - length bytes ≡ 0 = ground (arith, i.filled.0, last) in
            let rest_eq =
              ap (drop n) i.rest_eq
              ∙ later
              ∙ past
              ∙ ap (λ (k : ℕ). drop k (content v i.cs)) none_left in
            rw (last, rest_eq)
              (Follows-next v cluster i.cs (omega (arith, i.within)) i.linked i.filled)
        | inr more ↦ rw more (
            inl (record {
              cs = i.cs;
              used = i.used;
              linked = i.linked;
              filled = i.filled;
              within = ground (arith, i.within, more, h);
              rest_eq = ap (drop n) i.rest_eq ∙ later;
            }))
      ],
    )
