-- ===== src/Fat/Writing/Rounds.antt =====
-- How many bytes `Write` of kernel/fat.cpp writes: each round takes the minimum with the whole length
-- that was asked for, so a write of more than a cluster is rounded up to whole clusters.
use mikansaos.Base.{
  ℕ, zero, suc, ◌+◌, ◌-◌, ◌*◌, ◌<◌, ◌≤◌, ◌==◌, ltb, ◌≡◌, ◌≢◌, ◌⊎◌, inl, inr, refl, sym, ◌∙◌, true,
  false, List, ◌∷◌, none, some, length, min, arith, Bool-cases, Option-cases,
}
use mikansaos.Fat.Table.{extend_cluster}
use mikansaos.Fat.Table.Chains.{Linked}
use mikansaos.Fat.File.{Volume, DirectoryEntry, first_cluster, new_descriptor}
use mikansaos.Fat.File.Stream.{content, IsFilled}
use mikansaos.Fat.Writing.{Written, store, move_on, write_loop, num_cluster, write_start, write}
use mikansaos.Fat.Writing.Along.{AreDistinct}
use mikansaos.Fat.Writing.Content.{write-some, write-WritesFile}

-- The beginning of a cluster or its end.
abbrev IsEdge : Volume → ℕ → Type 0
IsEdge v off = (off ≡ 0) ⊎ (off ≡ v.bytes_per_cluster)

move_on-IsEdge :
    (v : Volume) (c off left : ℕ) (v' : Volume) (c' off' : ℕ)
    → IsEdge v off
    → move_on v c off left ≡ some (v', c', off')
    → (off' ≡ 0) × (v'.bytes_per_cluster ≡ v.bytes_per_cluster)
unfolding move_on
move_on-IsEdge v c off left v' c' off' edge h =
    elim (Option-cases (extend_cluster v.fat c (num_cluster v left))) [
      | inl full ↦ ground (arith, edge, h, full)
      | inr more ↦ ground (arith, edge, h, more.1)
    ]

stop-total :
    (buf : ℕ → ℕ) (len fuel : ℕ) (v : Volume) (total c off : ℕ) (v' : Volume) (total' c' off' : ℕ)
    → len ≤ total
    → write_loop buf len v fuel total c off ≡ some (v', total', c', off')
    → total' ≡ total
unfolding write_loop
stop-total buf len zero v total c off v' total' c' off' done h = ground (arith, h)
stop-total buf len (suc fuel) v total c off v' total' c' off' done h = ground (arith, h)

round-store :
    (buf : ℕ → ℕ) (len fuel : ℕ) (v : Volume) (total c off : ℕ) (v1 : Volume) (c1 off1 : ℕ)
    → total < len
    → move_on v c off (len - total) ≡ some (v1, c1, off1)
    → (let n = min len (v1.bytes_per_cluster - off1) in
        write_loop buf len v (suc fuel) total c off
        ≡ write_loop buf len (store v1 c1 off1 buf total n) fuel (total + n) c1 (off1 + n))
unfolding write_loop
round-store buf len fuel v total c off v1 c1 off1 more h =
    let go : ltb total len ≡ true = ground arith in rw (go, h, write_loop) refl

round-none :
    (buf : ℕ → ℕ) (len fuel : ℕ) (v : Volume) (total c off : ℕ)
    → total < len
    → move_on v c off (len - total) ≡ none
    → write_loop buf len v (suc fuel) total c off ≡ none
unfolding write_loop
round-none buf len fuel v total c off more h =
    let go : ltb total len ≡ true = ground arith in rw (go, h, write_loop) refl

out_of_fuel :
    (buf : ℕ → ℕ) (len : ℕ) (v : Volume) (total c off : ℕ)
    → total < len
    → write_loop buf len v 0 total c off ≡ none
unfolding write_loop
out_of_fuel buf len v total c off more = let go : ltb total len ≡ true = ground arith in rw go refl

-- The rounds of a write of more than a cluster: whole clusters, and no more than are needed.
write_loop-rounds :
    (buf : ℕ → ℕ) (len fuel size k : ℕ) (v : Volume) (total c off : ℕ) (v' : Volume)
    (total' c' off' : ℕ)
    → v.bytes_per_cluster ≡ size
    → size < len
    → total ≡ k * size
    → total < len + size
    → IsEdge v off
    → write_loop buf len v fuel total c off ≡ some (v', total', c', off')
    → (k' : ℕ) × (total' ≡ k' * size) × (len ≤ total') × (total' < len + size)
write_loop-rounds buf len zero size k v total c off v' total' c' off' s long whole few edge h =
    elim (Bool-cases (ltb total len)) [
      | inl more ↦ absurd (cc (out_of_fuel buf len v total c off (ground arith), h))
      | inr done ↦
          let same = stop-total buf len zero v total c off v' total' c' off' (ground arith) h in
          (k, same ∙ whole, ground (arith, same, done), omega (arith, same))
    ]
write_loop-rounds buf len (suc fuel) size k v total c off v' total' c' off' s long whole few edge
      h =
    elim (Bool-cases (ltb total len)) [
      | inr done ↦
          let same =
            stop-total buf len (suc fuel) v total c off v' total' c' off' (ground arith) h in
          (k, same ∙ whole, ground (arith, same, done), omega (arith, same))
      | inl more ↦ elim (Option-cases (move_on v c off (len - total))) [
        | inl full ↦ absurd (cc (round-none buf len fuel v total c off (ground arith) full, h))
        | inr ((v1, c1, off1), found) ↦
            let (start, size1) = move_on-IsEdge v c off (len - total) v1 c1 off1 edge found in
            let n = min len (v1.bytes_per_cluster - off1) in
            let one : n ≡ size = omega (arith, start, size1, s) in
            let next : suc k * size ≡ k * size + size = omega arith in
            write_loop-rounds buf len fuel size (suc k) (store v1 c1 off1 buf total n) (total + n)
              c1 (off1 + n) v' total' c' off' (size1 ∙ s) long (omega (arith, one, next))
              (ground (arith, one, more)) (inr (omega (arith, one, start, size1, s)))
              (sym (round-store buf len fuel v total c off v1 c1 off1 (ground arith) found) ∙ h)
      ]
    ]

write_loop-short :
    (buf : ℕ → ℕ) (len : ℕ) (v : Volume) (c : ℕ) (v' : Volume) (total' c' off' : ℕ)
    → len ≤ v.bytes_per_cluster
    → write_loop buf len v len 0 c 0 ≡ some (v', total', c', off')
    → total' ≡ len
write_loop-short buf zero v c v' total' c' off' short h =
    stop-total buf 0 0 v 0 c 0 v' total' c' off' (omega arith) h
write_loop-short buf (suc len) v c v' total' c' off' short h =
    elim (Option-cases (move_on v c 0 (suc len - 0))) [
      | inl full ↦ absurd (cc (round-none buf (suc len) len v 0 c 0 (omega arith) full, h))
      | inr ((v1, c1, off1), found) ↦
          let (start, size) = move_on-IsEdge v c 0 (suc len - 0) v1 c1 off1 (inl refl) found in
          let n = min (suc len) (v1.bytes_per_cluster - off1) in
          let all : 0 + n ≡ suc len = omega (arith, start, size) in
          stop-total buf (suc len) len (store v1 c1 off1 buf 0 n) (0 + n) c1 (off1 + n) v' total' c'
            off' (omega (arith, all))
            (sym (round-store buf (suc len) len v 0 c 0 v1 c1 off1 (omega arith) found) ∙ h)
          ∙ all
    ]

write-none :
    (v : Volume) (e : DirectoryEntry) (buf : ℕ → ℕ) (len : ℕ)
    → first_cluster e ≢ 0
    → write_loop buf len v len 0 (first_cluster e) 0 ≡ none
    → write v e new_descriptor buf len ≡ none
unfolding write write_start
write-none v e buf len used h =
    let old : (first_cluster e == 0) ≡ false = ground arith in rw (write, write_start, old, h) refl

loop_of-write :
    (v : Volume) (e : DirectoryEntry) (buf : ℕ → ℕ) (len : ℕ) (w : Written)
    → first_cluster e ≢ 0
    → write v e new_descriptor buf len ≡ some w
    → (v' : Volume) × (c' off' : ℕ) × (write_loop buf len v len 0 (first_cluster e) 0
        ≡ some (v', w.total, c', off'))
loop_of-write v e buf len w used h =
    elim (Option-cases (write_loop buf len v len 0 (first_cluster e) 0)) [
      | inl none_left ↦ absurd (cc (write-none v e buf len used none_left, h))
      | inr ((v', total', c', off'), found) ↦
          let e2 = write-some v e buf len v' total' c' off' used found in
          let same : total' ≡ w.total = ground (arith, sym e2 ∙ h) in
          (v', c', off', rw (← same) found)
    ]

-- On a file whose chain has whole clusters, at least one byte each and none of them twice, and
-- room for `len` bytes, `Write` through a new descriptor ends. It writes `len` bytes where these
-- are no more than a cluster's; otherwise it writes whole clusters, the least number of them that
-- holds `len` bytes, and returns the number of bytes in these.
pub write-rounds_up :
    (v : Volume) (e : DirectoryEntry) (buf : ℕ → ℕ) (len : ℕ) (cs : List ℕ)
    → 0 < v.bytes_per_cluster
    → first_cluster e ≢ 0
    → Linked v.fat (first_cluster e) cs
    → IsFilled v (first_cluster e ∷ cs)
    → AreDistinct (first_cluster e ∷ cs)
    → len ≤ length (content v (first_cluster e ∷ cs))
    → (w : Written) × (write v e new_descriptor buf len ≡ some w)
      × (((len ≤ v.bytes_per_cluster) × (w.total ≡ len))
          ⊎ ((v.bytes_per_cluster < len)
              × (k : ℕ) × (w.total ≡ k * v.bytes_per_cluster)
              × (len ≤ w.total)
              × (w.total < len + v.bytes_per_cluster)))
write-rounds_up v e buf len cs pos used linked filled distinct fits =
    let f = write-WritesFile v e buf len cs pos used linked filled distinct fits in
    let (v', c', off', loop) = loop_of-write v e buf len f.w used f.returns in
    (
      f.w,
      f.returns,
      elim (Bool-cases (ltb v.bytes_per_cluster len)) [
        | inr short ↦ inl (
          ground (arith, short),
          write_loop-short buf len v (first_cluster e) v' f.w.total c' off' (ground (arith, short))
              loop,
        )
        | inl long ↦
            let r =
              write_loop-rounds buf len len v.bytes_per_cluster 0 v 0 (first_cluster e) 0 v'
                f.w.total c' off' refl (ground (arith, long)) (omega arith) (ground (arith, long))
                (inl refl) loop in
            inr (ground (arith, long), r.0, r.1, r.2, r.3)
      ],
    )
