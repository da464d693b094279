-- ===== src/Fat/Writing/Walk.antt =====
-- The loop of `Write` of kernel/fat.cpp ends on a chain that is long enough.
use mikansaos.Base.{
  ℕ, zero, suc, ◌+◌, ◌-◌, ◌<◌, ◌≤◌, ◌==◌, ltb, ◌≡◌, ◌≢◌, inl, inr, refl, ap, ◌∙◌, true, false, List,
  [], ◌∷◌, some, length, min, arith, Bool-cases,
}
use mikansaos.Fat.Table.{end_of_cluster_chain, next_cluster}
use mikansaos.Fat.Table.Chains.{has, Linked, next-link, inner-not_end}
use mikansaos.Fat.File.{Volume}
use mikansaos.Fat.File.Stream.{IsFilled}
use mikansaos.Fat.Writing.{put, store, move_on, write_loop}
use mikansaos.Fat.Writing.Put.{length-put}
use mikansaos.Fat.Writing.Along.{
  AreDistinct, room, Writes, Writes-store, Writes-next, IsFilled-store, store_here,
}

round_here :
    (buf : ℕ → ℕ) (len fuel : ℕ) (v : Volume) (total c off : ℕ)
    → total < len
    → off < v.bytes_per_cluster
    → (let n = min len (v.bytes_per_cluster - off) in
        write_loop buf len v (suc fuel) total c off
        ≡ write_loop buf len (store v c off buf total n) fuel (total + n) c (off + n))
unfolding write_loop move_on
round_here buf len fuel v total c off more within =
    let inside : (off == v.bytes_per_cluster) ≡ false = ground arith in
    let go : ltb total len ≡ true = ground arith in rw (go, inside) refl

round_next :
    (buf : ℕ → ℕ) (len fuel : ℕ) (v : Volume) (total c d : ℕ)
    → total < len
    → 0 < v.bytes_per_cluster
    → next_cluster v.fat c ≡ d
    → d ≢ end_of_cluster_chain
    → write_loop buf len v (suc fuel) total c v.bytes_per_cluster
      ≡ write_loop buf len v (suc fuel) total d 0
unfolding write_loop move_on
round_next buf len fuel v total c d more pos next inner =
    let at_end : (v.bytes_per_cluster == v.bytes_per_cluster) ≡ true = ground arith in
    let start : (0 == v.bytes_per_cluster) ≡ false = ground arith in
    let go : ltb total len ≡ true = ground arith in
    let goes_on : (d == end_of_cluster_chain) ≡ false = ground arith in
    rw (go, at_end, next, goes_on, start) refl

stop_now :
    (buf : ℕ → ℕ) (len fuel : ℕ) (v : Volume) (total c off : ℕ)
    → len ≤ total
    → write_loop buf len v fuel total c off ≡ some (v, total, c, off)
unfolding write_loop
stop_now buf len zero v total c off done =
    let stop : ltb total len ≡ false = ground arith in rw stop refl
stop_now buf len (suc fuel) v total c off done =
    let stop : ltb total len ≡ false = ground arith in rw stop refl

stops :
    (buf : ℕ → ℕ) (len fuel : ℕ) (v : Volume) (total c off : ℕ) (cs : List ℕ)
    → len ≤ total
    → off ≤ v.bytes_per_cluster
    → IsFilled v (c ∷ cs)
    → Writes buf len v total c off cs (write_loop buf len v fuel total c off)
unfolding put
stops buf len fuel v total c off cs done below filled =
    let none_left : total - total ≡ 0 = omega arith in
    record {
      v' = v;
      total' = total;
      end_cluster = c;
      end_off = off;
      returns = stop_now buf len fuel v total c off done;
      reaches = (done, omega arith);
      bound = omega arith;
      bytes = rw none_left refl;
      same_fat = refl;
      same_size = refl;
      filled = filled;
      others = λ j o. refl;
    }

-- One round inside a cluster, given the rest of the loop.
inside-Writes :
    (buf : ℕ → ℕ) (len fuel : ℕ) (v : Volume) (total c off : ℕ) (cs : List ℕ)
    → total < len
    → off < v.bytes_per_cluster
    → length (v.clusters c) ≡ v.bytes_per_cluster
    → has cs c ≡ false
    → (let n = min len (v.bytes_per_cluster - off) in
        Writes buf len
          (store v c off buf total n)
          (total + n)
          c
          (off + n)
          cs
          (write_loop buf len (store v c off buf total n) fuel (total + n) c (off + n)))
    → Writes buf len v total c off cs (write_loop buf len v (suc fuel) total c off)
inside-Writes buf len fuel v total c off cs more within size out w =
    rw (round_here buf len fuel v total c off more within) (
      Writes-store v c off buf total (min len (v.bytes_per_cluster - off)) len cs _ out
        (omega (arith, size)) w)

-- With this fuel the loop ends on every chain that has room for what is left to write.
abbrev Ends : (ℕ → ℕ) → ℕ → ℕ → Type 0
Ends buf len fuel =
    (v : Volume) (total c off : ℕ) (cs : List ℕ)
    → off ≤ v.bytes_per_cluster
    → 0 < v.bytes_per_cluster
    → Linked v.fat c cs
    → IsFilled v (c ∷ cs)
    → AreDistinct (c ∷ cs)
    → len - total ≤ v.bytes_per_cluster - off + room v.bytes_per_cluster cs
    → len - total ≤ fuel
    → Writes buf len v total c off cs (write_loop buf len v fuel total c off)

within-Ends :
    (buf : ℕ → ℕ) (len fuel : ℕ)
    → Ends buf len fuel
    → (v : Volume) (total c off : ℕ) (cs : List ℕ) → total < len
    → off < v.bytes_per_cluster
    → Linked v.fat c cs
    → IsFilled v (c ∷ cs)
    → AreDistinct (c ∷ cs)
    → len - total ≤ v.bytes_per_cluster - off + room v.bytes_per_cluster cs
    → len - total ≤ suc fuel
    → Writes buf len v total c off cs (write_loop buf len v (suc fuel) total c off)
within-Ends buf len fuel ends v total c off cs more within l f distinct fits enough =
    let n = min len (v.bytes_per_cluster - off) in
    let size = length-put (v.clusters c) off buf total n in
    inside-Writes buf len fuel v total c off cs more within f.0 distinct.0 (
      ends (store v c off buf total n) (total + n) c (off + n) cs (omega arith) (omega arith) l
        (
          ap length (store_here v c off buf total n) ∙ size ∙ f.0,
          IsFilled-store v c off buf total n cs distinct.0 f.1,
        )
        distinct (omega arith) (omega arith))

next-Ends :
    (buf : ℕ → ℕ) (len fuel : ℕ)
    → Ends buf len fuel
    → (v : Volume) (total c : ℕ) (cs : List ℕ) → total < len
    → 0 < v.bytes_per_cluster
    → Linked v.fat c cs
    → IsFilled v (c ∷ cs)
    → AreDistinct (c ∷ cs)
    → len - total ≤ room v.bytes_per_cluster cs
    → len - total ≤ suc fuel
    → Writes buf len v total c v.bytes_per_cluster cs
        (write_loop buf len v (suc fuel) total c v.bytes_per_cluster)
next-Ends buf len fuel ends v total c [] more pos l f distinct fits enough = absurd (omega arith)
next-Ends buf len fuel ends v total c (d ∷ ds) more pos l f distinct fits enough =
    rw
      (round_next buf len fuel v total c d more pos (next-link v.fat c d ds l)
        (inner-not_end d l.2))
      (Writes-next buf len v total c d ds _ distinct.0 f.0 (
        within-Ends buf len fuel ends v total d 0 ds more pos l.3 f.1 distinct.1 (omega arith)
          enough))

pub write_loop-Ends : (buf : ℕ → ℕ) (len fuel : ℕ) → Ends buf len fuel
write_loop-Ends buf len zero v total c off cs below pos l f distinct fits enough =
    stops buf len zero v total c off cs (omega arith) below f
write_loop-Ends buf len (suc fuel) v total c off cs below pos l f distinct fits enough =
    elim (Bool-cases (ltb total len)) [
      | inr done ↦ stops buf len (suc fuel) v total c off cs (ground arith) below f
      | inl more ↦ elim (Bool-cases (off == v.bytes_per_cluster)) [
        | inr within ↦
            within-Ends buf len fuel (write_loop-Ends buf len fuel) v total c off cs (ground arith)
              (ground (arith, within)) l f distinct fits enough
        | inl at_end ↦
            let past : off ≡ v.bytes_per_cluster = ground (arith, at_end) in
            rw past (
              next-Ends buf len fuel (write_loop-Ends buf len fuel) v total c cs
                (ground (arith, more)) pos l f distinct (omega arith) enough)
      ]
    ]
