-- ===== src/Fat/File/Loading.antt =====
-- `Load` of kernel/fat.cpp: bytes from an offset on.
use mikansaos.Base.{
  false, ℕ, zero, suc, ◌+◌, ◌-◌, ◌<◌, ◌≤◌, ◌^◌, leb, ◌≡◌, ◌≢◌, inl, inr, List, ◌∷◌, length, take,
  drop, refl, ap, ◌∙◌, arith, length-append, length-drop, min, Option, some, Bool-cases,
}
use mikansaos.Fat.Table.Chains.{Linked}
use mikansaos.Fat.File.{
  Volume, DirectoryEntry, first_cluster, FileDescriptor, new_descriptor, seek, load, read,
  minus_u64,
}
use mikansaos.Fat.File.Stream.{content, IsFilled, Follows}
use mikansaos.Fat.Table.{next_cluster}
use mikansaos.Base.Slices.{drop-append_past}
use mikansaos.Fat.File.Stream.{Follows-next}
use mikansaos.Fat.File.Reading.{read_size-Reads, Follows-used, Follows-resume}

record Seeks (v : Volume) (offset : ℕ) (rest : List ℕ) (r : Option (ℕ × ℕ)) : Type 0 where
  cluster : ℕ
  off : ℕ
  found : r ≡ some (cluster, off)
  follows : Follows v cluster off (drop offset rest)

seek-Seeks :
    (v : Volume) (fuel cluster offset : ℕ) (rest : List ℕ)
    → 0 < v.bytes_per_cluster
    → Follows v cluster 0 rest
    → offset ≤ length rest
    → offset < fuel
    → Seeks v offset rest (seek v fuel cluster offset)
unfolding seek
seek-Seeks v zero cluster offset rest pos f has enough = absurd (omega arith)
seek-Seeks v (suc fuel) cluster offset rest pos (inr past) has enough =
    let small : leb v.bytes_per_cluster offset ≡ false = ground (arith, past.2) in
    let start : offset ≡ 0 = ground (arith, past.2) in
    rw small (record {
      cluster = cluster;
      off = offset;
      found = refl;
      follows = rw start (inr (past.0, refl, past.2));
    })
seek-Seeks v (suc fuel) cluster offset rest pos (inl i) has enough =
    elim (Bool-cases (leb v.bytes_per_cluster offset)) [
      | inl more ↦
          let later = Follows-next v cluster i.cs pos i.linked i.filled in
          let past =
            drop-append_past offset (v.clusters cluster) (content v i.cs)
              (ground (arith, i.filled.0, more)) in
          let shift : drop offset rest ≡ drop (offset - v.bytes_per_cluster) (content v i.cs) =
            ap (drop offset) i.rest_eq
            ∙ past
            ∙ ap (λ (k : ℕ). drop (offset - k) (content v i.cs)) i.filled.0 in
          let size = ap length i.rest_eq ∙ length-append (v.clusters cluster) (content v i.cs) in
          let s =
            seek-Seeks v fuel (next_cluster v.fat cluster) (offset - v.bytes_per_cluster)
              (content v i.cs) pos later (omega (arith, size, i.filled.0)) (ground (arith, more)) in
          rw more (record {
            cluster = s.cluster;
            off = s.off;
            found = s.found;
            follows = rw shift s.follows;
          })
      | inr here ↦ rw here (record {
        cluster = cluster;
        off = offset;
        found = refl;
        follows = inl (record {
          cs = i.cs;
          used = i.used;
          linked = i.linked;
          filled = i.filled;
          within = ground (arith, here);
          rest_eq = ap (drop offset) i.rest_eq;
        });
      })
    ]

load-some :
    (v : Volume) (e : DirectoryEntry) (len offset cluster off : ℕ) (bytes : List ℕ)
    (fd : FileDescriptor)
    → seek v (offset + 1) (first_cluster e) offset ≡ some (cluster, off)
    → read v e
        (record new_descriptor { rd_off = offset; rd_cluster = cluster; rd_cluster_off = off })
        len
      ≡ some (bytes, fd)
    → load v e len offset ≡ some bytes
unfolding load
load-some v e len offset cluster off bytes fd h h' = rw (h, load, h') refl

module _ (v : Volume) (e : DirectoryEntry) (cs : List ℕ) (pos : 0 < v.bytes_per_cluster)
    (used : first_cluster e ≢ 0) (linked : Linked v.fat (first_cluster e) cs)
    (filled : IsFilled v (first_cluster e ∷ cs)) where
  load-size :
      (len offset m : ℕ)
      → offset ≤ length (content v (first_cluster e ∷ cs))
      → min len (minus_u64 e.file_size offset) ≡ m
      → m ≤ length (content v (first_cluster e ∷ cs)) - offset
      → load v e len offset ≡ some (take m (drop offset (content v (first_cluster e ∷ cs))))
  load-size len offset m inside size has =
      let bytes = content v (first_cluster e ∷ cs) in
      let start : Follows v (first_cluster e) 0 bytes = inl (record {
        cs = cs;
        used = used;
        linked = linked;
        filled = filled;
        within = pos;
        rest_eq = refl;
      }) in
      let s =
        seek-Seeks v (offset + 1) (first_cluster e) offset bytes pos start inside (omega arith) in
      let busy = Follows-used v s.cluster s.off _ s.follows in
      let r =
        read_size-Reads v e
          (record new_descriptor {
            rd_off = offset;
            rd_cluster = s.cluster;
            rd_cluster_off = s.off;
          })
          len m (drop offset bytes)
          (Follows-resume v s.cluster s.off (first_cluster e) _ busy s.follows) size
          (omega (arith, length-drop offset bytes)) in
      load-some v e len offset s.cluster s.off _ r.fd' s.found r.returns

-- Where the file's chain `first_cluster e ∷ cs` holds at least the bytes that its size promises,
-- `Load` at an offset up to the size gives the bytes of the chain from that offset on, as many as
-- were asked for or as there are up to the size.
pub load-content :
    (v : Volume) (e : DirectoryEntry) (cs : List ℕ) (len offset : ℕ)
    → 0 < v.bytes_per_cluster
    → first_cluster e ≢ 0
    → Linked v.fat (first_cluster e) cs
    → IsFilled v (first_cluster e ∷ cs)
    → e.file_size ≤ length (content v (first_cluster e ∷ cs))
    → offset ≤ e.file_size
    → load v e len offset
      ≡ some
          (take (min len (e.file_size - offset)) (drop offset (content v (first_cluster e ∷ cs))))
load-content v e cs len offset pos used linked filled has inside =
    load-size v e cs pos used linked filled len offset (min len (e.file_size - offset))
      (omega arith) (ground arith) (omega arith)

-- At an offset past the file's size the difference of the two wraps: where the chain, of whole
-- clusters, has the bytes and no other number wraps, `Load` gives all `len` of them, although they
-- are none of the file's.
pub load-past_size :
    (v : Volume) (e : DirectoryEntry) (cs : List ℕ) (len offset : ℕ)
    → 0 < v.bytes_per_cluster
    → first_cluster e ≢ 0
    → Linked v.fat (first_cluster e) cs
    → IsFilled v (first_cluster e ∷ cs)
    → e.file_size < offset
    → offset + len ≤ length (content v (first_cluster e ∷ cs))
    → offset + len < 2 ^ 64
    → load v e len offset ≡ some (take len (drop offset (content v (first_cluster e ∷ cs))))
load-past_size v e cs len offset pos used linked filled past has bound =
    load-size v e cs pos used linked filled len offset len (omega arith) (ground arith)
      (omega arith)
