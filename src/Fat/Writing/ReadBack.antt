-- ===== src/Fat/Writing/ReadBack.antt =====
-- `Write` of kernel/fat.cpp and then `Read` of the same file.
use mikansaos.Base.{
  ℕ, zero, suc, ◌+◌, ◌-◌, ◌<◌, ◌≤◌, ◌^◌, ◌≡◌, ◌≢◌, inl, refl, ap, ◌∙◌, List, ◌∷◌, some, length,
  take, min, arith,
}
use mikansaos.Base.Slices.{take-append_within}
use mikansaos.Fat.Table.Chains.{Linked}
use mikansaos.Fat.File.{Volume, DirectoryEntry, FileDescriptor, first_cluster, new_descriptor, read}
use mikansaos.Fat.File.Stream.{content, IsFilled, Inside}
use mikansaos.Fat.File.Reading.{IsAt, read-Reads}
use mikansaos.Fat.Writing.{Written, write}
use mikansaos.Fat.Writing.Put.{bytes_of}
use mikansaos.Fat.Writing.Along.{AreDistinct, room}
use mikansaos.Fat.Writing.Content.{length-content, write-WritesFile}

length-bytes_of : (buf : ℕ → ℕ) (start n : ℕ) → length (bytes_of buf start n) ≡ n
length-bytes_of buf start zero = refl
length-bytes_of buf start (suc n) = ap suc (length-bytes_of buf (start + 1) n)

take-bytes_of :
    (buf : ℕ → ℕ) (start n m : ℕ) → n ≤ m → take n (bytes_of buf start m) ≡ bytes_of buf start n
take-bytes_of buf start zero m h = refl
take-bytes_of buf start (suc n) zero h = absurd (omega arith)
take-bytes_of buf start (suc n) (suc m) h =
    ap (buf start ∷◌) (take-bytes_of buf (start + 1) n m (omega arith))

-- On a file whose chain has whole clusters, at least one byte each and none of them twice, and
-- room for `len` bytes, and less than 2 ^ 32 bytes in all, `Write` of `len` bytes through a new
-- descriptor ends, and a `Read` of `len` bytes through another new descriptor then gives the same
-- bytes.
pub read-write :
    (v : Volume) (e : DirectoryEntry) (buf : ℕ → ℕ) (len : ℕ) (cs : List ℕ)
    → 0 < v.bytes_per_cluster
    → first_cluster e ≢ 0
    → Linked v.fat (first_cluster e) cs
    → IsFilled v (first_cluster e ∷ cs)
    → AreDistinct (first_cluster e ∷ cs)
    → len ≤ length (content v (first_cluster e ∷ cs))
    → length (content v (first_cluster e ∷ cs)) < 2 ^ 32
    → (w : Written) × (fd : FileDescriptor) × (write v e new_descriptor buf len ≡ some w)
      × (read w.volume w.entry new_descriptor len ≡ some (bytes_of buf 0 len, fd))
read-write v e buf len cs pos used linked filled distinct fits small =
    let f = write-WritesFile v e buf len cs pos used linked filled distinct fits in
    let rest = content f.w.volume (first_cluster e ∷ cs) in
    let before = length-content v (first_cluster e ∷ cs) filled in
    let after = length-content f.w.volume (first_cluster e ∷ cs) f.filled in
    let same_room = ap (λ (k : ℕ). room k (first_cluster e ∷ cs)) f.same_cluster_size in
    let size : f.w.entry.file_size ≡ f.w.total = omega (arith, f.size, f.fits) in
    let start : Inside f.w.volume (first_cluster e) 0 rest = record {
      cs = cs;
      used = used;
      linked = rw f.same_fat linked;
      filled = f.filled;
      within = omega (arith, f.same_cluster_size);
      rest_eq = refl;
    } in
    let at : IsAt f.w.volume f.w.entry new_descriptor rest = rw f.same_first (inl start) in
    let r =
      read-Reads f.w.volume f.w.entry new_descriptor len rest at (omega arith)
        (omega (arith, size, f.fits, before, after, same_room)) in
    let asked : min len (f.w.entry.file_size - 0) ≡ len = omega (arith, size, f.reaches) in
    let enough = length-bytes_of buf 0 f.w.total in
    let bytes : take len rest ≡ bytes_of buf 0 len =
      ap (take len) f.bytes
      ∙ take-append_within len (bytes_of buf 0 f.w.total) _ (omega (arith, enough, f.reaches))
      ∙ take-bytes_of buf 0 len f.w.total f.reaches in
    (
      f.w,
      r.fd',
      f.returns,
      r.returns
          ∙ ap (λ (k : ℕ). some (take k rest, r.fd')) asked
          ∙ ap (λ (bs : List ℕ). some (bs, r.fd')) bytes,
    )
