-- ===== src/Fat/Writing/Content.antt =====
-- `Write` of kernel/fat.cpp through a new descriptor of a file whose chain has room for the bytes.
use mikansaos.Base.{
  ℕ, ◌+◌, ◌-◌, ◌<◌, ◌≤◌, ◌%◌, ◌^◌, ◌==◌, ◌≡◌, ◌≢◌, refl, ap, ◌∙◌, false, List, [], ◌∷◌, ◌++◌,
  Option, some, length, drop, arith, length-append,
}
use mikansaos.Fat.Table.Chains.{has, Linked}
use mikansaos.Fat.File.{Volume, DirectoryEntry, first_cluster, new_descriptor}
use mikansaos.Fat.File.Stream.{content, IsFilled}
use mikansaos.Fat.Writing.{Written, write_loop, write_start, write}
use mikansaos.Fat.Writing.Put.{put-front, bytes_of}
use mikansaos.Fat.Writing.Along.{AreDistinct, room}
use mikansaos.Fat.Writing.Walk.{write_loop-Ends}

pub length-content :
    (v : Volume) (cs : List ℕ) → IsFilled v cs → length (content v cs) ≡ room v.bytes_per_cluster cs
length-content v [] f = refl
length-content v (c ∷ cs) f =
    omega (arith, length-append (v.clusters c) (content v cs), length-content v cs f.1, f.0)

-- The outcome of `Write` into the chain `c ∷ cs`.
pub record WritesFile (v : Volume) (e : DirectoryEntry) (buf : ℕ → ℕ) (len c : ℕ) (cs : List ℕ)
    (r : Option Written) : Type 0 where
  pub w : Written
  pub returns : r ≡ some w
  pub reaches : len ≤ w.total
  pub bytes :
      content w.volume (c ∷ cs) ≡ bytes_of buf 0 w.total ++ drop w.total (content v (c ∷ cs))
  pub size : w.entry.file_size ≡ w.total % 2 ^ 32
  pub fits : w.total ≤ length (content v (c ∷ cs))
  pub same_first : first_cluster w.entry ≡ first_cluster e
  pub same_fat : w.volume.fat ≡ v.fat
  pub same_cluster_size : w.volume.bytes_per_cluster ≡ v.bytes_per_cluster
  pub filled : IsFilled w.volume (c ∷ cs)
  pub others : (j : ℕ) → has (c ∷ cs) j ≡ false → w.volume.clusters j ≡ v.clusters j

pub write-some :
    (v : Volume) (e : DirectoryEntry) (buf : ℕ → ℕ) (len : ℕ) (v' : Volume) (total c o : ℕ)
    → first_cluster e ≢ 0
    → write_loop buf len v len 0 (first_cluster e) 0 ≡ some (v', total, c, o)
    → write v e new_descriptor buf len
      ≡ some (record {
        volume = v';
        entry = record e { file_size = (0 + total) % 2 ^ 32 };
        descriptor = record new_descriptor {
          wr_off = 0 + total;
          wr_cluster = c;
          wr_cluster_off = o;
        };
        total = total;
      })
unfolding write write_start
write-some v e buf len v' total c o used h =
    let old : (first_cluster e == 0) ≡ false = ground arith in rw (write, write_start, old, h) refl

-- On a file whose chain has whole clusters, at least one byte each and none of them twice, and
-- room for `len` bytes, `Write` through a new descriptor ends; the chain then begins with the
-- first `total` bytes at the buffer, at least `len`, and goes on as before, where `total` is what
-- `Write` returns and, on 32 bits, the file's new size. The cluster table and all other clusters
-- stay as they are.
pub write-WritesFile :
    (v : Volume) (e : DirectoryEntry) (buf : ℕ → ℕ) (len : ℕ) (cs : List ℕ)
    → 0 < v.bytes_per_cluster
    → first_cluster e ≢ 0
    → Linked v.fat (first_cluster e) cs
    → IsFilled v (first_cluster e ∷ cs)
    → AreDistinct (first_cluster e ∷ cs)
    → len ≤ length (content v (first_cluster e ∷ cs))
    → WritesFile v e buf len (first_cluster e) cs (write v e new_descriptor buf len)
write-WritesFile v e buf len cs pos used linked filled distinct fits =
    let has_room = length-content v (first_cluster e ∷ cs) filled in
    let l =
      write_loop-Ends buf len len v 0 (first_cluster e) 0 cs (omega arith) pos linked filled
        distinct (omega arith) (omega arith) in
    let all : l.total' - 0 ≡ l.total' = omega arith in
    let sum : 0 + l.total' ≡ l.total' = omega arith in
    let inside : l.total' ≤ length (content v (first_cluster e ∷ cs)) = omega (arith, l.bound) in
    record {
      w = _;
      returns = write-some v e buf len _ _ _ _ used l.returns;
      reaches = l.reaches.0;
      bytes = l.bytes ∙ rw all (put-front (content v (first_cluster e ∷ cs)) buf 0 l.total' inside);
      size = ap (λ (k : ℕ). k % 2 ^ 32) sum;
      fits = inside;
      same_first = refl;
      same_fat = l.same_fat;
      same_cluster_size = l.same_size;
      filled = l.filled;
      others = l.others;
    }
