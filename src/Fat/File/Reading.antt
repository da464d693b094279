-- ===== src/Fat/File/Reading.antt =====
-- `Read` of kernel/fat.cpp: the next bytes of the file.
use mikansaos.Base.{
  false, ℕ, zero, suc, ◌+◌, ◌-◌, ◌≤◌, ◌==◌, if◌then◌else◌, ◌≡◌, ◌≢◌, inl, inr, List, ◌++◌, length,
  take, drop, refl, ap, ◌∙◌, arith, length-drop, length-take, min, Option, some,
}
use mikansaos.Base.Slices.{drop-drop, take-take-drop}
use mikansaos.Fat.File.{
  Volume, DirectoryEntry, first_cluster, FileDescriptor, step_read, read_loop, read, minus_u64,
}
use mikansaos.Fat.File.Stream.{Follows, step_read-Follows}

record Loops (v : Volume) (left : ℕ) (rest : List ℕ) (r : Option (List ℕ × ℕ × ℕ)) : Type 0 where
  end_cluster : ℕ
  end_off : ℕ
  returns : r ≡ some (take left rest, end_cluster, end_off)
  follows : Follows v end_cluster end_off (drop left rest)

read_loop-suc :
    (v : Volume) (fuel cluster off left : ℕ) (bytes : List ℕ) (end_cluster end_off : ℕ)
    → (let n = min (suc left) (v.bytes_per_cluster - off) in
        let (c, o) = step_read v cluster (off + n) in
        read_loop v fuel c o (suc left - n) ≡ some (bytes, end_cluster, end_off))
    → read_loop v (suc fuel) cluster off (suc left)
      ≡ some (
        take (min (suc left) (v.bytes_per_cluster - off)) (drop off (v.clusters cluster)) ++ bytes,
        end_cluster,
        end_off,
      )
unfolding read_loop
read_loop-suc v fuel cluster off left bytes end_cluster end_off h = rw (h, read_loop) refl

-- The first `n` bytes are read, then the others.
Loops-later :
    (v : Volume) (n left total : ℕ) (rest first : List ℕ) (r r' : Option (List ℕ × ℕ × ℕ))
    → n + left ≡ total
    → first ≡ take n rest
    → ((bytes : List ℕ) (end_cluster end_off : ℕ)
        → r ≡ some (bytes, end_cluster, end_off)
        → r' ≡ some (first ++ bytes, end_cluster, end_off))
    → Loops v left (drop n rest) r
    → Loops v total rest r'
Loops-later v n left total rest first r r' sum bytes later l = record {
  end_cluster = l.end_cluster;
  end_off = l.end_off;
  returns =
      later _ _ _ l.returns
      ∙ ap (λ (bs : List ℕ). some (bs, l.end_cluster, l.end_off))
          (ap (λ (bs : List ℕ). bs ++ take left (drop n rest)) bytes
            ∙ take-take-drop n left rest
            ∙ ap (λ (k : ℕ). take k rest) sum);
  follows = rw (← sum, ← drop-drop left n rest) l.follows;
}

read_loop-Loops :
    (v : Volume) (fuel cluster off left : ℕ) (rest : List ℕ)
    → Follows v cluster off rest
    → left ≤ length rest
    → left ≤ fuel
    → Loops v left rest (read_loop v fuel cluster off left)
unfolding read_loop
read_loop-Loops v fuel cluster off zero rest at has enough = record {
  end_cluster = cluster;
  end_off = off;
  returns = refl;
  follows = at;
}
read_loop-Loops v zero cluster off (suc left) rest at has enough = absurd (omega arith)
read_loop-Loops v (suc fuel) cluster off (suc left) rest (inr past) has enough =
    absurd (ground (arith, past.2))
read_loop-Loops v (suc fuel) cluster off (suc left) rest (inl i) has enough =
    let n = min (suc left) (v.bytes_per_cluster - off) in
    let (bytes, at) = step_read-Follows v cluster off n rest i (omega arith) in
    let c = (step_read v cluster (off + n)).0 in
    let o = (step_read v cluster (off + n)).1 in
    let size = length-drop n rest in
    Loops-later v n (suc left - n) (suc left) rest _ _ _ (omega arith) bytes
      (read_loop-suc v fuel cluster off left)
      (read_loop-Loops v fuel c o (suc left - n) (drop n rest) at (omega arith)
        (omega (arith, i.within)))

-- The bytes `rest` are the next ones that the descriptor reads.
abbrev pub IsAt : Volume → DirectoryEntry → FileDescriptor → List ℕ → Type 0
IsAt v e fd rest =
    Follows v (if fd.rd_cluster == 0 then first_cluster e else fd.rd_cluster) fd.rd_cluster_off rest

pub Follows-used :
    (v : Volume) (cluster off : ℕ) (rest : List ℕ) → Follows v cluster off rest → cluster ≢ 0
Follows-used v cluster off rest (inl i) = i.used
Follows-used v cluster off rest (inr past) = λ z. ground (arith, past.0)

pub Follows-resume :
    (v : Volume) (cluster off first : ℕ) (rest : List ℕ)
    → cluster ≢ 0
    → Follows v cluster off rest
    → Follows v (if cluster == 0 then first else cluster) off rest
Follows-resume v cluster off first rest used f =
    let resumed : (cluster == 0) ≡ false = ground arith in rw resumed f

-- The outcome of `Read`: the next `m` bytes, as many as were asked for or as the file still has.
pub record Reads (v : Volume) (e : DirectoryEntry) (fd : FileDescriptor) (m : ℕ) (rest : List ℕ)
    (r : Option (List ℕ × FileDescriptor)) : Type 0 where
  pub fd' : FileDescriptor
  pub returns : r ≡ some (take m rest, fd')
  pub moves : fd'.rd_off ≡ fd.rd_off + m
  pub later : IsAt v e fd' (drop m rest)
  pub same_write :
      (fd'.wr_off ≡ fd.wr_off)
      × (fd'.wr_cluster ≡ fd.wr_cluster)
      × (fd'.wr_cluster_off ≡ fd.wr_cluster_off)

read-some :
    (v : Volume) (e : DirectoryEntry) (fd : FileDescriptor) (len m : ℕ) (bytes : List ℕ) (c o : ℕ)
    → min len (minus_u64 e.file_size fd.rd_off) ≡ m
    → read_loop v m
        (if fd.rd_cluster == 0 then first_cluster e else fd.rd_cluster)
        fd.rd_cluster_off
        m
      ≡ some (bytes, c, o)
    → read v e fd len
      ≡ some (
        bytes,
        record fd { rd_off = fd.rd_off + length bytes; rd_cluster = c; rd_cluster_off = o },
      )
unfolding read
read-some v e fd len m bytes c o size h = rw (size, read, h) refl

pub read_size-Reads :
    (v : Volume) (e : DirectoryEntry) (fd : FileDescriptor) (len m : ℕ) (rest : List ℕ)
    → IsAt v e fd rest
    → min len (minus_u64 e.file_size fd.rd_off) ≡ m
    → m ≤ length rest
    → Reads v e fd m rest (read v e fd len)
read_size-Reads v e fd len m rest at size has =
    let cluster = if fd.rd_cluster == 0 then first_cluster e else fd.rd_cluster in
    let l = read_loop-Loops v m cluster fd.rd_cluster_off m rest at has (omega arith) in
    let used = Follows-used v l.end_cluster l.end_off _ l.follows in
    record {
      fd' = record fd {
        rd_off = fd.rd_off + length (take m rest);
        rd_cluster = l.end_cluster;
        rd_cluster_off = l.end_off;
      };
      returns = read-some v e fd len m _ _ _ size l.returns;
      moves = omega (arith, length-take m rest);
      later = Follows-resume v l.end_cluster l.end_off (first_cluster e) _ used l.follows;
      same_write = (refl, refl, refl);
    }

-- Where the file's chain holds the bytes that its size promises, `Read` ends and puts the next bytes
-- of the file in the buffer, as many as were asked for or as there are up to the file's size, and
-- the descriptor goes on behind them; what it writes next does not change.
pub read-Reads :
    (v : Volume) (e : DirectoryEntry) (fd : FileDescriptor) (len : ℕ) (rest : List ℕ)
    → IsAt v e fd rest
    → fd.rd_off ≤ e.file_size
    → e.file_size - fd.rd_off ≤ length rest
    → Reads v e fd (min len (e.file_size - fd.rd_off)) rest (read v e fd len)
read-Reads v e fd len rest at inside has =
    read_size-Reads v e fd len (min len (e.file_size - fd.rd_off)) rest at (ground arith)
      (omega arith)
