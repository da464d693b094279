-- ===== src/Fat/Writing.antt =====
-- `fat32::FileDescriptor::Write` of kernel/fat.cpp. The buffer is the memory from `buf` on, a function
-- from positions to bytes, since the code can read past its end. `none` stands for a loop that has
-- used up its fuel, or a search for free clusters that leaves the table.
pub mod Put
pub mod Along
pub mod Walk
pub mod Rounds
pub mod Content
pub mod ReadBack
mod Tests
use mikansaos.Base.{
  ℕ, zero, suc, ◌+◌, ◌-◌, ◌*◌, ◌/◌, ◌%◌, ◌^◌, ◌==◌, ltb, if◌then◌else◌, List, [], ◌∷◌, Option, none,
  some, set, min,
}
use mikansaos.Base.Maps.{update}
use mikansaos.Fat.Table.{end_of_cluster_chain, next_cluster, extend_cluster, allocate_cluster_chain}
use mikansaos.Fat.File.{Volume, DirectoryEntry, FileDescriptor, first_cluster}

-- `num_cluster(bytes)`; the sum does not reach 2 ^ 64.
abbrev pub num_cluster : Volume → ℕ → ℕ
num_cluster v bytes = (bytes + v.bytes_per_cluster - 1) / v.bytes_per_cluster

-- `memcpy(&sec[off], &buf8[start], n)`.
pub put : List ℕ → ℕ → (ℕ → ℕ) → ℕ → ℕ → List ℕ
put sec off buf start zero = sec
put sec off buf start (suc n) = put (set sec off (buf start)) (off + 1) buf (start + 1) n

abbrev pub store : Volume → ℕ → ℕ → (ℕ → ℕ) → ℕ → ℕ → Volume
store v cluster off buf start n = record v {
  clusters = update v.clusters cluster (put (v.clusters cluster) off buf start n);
}

-- The beginning of a round: at the end of a cluster, on to the next one, or, where there is none, to
-- the last of those that are appended for the `left` bytes to go.
pub move_on : Volume → ℕ → ℕ → ℕ → Option (Volume × ℕ × ℕ)
move_on v cluster off left =
    let next = next_cluster v.fat cluster in
    if off == v.bytes_per_cluster
    then if next == end_of_cluster_chain
      then elim (extend_cluster v.fat cluster (num_cluster v left)) [
        | none ↦ none
        | some (fat', last) ↦ some (record v { fat = fat' }, last, 0)
      ]
      else some (v, next, 0)
    else some (v, cluster, off)

-- The loop of `Write` after `total` bytes. A round writes at least a byte, so that `len` is enough
-- fuel. The number of bytes of a round is `min(len, ...)`, whatever is left to write.
pub write_loop : (ℕ → ℕ) → ℕ → Volume → ℕ → ℕ → ℕ → ℕ → Option (Volume × ℕ × ℕ × ℕ)
write_loop buf len v zero total cluster off =
    if ltb total len then none else some (v, total, cluster, off)
write_loop buf len v (suc fuel) total cluster off =
    if ltb total len
    then elim (move_on v cluster off (len - total)) [
      | none ↦ none
      | some (v', cluster', off') ↦
          (let n = min len (v'.bytes_per_cluster - off') in
            write_loop buf len (store v' cluster' off' buf total n) fuel (total + n) cluster'
              (off' + n))
    ]
    else some (v, total, cluster, off)

-- The cluster where `Write` begins: that of the descriptor, the file's first one, or a new chain,
-- which the directory entry then refers to.
pub write_start :
    Volume → DirectoryEntry → FileDescriptor → ℕ → Option (Volume × DirectoryEntry × ℕ)
write_start v e fd len =
    if fd.wr_cluster == 0
    then if first_cluster e == 0
      then elim (allocate_cluster_chain v.fat (num_cluster v len)) [
        | none ↦ none
        | some (fat', cluster) ↦ some (
          record v { fat = fat' },
          record e {
            first_cluster_low = cluster % 2 ^ 16;
            first_cluster_high = cluster / 2 ^ 16 % 2 ^ 16;
          },
          cluster,
        )
      ]
      else some (v, e, first_cluster e)
    else some (v, e, fd.wr_cluster)

pub record Written : Type 0 where
  pub volume : Volume
  pub entry : DirectoryEntry
  pub descriptor : FileDescriptor
  pub total : ℕ

pub write : Volume → DirectoryEntry → FileDescriptor → (ℕ → ℕ) → ℕ → Option Written
write v e fd buf len = elim (write_start v e fd len) [
  | none ↦ none
  | some (v1, e1, cluster1) ↦ elim (write_loop buf len v1 len 0 cluster1 fd.wr_cluster_off) [
    | none ↦ none
    | some (v2, total, cluster2, off2) ↦ some (record {
      volume = v2;
      entry = record e1 { file_size = (fd.wr_off + total) % 2 ^ 32 };
      descriptor = record fd {
        wr_off = fd.wr_off + total;
        wr_cluster = cluster2;
        wr_cluster_off = off2;
      };
      total = total;
    })
  ]
]
