-- ===== src/Fat/File.antt =====
-- Files of kernel/fat.cpp: `fat32::FileDescriptor`. A volume is the cluster table and the bytes of the
-- clusters; the directory entry that a descriptor refers to is passed along, since several
-- descriptors can share it. `none` stands for a loop that has used up its fuel.
pub mod Stream
pub mod Reading
pub mod Turns
pub mod Loading
mod Tests
use Prim.Native.Nat.{bit_or}
use mikansaos.Base.{
  ℕ, zero, suc, ◌+◌, ◌-◌, ◌*◌, ◌/◌, ◌%◌, ◌^◌, ◌==◌, ltb, leb, if◌then◌else◌, List, [], ◌∷◌, ◌++◌,
  Option, none, some, length, take, drop, min,
}
use mikansaos.Fat.Table.{end_of_cluster_chain, next_cluster, extend_cluster, allocate_cluster_chain}

-- `clusters c` is the memory at `GetSectorByCluster(c)`, whether or not the volume has that cluster.
pub record Volume : Type 0 where
  pub fat : List ℕ
  pub bytes_per_cluster : ℕ
  pub clusters : ℕ → List ℕ

-- The fields of `DirectoryEntry` that a descriptor uses.
pub record DirectoryEntry : Type 0 where
  pub first_cluster_low : ℕ
  pub first_cluster_high : ℕ
  pub file_size : ℕ

abbrev pub first_cluster : DirectoryEntry → ℕ
first_cluster e = bit_or e.first_cluster_low (e.first_cluster_high * 2 ^ 16)

pub record FileDescriptor : Type 0 where
  pub rd_off : ℕ
  pub rd_cluster : ℕ
  pub rd_cluster_off : ℕ
  pub wr_off : ℕ
  pub wr_cluster : ℕ
  pub wr_cluster_off : ℕ

-- The constructor.
abbrev pub new_descriptor : FileDescriptor
new_descriptor = record {
  rd_off = 0;
  rd_cluster = 0;
  rd_cluster_off = 0;
  wr_off = 0;
  wr_cluster = 0;
  wr_cluster_off = 0;
}

-- `a - b` on 64 bits.
abbrev pub minus_u64 : ℕ → ℕ → ℕ
minus_u64 a b = if leb b a then a - b else 2 ^ 64 + a - b

-- The end of a round of the loop of `Read`: the position after the bytes it has read.
abbrev pub step_read : Volume → ℕ → ℕ → ℕ × ℕ
step_read v cluster off =
    if off == v.bytes_per_cluster then (next_cluster v.fat cluster, 0) else (cluster, off)

-- The loop of `Read` with `left` bytes to go (`len - total`): the bytes, and the position after
-- them. A round reads at least a byte where the position is inside the cluster, so that `left` is
-- enough fuel.
pub read_loop : Volume → ℕ → ℕ → ℕ → ℕ → Option (List ℕ × ℕ × ℕ)
read_loop v fuel cluster off zero = some ([], cluster, off)
read_loop v zero cluster off (suc left) = none
read_loop v (suc fuel) cluster off (suc left) =
    let n = min (suc left) (v.bytes_per_cluster - off) in
    let (cluster', off') = step_read v cluster (off + n) in
    elim (read_loop v fuel cluster' off' (suc left - n)) [
      | none ↦ none
      | some (bytes, end_cluster, end_off) ↦
          some (take n (drop off (v.clusters cluster)) ++ bytes, end_cluster, end_off)
    ]

-- `Read`: the bytes that it puts in the buffer, whose number it returns, and the descriptor.
pub read : Volume → DirectoryEntry → FileDescriptor → ℕ → Option (List ℕ × FileDescriptor)
read v e fd len =
    let cluster = if fd.rd_cluster == 0 then first_cluster e else fd.rd_cluster in
    let len' = min len (minus_u64 e.file_size fd.rd_off) in
    elim (read_loop v len' cluster fd.rd_cluster_off len') [
      | none ↦ none
      | some (bytes, cluster', off') ↦ some (
        bytes,
        record fd {
          rd_off = fd.rd_off + length bytes;
          rd_cluster = cluster';
          rd_cluster_off = off';
        },
      )
    ]

-- The loop of `Load` to the cluster of the offset, on fuel: a round takes off a cluster's bytes.
pub seek : Volume → ℕ → ℕ → ℕ → Option (ℕ × ℕ)
seek v zero cluster offset = none
seek v (suc fuel) cluster offset =
    let rest = seek v fuel (next_cluster v.fat cluster) (offset - v.bytes_per_cluster) in
    if leb v.bytes_per_cluster offset then rest else some (cluster, offset)

pub load : Volume → DirectoryEntry → ℕ → ℕ → Option (List ℕ)
load v e len offset = elim (seek v (offset + 1) (first_cluster e) offset) [
  | none ↦ none
  | some (cluster, off) ↦
      (let fd = record new_descriptor {
        rd_off = offset;
        rd_cluster = cluster;
        rd_cluster_off = off;
      } in
        elim (read v e fd len) [ none ↦ none | some (bytes, _) ↦ some bytes ])
]
