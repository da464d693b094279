-- ===== src/Ring.antt =====
-- kernel/usb/xhci/ring.cpp and kernel/usb/xhci/ring.hpp: the producer ring for commands and transfers.
-- The memory of the ring is a function from places to entries of four 32-bit words; `AllocArray`
-- clears it.
pub mod Laid
pub mod Slice
pub mod Consumer
mod Tests
use Prim.Native.Nat.{bit_and, bit_or}
use mikansaos.Base.{
  ℕ, zero, suc, ◌+◌, ◌-◌, ◌*◌, ◌/◌, ◌%◌, ◌^◌, ◌==◌, if◌then◌else◌, Bool, Option, none, some,
}
use mikansaos.Base.Maps.{update}
use mikansaos.ErrorCode.{Code, success, no_enough_memory}

pub record Trb : Type 0 where
  pub word0 : ℕ
  pub word1 : ℕ
  pub word2 : ℕ
  pub word3 : ℕ

pub record Ring : Type 0 where
  pub buf : ℕ → Trb
  pub buf_size : ℕ
  pub cycle_bit : ℕ
  pub write_index : ℕ

abbrev pub zero_trb : Trb
zero_trb = record { word0 = 0; word1 = 0; word2 = 0; word3 = 0 }

-- `Initialize`, given whether `AllocArray` has found memory.
pub init : Ring → ℕ → Bool → Code × Ring
init r buf_size found =
    let started : Ring = record {
      buf = λ _. zero_trb;
      buf_size = buf_size;
      cycle_bit = 1;
      write_index = 0;
    } in
    if found then (success, started) else (no_enough_memory, started)

-- `(word & 0xfffffffeu) | _cycle_bit`, in the entry's last word.
pub stamp : Trb → ℕ → Trb
stamp t cycle_bit = record t { word3 = bit_or (bit_and t.word3 0xfffffffe) cycle_bit }

-- `LinkTRB{_buf}` with its toggle bit, for a ring at the address, which is a multiple of 16.
pub link_trb : ℕ → Trb
link_trb address = record {
  word0 = address % 2 ^ 32;
  word1 = address / 2 ^ 32;
  word2 = 0;
  word3 = 6 * 2 ^ 10 + 2;
}

-- `_cycle_bit ^ 0x1u`, of a bit.
abbrev pub flip : ℕ → ℕ
flip cycle_bit = 1 - cycle_bit

-- `Push`, with the address of the ring; the entry is at the place that was the write index.
pub push : ℕ → Ring → Trb → Ring
push address r trb =
    let written = update r.buf r.write_index (stamp trb r.cycle_bit) in
    let next = r.write_index + 1 in
    if next == r.buf_size - 1
    then record r {
      buf = update written next (stamp (link_trb address) r.cycle_bit);
      write_index = 0;
      cycle_bit = flip r.cycle_bit;
    }
    else record r { buf = written; write_index = next }
