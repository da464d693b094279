-- ===== src/UsbMemory.antt =====
-- kernel/usb/memory.cpp and memory.hpp: the memory of the USB driver, which is never given back. An
-- address is a number of 64 bits; `memory_pool` is the address of the pool.
pub mod Aligned
pub mod Alloc
mod Tests
use Prim.Native.Nat.{bit_and}
use mikansaos.Base.{ℕ, ◌+◌, ◌-◌, ◌*◌, ◌^◌, ◌%◌, ltb, if◌then◌else◌, Option, none, some}

-- `kMemoryPollSize`.
abbrev pub memory_poll_size : ℕ
memory_poll_size = 4096 * 32

pub record Pool : Type 0 where
  pub memory_pool : ℕ
  pub alloc_ptr : ℕ

abbrev pub word : ℕ
word = 2 ^ 64

-- `Align`, with `~` on 64 bits.
pub align : ℕ → ℕ → ℕ
align value alignment = bit_and ((value + alignment - 1) % word) (word - 1 - (alignment - 1))

-- The two moves of `alloc_ptr` before an allocation.
abbrev pub to_alignment : ℕ → ℕ → ℕ
to_alignment alloc_ptr alignment = if ltb 0 alignment then align alloc_ptr alignment else alloc_ptr

abbrev pub to_boundary : ℕ → ℕ → ℕ → ℕ
to_boundary alloc_ptr size boundary =
    if ltb 0 boundary
    then (let next_boundary = align alloc_ptr boundary in
        if ltb next_boundary ((alloc_ptr + size) % word) then next_boundary else alloc_ptr)
    else alloc_ptr

-- `AllocMem`: the address, or none where the pool is used up, in which case `alloc_ptr` stays moved.
pub alloc_mem : Pool → ℕ → ℕ → ℕ → Option ℕ × Pool
alloc_mem m size alignment boundary =
    let p = to_boundary (to_alignment m.alloc_ptr alignment) size boundary in
    if ltb (m.memory_pool + memory_poll_size) ((p + size) % word)
    then (none, record m { alloc_ptr = p })
    else (some p, record m { alloc_ptr = (p + size) % word })
