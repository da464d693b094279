-- ===== src/Memory.antt =====
-- kernel/memory_manager.cpp, kernel/memory_manager.hpp and the memory types of
-- kernel/memory_map.hpp: the page-frame allocator over a bitmap of 64-bit lines.
-- Frame numbers stay far below 2 ^ 64 (the map has 2 ^ 25 frames), so sums of them are not wrapped.
-- A write outside the map is undefined in the source; here it changes nothing.
mod Tests
pub mod Frames
pub mod Search
pub mod Allocate
pub mod Stat
pub mod Init
use Prim.Native.Nat.{bit_and, bit_or}
use mikansaos.Base.{
  ℕ, zero, suc, ◌+◌, ◌-◌, ◌*◌, ◌/◌, ◌%◌, ◌^◌, ◌==◌, ltb, leb, if◌then◌else◌, Bool, true, false, not,
  ◌||◌, List, [], ◌∷◌, Option, none, some, length, get_or, set, replicate,
}
use mikansaos.Base.Bits.{digit}
use mikansaos.ErrorCode.{Code, success, no_enough_memory, WithError}

abbrev pub bytes_per_frame : ℕ
bytes_per_frame = 4 * 1024

abbrev pub bits_per_map_line : ℕ
bits_per_map_line = 8 * 8

-- `kNullFrame`: the largest `size_t`.
abbrev pub null_frame : ℕ
null_frame = 2 ^ 64 - 1

pub record BitmapMemoryManager : Type 0 where
  pub alloc_map : List ℕ
  pub range_start : ℕ
  pub range_end : ℕ

-- The constructor, for a map of the given number of lines (`kFrameCount / kBitsPerMapLine` there).
pub init : ℕ → BitmapMemoryManager
init lines = record {
  alloc_map = replicate lines 0;
  range_start = 0;
  range_end = lines * bits_per_map_line;
}

abbrev pub line_of : BitmapMemoryManager → ℕ → ℕ
line_of m line_index = get_or m.alloc_map line_index 0

unfoldable pub get_bit : BitmapMemoryManager → ℕ → Bool
get_bit m frame =
    let line_index = frame / bits_per_map_line in
    let bit_index = frame % bits_per_map_line in
    not (bit_and (line_of m line_index) (2 ^ bit_index) == 0)

pub set_bit : BitmapMemoryManager → ℕ → Bool → BitmapMemoryManager
set_bit m frame allocated =
    let line_index = frame / bits_per_map_line in
    let bit_index = frame % bits_per_map_line in
    let line = line_of m line_index in
    record m {
      alloc_map = set m.alloc_map line_index (
          if allocated
          then bit_or line (2 ^ bit_index)
          else bit_and line (2 ^ 64 - 1 - 2 ^ bit_index));
    }

-- `for (; i < num_frames; i++) SetBit(start + i, allocated)`, on the rounds left.
pub set_bits : BitmapMemoryManager → ℕ → ℕ → ℕ → Bool → BitmapMemoryManager
set_bits m start i zero allocated = m
set_bits m start i (suc rounds) allocated =
    set_bits (set_bit m (start + i) allocated) start (i + 1) rounds allocated

pub mark_allocated : BitmapMemoryManager → ℕ → ℕ → BitmapMemoryManager
mark_allocated m start num_frames = set_bits m start 0 num_frames true

pub free : BitmapMemoryManager → ℕ → ℕ → Code × BitmapMemoryManager
free m start num_frames = (success, set_bits m start 0 num_frames false)

pub set_memory_range : BitmapMemoryManager → ℕ → ℕ → BitmapMemoryManager
set_memory_range m start end = record m { range_start = start; range_end = end }

-- How the inner loop of `Allocate` ends: past the range, at a taken frame, or with every frame free.
pub data Scan : Type 0 where
  past_end : Scan
  taken : ℕ → Scan
  all_free : Scan

unfoldable pub scan : BitmapMemoryManager → ℕ → ℕ → ℕ → Scan
scan m start i zero = all_free
scan m start i (suc rounds) =
    let rest = scan m start (i + 1) rounds in
    if leb m.range_end (start + i)
    then past_end
    else if get_bit m (start + i)
    then taken i
    else rest

-- The outer loop of `Allocate`, on fuel: each round moves the start up by at least one, so the
-- length of the range is enough.
unfoldable pub search : BitmapMemoryManager → ℕ → ℕ → ℕ → Option ℕ
search m num_frames zero start = none
search m num_frames (suc fuel) start =
    if ltb start m.range_end
    then elim (scan m start 0 num_frames) [
      | past_end ↦ none
      | taken i ↦ search m num_frames fuel (start + (i + 1))
      | all_free ↦ some start
    ]
    else none

unfoldable pub allocate : BitmapMemoryManager → ℕ → WithError ℕ × BitmapMemoryManager
allocate m num_frames = elim (search m num_frames (m.range_end - m.range_start) m.range_start) [
  | none ↦ (record { value = null_frame; error = no_enough_memory }, m)
  | some start ↦ (record { value = start; error = success }, mark_allocated m start num_frames)
]

pub record MemoryStat : Type 0 where
  pub allocated_frames : ℕ
  pub total_frames : ℕ

-- `std::bitset<64>(line).count()`: the ones among the lowest `n` digits.
pub popcount : ℕ → ℕ → ℕ
popcount line zero = 0
popcount line (suc n) = popcount line n + digit line n

pub sum_lines : BitmapMemoryManager → ℕ → ℕ → ℕ
sum_lines m i zero = 0
sum_lines m i (suc rounds) = popcount (line_of m i) bits_per_map_line + sum_lines m (i + 1) rounds

pub stat : BitmapMemoryManager → MemoryStat
stat m =
    let first = m.range_start / bits_per_map_line in
    record {
      allocated_frames = sum_lines m first (m.range_end / bits_per_map_line - first);
      total_frames = m.range_end - m.range_start;
    }

-- The fields of `MemoryDescriptor` that are read.
pub record MemoryDescriptor : Type 0 where
  pub type : ℕ
  pub physical_start : ℕ
  pub number_of_pages : ℕ

-- Boot services code, boot services data and conventional memory, by their numbers.
pub is_available : ℕ → Bool
is_available type = type == 3 || type == 4 || type == 7

abbrev pub uefi_page_size : ℕ
uefi_page_size = 4096

abbrev pub physical_end : MemoryDescriptor → ℕ
physical_end d = d.physical_start + d.number_of_pages * uefi_page_size

-- The body of the loop over the memory map: the manager, and the end of available memory so far.
pub visit : BitmapMemoryManager × ℕ → MemoryDescriptor → BitmapMemoryManager × ℕ
visit (m, available_end) d =
    if is_available d.type
    then (
      (if ltb available_end d.physical_start
          then mark_allocated m (available_end / bytes_per_frame)
              ((d.physical_start - available_end) / bytes_per_frame)
          else m),
      physical_end d,
    )
    else (
      mark_allocated m (available_end / bytes_per_frame)
          ((physical_end d - available_end) / bytes_per_frame),
      available_end,
    )

pub visit_all : BitmapMemoryManager × ℕ → List MemoryDescriptor → BitmapMemoryManager × ℕ
visit_all s [] = s
visit_all s (d ∷ ds) = visit_all (visit s d) ds

-- `InitializeMemoryManager` up to the heap, over a new manager with a map of `lines` lines.
pub initialize : ℕ → List MemoryDescriptor → BitmapMemoryManager
initialize lines memory_map =
    let (marked, available_end) = visit_all (init lines, 0) memory_map in
    set_memory_range marked 1 (available_end / bytes_per_frame)

abbrev pub heap_frames : ℕ
heap_frames = 64 * 512

-- `InitializeHeap`: the heap's first byte and its end, or the error of the allocation.
pub initialize_heap : BitmapMemoryManager → WithError (ℕ × ℕ) × BitmapMemoryManager
initialize_heap m =
    let (heap_start, m') = allocate m heap_frames in
    elim heap_start.error [
      | success ↦ (
        record {
          value = (
            heap_start.value * bytes_per_frame,
            heap_start.value * bytes_per_frame + heap_frames * bytes_per_frame,
          );
          error = success;
        },
        m',
      )
      | code ↦ (record { value = (0, 0); error = code }, m')
    ]
