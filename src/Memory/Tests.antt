-- ===== src/Memory/Tests.antt =====
-- Inputs for the theorems on kernel/memory_manager.cpp.
use mikansaos.Base.{◌≡◌, refl, List, [], ◌∷◌, arith, not}
use mikansaos.ErrorCode.{success, no_enough_memory}
use mikansaos.Memory.{
  BitmapMemoryManager, MemoryDescriptor, get_bit, free, scan, search, allocate, null_frame,
  initialize, visit, visit_all, is_available, set_memory_range,
}
use mikansaos.Memory.Allocate.{Outcome, allocate-Outcome, free-allocate}
use mikansaos.Memory.Init.{usable, initialize-usable}

-- Two lines; of the range 1 ..< 66 the frames 1, 2 and 4 are taken.
abbrev sample : BitmapMemoryManager
sample = record { alloc_map = 22 ∷ 0 ∷ []; range_start = 1; range_end = 66 }

allocate_two : (allocate sample 2).0 ≡ record { value = 5; error = success }
unfolding allocate search scan get_bit
allocate_two = refl

allocate_too_many : (allocate sample 62).0 ≡ record { value = null_frame; error = no_enough_memory }
unfolding allocate search scan get_bit
allocate_too_many = refl

allocate-Outcome_example : Outcome sample 2 (allocate sample 2)
allocate-Outcome_example = allocate-Outcome sample 2 (omega arith)

free-allocate_example :
    get_bit (free (allocate sample 2).1 (allocate sample 2).0.value 2).1 6 ≡ get_bit sample 6
unfolding allocate search scan get_bit
free-allocate_example = free-allocate sample 2 6 (omega arith) refl

-- Conventional memory, a reserved page, a gap of a page, and boot services data.
abbrev regions : List MemoryDescriptor
regions =
    record { type = 7; physical_start = 0; number_of_pages = 2 }
    ∷ record { type = 0; physical_start = 8192; number_of_pages = 1 }
    ∷ record { type = 4; physical_start = 16384; number_of_pages = 3 }
    ∷ []

initialize-usable_example : get_bit (initialize 1 regions) 3 ≡ not (usable regions 3)
unfolding initialize set_memory_range visit_all visit is_available
initialize-usable_example = initialize-usable 1 regions 3 (omega arith) (omega arith)
