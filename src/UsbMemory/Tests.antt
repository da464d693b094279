-- ===== src/UsbMemory/Tests.antt =====
-- Inputs for the theorems on kernel/usb/memory.cpp.
use mikansaos.Base.{ℕ, ◌+◌, ◌^◌, ◌≤◌, ◌<◌, ◌≡◌, refl, ltb, if◌then◌else◌, some, none, arith}
use mikansaos.UsbMemory.{Pool, memory_poll_size, alloc_mem}
use mikansaos.UsbMemory.Alloc.{Lies, alloc_mem-Lies}

-- A pool in use.
abbrev used : Pool
used = record { memory_pool = 65536; alloc_ptr = 65600 }

-- 4000 bytes at a multiple of 64 that do not cross a page.
alloc_mem-Lies_example :
    (p : ℕ) × Lies 6 12 4000 p
    × (used.alloc_ptr ≤ p)
    × (p < used.alloc_ptr + 2 ^ 6 + 2 ^ 12)
    × (alloc_mem used 4000 (2 ^ 6) (2 ^ 12) ≡ (
        if ltb (used.memory_pool + memory_poll_size) (p + 4000)
        then (none, record used { alloc_ptr = p })
        else (some p, record used { alloc_ptr = p + 4000 })))
alloc_mem-Lies_example =
    alloc_mem-Lies 6 12 64 4000 refl (omega arith) (omega arith) used (omega arith) (omega arith)
      (omega arith) (omega arith)
