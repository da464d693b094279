-- ===== src/Paging/Tests.antt =====
-- Inputs for the theorems on kernel/paging.cpp.
use mikansaos.Base.{ℕ, ◌+◌, ◌==◌, true, false, [], ◌∷◌, if◌then◌else◌}
use mikansaos.Paging.{Paging, PageMapEntry, no_entry}

abbrev entry_to : ℕ → PageMapEntry
entry_to f = record { present = true; writable = false; user = true; flags = 0; addr = f }

-- The frames 1 to 5 are in use: the tables 1 to 4 on the way to the page in frame 5.
abbrev shared : Paging
shared = record {
  manager = record { alloc_map = 62 ∷ []; range_start = 1; range_end = 64 };
  cr3 = 1;
  tables = λ t i. if i == 0 then entry_to (t + 1) else no_entry;
  contents = λ f. f ∷ [];
}

-- Only the table of level 4 is there, and it is empty.
abbrev bare : Paging
bare = record {
  manager = record { alloc_map = 2 ∷ []; range_start = 1; range_end = 64 };
  cr3 = 1;
  tables = λ t i. no_entry;
  contents = λ f. [];
}
