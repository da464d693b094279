-- ===== src/Paging.antt =====
-- kernel/paging.cpp and paging.hpp: linear addresses and the tables of pages. A pointer to a table or
-- to a page is the number of its frame, as `PageMapEntry` keeps it; CR3 is the frame of the table of
-- level 4. The flushing of the TLB is left out.
pub mod Address
pub mod CopyOnWrite
pub mod Sound
pub mod Frame
pub mod Setup
pub mod OnePage
mod Tests
use mikansaos.Base.{
  ℕ, zero, suc, ◌+◌, ◌-◌, ◌*◌, ◌/◌, ◌%◌, ◌^◌, Bool, true, false, not, ◌&&◌, ◌||◌, ◌==◌, ltb, leb,
  if◌then◌else◌, List, [], ◌∷◌, replicate, Option, none, some,
}
use mikansaos.Base.Maps.{update}
use mikansaos.ErrorCode.{Code, success, already_allocated, index_out_of_range, failed}
use mikansaos.Memory.{BitmapMemoryManager, allocate, free}

-- The lowest bit and the width of a part: the offset, and the index at each level.
abbrev pub shift_of : ℕ → ℕ
shift_of zero = 0
shift_of (suc k) = 12 + 9 * k

abbrev pub width_of : ℕ → ℕ
width_of zero = 12
width_of (suc k) = 9

-- `Part` and `SetPart` of `LinearAddress4Level`, on an address of 64 bits.
unfoldable pub part : ℕ → ℕ → ℕ
part addr level = if leb level 4 then addr / 2 ^ shift_of level % 2 ^ width_of level else 0

unfoldable pub set_part : ℕ → ℕ → ℕ → ℕ
set_part addr level value =
    if leb level 4
    then addr
      - part addr level * 2 ^ shift_of level
      + value % 2 ^ width_of level * 2 ^ shift_of level
    else addr

-- `PageMapEntry`; `flags` are the bits that this code does not use, `addr` is the frame.
pub record PageMapEntry : Type 0 where
  pub present : Bool
  pub writable : Bool
  pub user : Bool
  pub flags : ℕ
  pub addr : ℕ

-- `data = 0`.
abbrev pub no_entry : PageMapEntry
no_entry = record { present = false; writable = false; user = false; flags = 0; addr = 0 }

-- The frames as tables and as bytes, and who owns them.
pub record Paging : Type 0 where
  pub manager : BitmapMemoryManager
  pub cr3 : ℕ
  pub tables : ℕ → ℕ → PageMapEntry
  pub contents : ℕ → List ℕ

abbrev pub set_entry : Paging → ℕ → ℕ → PageMapEntry → Paging
set_entry p table i e = record p { tables = update p.tables table (update (p.tables table) i e) }

-- `NewPageMap`: a frame that is cleared.
pub new_page_map : Paging → Code × ℕ × Paging
new_page_map p =
    let (frame, m) = allocate p.manager 1 in
    if failed frame.error then (frame.error, 0, record p { manager = m }) else (
      success,
      frame.value,
      record p {
        manager = m;
        tables = update p.tables frame.value (λ _. no_entry);
        contents = update p.contents frame.value (replicate 4096 0);
      },
    )

-- `FreePageMap`, and how `CleanPageMap` gives a frame back.
pub free_page_map : Paging → ℕ → Code × Paging
free_page_map p table = let (err, m) = free p.manager table 1 in (err, record p { manager = m })

-- `SetNewPageMapIfNotPresent`, for the entry of a table.
pub set_new_page_map_if_not_present : Paging → ℕ → ℕ → Code × ℕ × Paging
set_new_page_map_if_not_present p table i =
    let e = p.tables table i in
    let (err, child_map, p1) = new_page_map p in
    if e.present then (success, e.addr, p) else if failed err then (err, 0, p1) else (
      success,
      child_map,
      set_entry p1 table i (record (p1.tables table i) { present = true; addr = child_map }),
    )

-- The parts below a level, set to 0.
pub clear_parts : ℕ → ℕ → ℕ
clear_parts addr zero = addr
clear_parts addr (suc level) = clear_parts (set_part addr (suc level) 0) level

-- The end of a round of `SetupPageMap` at a level above 0: the first address of the next entry.
pub next_address : ℕ → ℕ → ℕ
next_address addr zero = addr
next_address addr (suc k) = clear_parts (set_part addr (suc k) (part addr (suc k) + 1)) k

-- The loop of `SetupPageMap` at a level, where `below` does the work behind an entry: what is left to
-- map. An index rises in every round, so that 512 rounds are enough.
pub setup_loop :
    (level : ℕ) (writable : Bool)
    → (Paging → ℕ → ℕ → ℕ → Option (Code × ℕ × Paging))
    → ℕ
    → Paging
    → ℕ
    → ℕ
    → ℕ
    → Option (Code × ℕ × Paging)
setup_loop level writable below zero p page_map addr n = none
setup_loop level writable below (suc rounds) p page_map addr n =
    let i = part addr level in
    let (err, child_map, p1) = set_new_page_map_if_not_present p page_map i in
    let p2 =
      set_entry p1 page_map i
        (record (p1.tables page_map i) { user = true; writable = writable }) in
    if n == 0
    then some (success, n, p)
    else if failed err
    then some (err, n, p1)
    else elim (below p2 child_map addr n) [
      | none ↦ none
      | some (err2, remain, p3) ↦
          if failed err2
          then some (err2, n, p3)
          else if i == 511
          then some (success, remain, p3)
          else setup_loop level writable below rounds p3 page_map (next_address addr level) remain
    ]

-- `SetupPageMap` at level `k + 1`.
pub setup_page_map : ℕ → Bool → Paging → ℕ → ℕ → ℕ → Option (Code × ℕ × Paging)
setup_page_map zero writable p page_map addr n =
    setup_loop 1 writable (λ q _ _ left. some (success, left - 1, q)) 512 p page_map addr n
setup_page_map (suc k) writable p page_map addr n =
    setup_loop (suc (suc k)) true (setup_page_map k writable) 512 p page_map addr n

abbrev pub code_of : Option (Code × ℕ × Paging) → Option (Code × Paging)
code_of none = none
code_of (some (err, _, p)) = some (err, p)

-- `SetupPageMaps`.
pub setup_page_maps : Paging → ℕ → ℕ → Bool → Option (Code × Paging)
setup_page_maps p addr num_4kpages writable =
    code_of (setup_page_map 3 writable p p.cr3 addr num_4kpages)

-- The loop of `CleanPageMap` from entry `i` on, for `rounds` entries; `below` does the work behind an
-- entry.
pub clean_loop : (Paging → ℕ → Paging) → Bool → ℕ → Paging → ℕ → ℕ → Paging
clean_loop below clean_readonly zero p page_map i = p
clean_loop below clean_readonly (suc rounds) p page_map i =
    let entry = p.tables page_map i in
    let p1 = below p entry.addr in
    let p2 = if entry.writable || clean_readonly then (free_page_map p1 entry.addr).1 else p1 in
    let p3 = set_entry p2 page_map i no_entry in
    clean_loop below clean_readonly rounds (if entry.present then p3 else p) page_map (i + 1)

-- `CleanPageMap` at level `k + 1`. The call behind an entry leaves `clean_readonly` at false, its
-- default. `Free` never fails, and so this does not.
pub clean_page_map : ℕ → Paging → ℕ → ℕ → Bool → Paging
clean_page_map zero p page_map addr clean_readonly =
    clean_loop (λ q _. q) clean_readonly (512 - part addr 1) p page_map (part addr 1)
clean_page_map (suc k) p page_map addr clean_readonly =
    clean_loop (λ q child. clean_page_map k q child addr false) clean_readonly
      (512 - part addr (suc (suc k))) p page_map (part addr (suc (suc k)))

-- `CleanPageMaps` and `CleanPageMapsForMeta`.
pub clean_page_maps : Paging → ℕ → Paging
clean_page_maps p addr = clean_page_map 3 p p.cr3 addr false

pub clean_page_maps_for_meta : Paging → ℕ → Code × Paging
clean_page_maps_for_meta p pml4_table =
    free_page_map (clean_page_map 3 p pml4_table 0xffff800000000000 true) pml4_table

-- The loop of `CopyPageMaps` from entry `i` on: `copy` makes the entry, and `fill` what is behind it.
pub copy_loop :
    (Paging → PageMapEntry → Code × PageMapEntry × Paging)
    → (Paging → ℕ → ℕ → Code × Paging)
    → ℕ
    → Paging
    → ℕ
    → ℕ
    → ℕ
    → Code × Paging
copy_loop copy fill zero p dest src i = (success, p)
copy_loop copy fill (suc rounds) p dest src i =
    let e = p.tables src i in
    let (err, copied, p1) = copy p e in
    let (err2, p2) = fill (set_entry p1 dest i copied) copied.addr e.addr in
    let skip = copy_loop copy fill rounds p dest src (i + 1) in
    let go_on = copy_loop copy fill rounds p2 dest src (i + 1) in
    if not e.present
    then skip
    else if failed err
    then (err, p1)
    else if failed err2
    then (err2, p2)
    else go_on

-- `CopyPageMaps` at part `k + 1`: the tables are copied, and the pages shared and made read-only.
pub copy_page_maps : ℕ → Paging → ℕ → ℕ → ℕ → Code × Paging
copy_page_maps zero p dest src start =
    copy_loop (λ q e. (success, record e { writable = false }, q)) (λ q _ _. (success, q))
      (512 - start) p dest src start
copy_page_maps (suc k) p dest src start =
    copy_loop (λ q e. let (err, table, q1) = new_page_map q in (err, record e { addr = table }, q1))
      (λ q table source. copy_page_maps k q table source 0) (512 - start) p dest src start

-- `SetPageContent` at part `k + 1`.
unfoldable pub set_page_content : ℕ → Paging → ℕ → ℕ → ℕ → Paging
set_page_content zero p table addr content =
    let i = part addr 1 in
    set_entry p table i (record (p.tables table i) { addr = content; writable = true })
set_page_content (suc k) p table addr content =
    set_page_content k p (p.tables table (part addr (suc (suc k)))).addr addr content

-- The frame that the processor reads at an address, through `k` levels of tables.
unfoldable pub walk : ℕ → Paging → ℕ → ℕ → ℕ
walk zero p table addr = table
walk (suc k) p table addr = walk k p (p.tables table (part addr (suc k))).addr addr

-- `CopyOnePage`: the page at the address gets a frame of its own.
pub copy_one_page : Paging → ℕ → Code × Paging
copy_one_page p causal_addr =
    let (err, frame, p1) = new_page_map p in
    let bytes = p1.contents (walk 4 p1 p1.cr3 causal_addr) in
    let p2 = record p1 { contents = update p1.contents frame bytes } in
    if failed err then (err, p1) else (success, set_page_content 3 p2 p2.cr3 causal_addr frame)

pub record FileMapping : Type 0 where
  pub fd : ℕ
  pub vaddr_begin : ℕ
  pub vaddr_end : ℕ

-- `FindFileMapping`.
pub find_file_mapping : List FileMapping → ℕ → Option FileMapping
find_file_mapping [] causal_vaddr = none
find_file_mapping (m ∷ fmaps) causal_vaddr =
    if leb m.vaddr_begin causal_vaddr && ltb causal_vaddr m.vaddr_end
    then some m
    else find_file_mapping fmaps causal_vaddr

-- The file that `PreparePageCache` loads: 4096 bytes from `file_offset` on, to `page_cache`.
pub record LoadRequest : Type 0 where
  pub fd : ℕ
  pub page_cache : ℕ
  pub file_offset : ℕ

-- `PreparePageCache`, up to the call of `Load` for the page.
pub prepare_page_cache : Paging → FileMapping → ℕ → Option (Code × Option LoadRequest × Paging)
prepare_page_cache p m causal_vaddr =
    let page_vaddr = set_part causal_vaddr 0 0 in
    elim (setup_page_maps p page_vaddr 1 true) [
      | none ↦ none
      | some (err, p1) ↦
          if failed err
          then some (err, none, p1)
          else some (
            success,
            some (record {
              fd = m.fd;
              page_cache = page_vaddr;
              file_offset = (2 ^ 64 + page_vaddr - m.vaddr_begin) % 2 ^ 64;
            }),
            p1,
          )
    ]

-- What the handler reads of the current task.
pub record FaultTask : Type 0 where
  pub dpaging_begin : ℕ
  pub dpaging_end : ℕ
  pub file_maps : List FileMapping

abbrev no_load : Option (Code × Paging) → Option (Code × Option LoadRequest × Paging)
no_load none = none
no_load (some (err, p)) = some (err, none, p)

-- A bit of the error code.
abbrev bit_of : ℕ → ℕ → Bool
bit_of error_code k = error_code / 2 ^ k % 2 == 1

-- `HandlePageFault`.
pub handle_page_fault : Paging → FaultTask → ℕ → ℕ → Option (Code × Option LoadRequest × Paging)
handle_page_fault p task error_code causal_addr =
    let present = bit_of error_code 0 in
    if present && bit_of error_code 1 && bit_of error_code 2
    then no_load (some (copy_one_page p causal_addr))
    else if present
    then some (already_allocated, none, p)
    else if leb task.dpaging_begin causal_addr && ltb causal_addr task.dpaging_end
    then no_load (setup_page_maps p causal_addr 1 true)
    else elim (find_file_mapping task.file_maps causal_addr) [
      | some m ↦ prepare_page_cache p m causal_addr
      | none ↦ some (index_out_of_range, none, p)
    ]
