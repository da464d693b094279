-- ===== src/Paging/CopyOnWrite.antt =====
-- `CopyOnePage` of kernel/paging.cpp.
use mikansaos.Base.{ℕ, ◌≤◌, ◌≡◌, ◌≢◌, true, replicate}
use mikansaos.Base.Maps.{update}
use mikansaos.ErrorCode.{success}
use mikansaos.Memory.{allocate, get_bit}
use mikansaos.Memory.Frames.{frames}
use mikansaos.Paging.{Paging, no_entry, part, walk}

-- The tables on the way to a page.
abbrev pub table_3 : Paging → ℕ → ℕ
table_3 p addr = (p.tables p.cr3 (part addr 4)).addr

abbrev pub table_2 : Paging → ℕ → ℕ
table_2 p addr = (p.tables (table_3 p addr) (part addr 3)).addr

abbrev pub table_1 : Paging → ℕ → ℕ
table_1 p addr = (p.tables (table_2 p addr) (part addr 2)).addr

-- The tables and the page are in use, and the last table is none of the others.
pub record HasTables (p : Paging) (addr : ℕ) : Type 0 where
  pub used_4 : get_bit p.manager p.cr3 ≡ true
  pub used_3 : get_bit p.manager (table_3 p addr) ≡ true
  pub used_2 : get_bit p.manager (table_2 p addr) ≡ true
  pub used_1 : get_bit p.manager (table_1 p addr) ≡ true
  pub used_page : get_bit p.manager (walk 4 p p.cr3 addr) ≡ true
  pub not_4 : table_1 p addr ≢ p.cr3
  pub not_3 : table_1 p addr ≢ table_3 p addr
  pub not_2 : table_1 p addr ≢ table_2 p addr

-- `NewPageMap` where there is a free frame.
abbrev with_frame : Paging → Paging
with_frame p =
    let (frame, m) = allocate p.manager 1 in
    record p {
      manager = m;
      tables = update p.tables frame.value (λ _. no_entry);
      contents = update p.contents frame.value (replicate 4096 0);
    }

-- What the handler leaves, in terms of the frame and the tables on the way.
abbrev own_page : Paging → ℕ → ℕ → Paging
own_page p addr f =
    let q = with_frame p in
    let t1 = table_1 p addr in
    let i = part addr 1 in
    record q {
      tables =
          update q.tables t1
            (update (q.tables t1) i (record (q.tables t1 i) { addr = f; writable = true }));
      contents = update q.contents f (q.contents (walk 4 q q.cr3 addr));
    }

module _ (p : Paging) (addr : ℕ) (has : HasTables p addr)
    (room : p.manager.range_end ≤ frames p.manager)
    (found : (allocate p.manager 1).0.error ≡ success) where
  abbrev f : ℕ
  f = (allocate p.manager 1).0.value

  abbrev after : Paging
  after = own_page p addr f
