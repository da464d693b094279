-- ===== src/Paging/Address.antt =====
-- The addresses that `SetupPageMap` of kernel/paging.cpp goes through.
use mikansaos.Base.{ℕ, zero, suc, ◌+◌, ◌*◌, ◌/◌, ◌%◌, ◌^◌, ◌≤◌, ◌<◌, ◌≡◌, arith}
use mikansaos.Paging.{shift_of, part, set_part, clear_parts, next_address}

-- At a level from 1 to 4, before the last entry of the table, a round of `SetupPageMap` goes on to the
-- first address behind the entry's, with the offset in the page kept.
pub next_address-next :
    (addr level : ℕ)
    → 1 ≤ level
    → level ≤ 4
    → part addr level < 511
    → next_address addr level ≡ (addr / 2 ^ shift_of level + 1) * 2 ^ shift_of level + addr % 4096
unfolding part set_part next_address clear_parts
next_address-next addr zero h k l = absurd (omega arith)
next_address-next addr (suc zero) h k l = omega arith
next_address-next addr (suc (suc zero)) h k l = omega arith
next_address-next addr (suc (suc (suc zero))) h k l = omega arith
next_address-next addr (suc (suc (suc (suc zero)))) h k l = omega arith
next_address-next addr (suc (suc (suc (suc (suc n))))) h k l = absurd (omega arith)
