-- ===== src/Ring/Tests.antt =====
-- Inputs for the theorems on kernel/usb/xhci/ring.cpp.
use mikansaos.Base.{ℕ, ◌*◌, ◌≡◌, refl, true}
use mikansaos.Ring.{Trb, Ring, zero_trb, init, push}

-- A ring of three entries, the last for the link, in which one command has been written.
abbrev command : ℕ → Trb
command n = record { word0 = n; word1 = 0; word2 = 0; word3 = 23 * 1024 }

abbrev no_entries : ℕ → Trb
no_entries _ = zero_trb

abbrev no_ring : Ring
no_ring = record { buf = no_entries; buf_size = 0; cycle_bit = 0; write_index = 0 }

abbrev sample : Ring
sample = push 4096 (init no_ring 3 true).1 (command 1)

wraps : (push 4096 sample (command 2)).write_index ≡ 0
unfolding push init
wraps = refl
