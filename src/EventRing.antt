-- ===== src/EventRing.antt =====
-- kernel/usb/xhci/ring.cpp and ring.hpp: `EventRing`, which the controller fills and the driver reads;
-- kernel/usb/xhci/xhci.cpp: `ProcessEvent` and `ProcessEvents`. The memory of the ring is a function
-- from places to entries, and the dequeue pointer is the place that it points to. The handlers are
-- parameters.
pub mod Queued
pub mod Posting
pub mod Processing
pub mod Batches
mod Tests
use mikansaos.Base.{ℕ, zero, suc, ◌+◌, ◌/◌, ◌%◌, ◌^◌, ◌==◌, if◌then◌else◌, Bool, Option, none, some}
use mikansaos.ErrorCode.{Code, success, no_enough_memory, not_implemented}
use mikansaos.Ring.{Trb, zero_trb, flip}

-- `segment_size` is the `ring_segment_size` of the only segment; its address is place 0.
pub record EventRing : Type 0 where
  pub buf : ℕ → Trb
  pub buf_size : ℕ
  pub segment_size : ℕ
  pub cycle_bit : ℕ
  pub dequeue : ℕ

-- `Initialize`, given whether `AllocArray` has found memory for the entries and for the table of
-- segments. The field for the size of the segment has 16 bits.
pub init : EventRing → ℕ → Bool → Bool → Code × EventRing
init r buf_size buf_found erst_found =
    let started = record r { cycle_bit = 1; buf_size = buf_size } in
    let cleared = record started { buf = λ _. zero_trb } in
    if buf_found
    then if erst_found
      then (success, record cleared { segment_size = buf_size % 2 ^ 16; dequeue = 0 })
      else (no_enough_memory, cleared)
    else (no_enough_memory, started)

-- `Front` and `HasFront`.
pub front : EventRing → Trb
front r = r.buf r.dequeue

pub has_front : EventRing → Bool
has_front r = (front r).word3 % 2 == r.cycle_bit

-- `Pop`.
pub pop : EventRing → EventRing
pop r =
    let p = r.dequeue + 1 in
    if p == r.segment_size
    then record r { dequeue = 0; cycle_bit = flip r.cycle_bit }
    else record r { dequeue = p }

-- `trb_type` of an entry.
abbrev pub trb_type : Trb → ℕ
trb_type t = t.word3 / 2 ^ 10 % 2 ^ 6

-- The handlers for the three kinds of events, on the state of the driver.
pub record Handlers {ℓ} (S : Type ℓ) : Type ℓ where
  pub on_transfer : Trb → S → Code × S
  pub on_command_completion : Trb → S → Code × S
  pub on_port_status_change : Trb → S → Code × S

module _ {ℓ} {S : Type ℓ} (handlers : Handlers S) where
  -- The choice of the handler in `ProcessEvent`.
  pub dispatch : Trb → S → Code × S
  dispatch t s =
      if trb_type t == 32
      then handlers.on_transfer t s
      else if trb_type t == 33
      then handlers.on_command_completion t s
      else if trb_type t == 34
      then handlers.on_port_status_change t s
      else (not_implemented, s)

  -- `ProcessEvent`.
  pub process_event : EventRing → S → Code × EventRing × S
  process_event r s =
      let handled = dispatch (front r) s in
      if has_front r then (handled.0, pop r, handled.1) else (success, r, s)

  -- `ProcessEvents`: the errors are only logged. `none` where the rounds do not suffice.
  pub process_events : ℕ → EventRing → S → Option (EventRing × S)
  process_events zero r s = none
  process_events (suc rounds) r s =
      let handled = process_event r s in
      let rest = process_events rounds handled.1 handled.2 in
      if has_front r then rest else some (r, s)
