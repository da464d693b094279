-- ===== src/EventRing/Tests.antt =====
-- Inputs for the theorem on the event ring of kernel/usb/xhci/ring.cpp.
use mikansaos.Base.{ℕ, true, ◌*◌, ◌^◌, ◌≡◌, List, [], ◌∷◌, some, arith}
use mikansaos.ErrorCode.{Code, success}
use mikansaos.Ring.{Trb, zero_trb}
use mikansaos.EventRing.{EventRing, init, Handlers}
use mikansaos.EventRing.Queued.{Producer}
use mikansaos.EventRing.Processing.{handle_all}
use mikansaos.EventRing.Batches.{run, sent, AllFit, run-sent}

-- Handlers that write down what they get.
abbrev log : ℕ → Trb → List ℕ → Code × List ℕ
log kind t seen = (success, kind ∷ t.word0 ∷ seen)

abbrev handlers : Handlers (List ℕ)
handlers = record {
  on_transfer = log 1;
  on_command_completion = log 2;
  on_port_status_change = log 3;
}

abbrev event : ℕ → ℕ → Trb
event kind word0 = record { word0 = word0; word1 = 0; word2 = 0; word3 = kind * 2 ^ 10 }

abbrev unused : EventRing
unused = record { buf = λ _. zero_trb; buf_size = 0; segment_size = 0; cycle_bit = 0; dequeue = 0 }

-- Three batches go round a ring of three entries; the event of type 39 has no handler.
abbrev batches : List (List Trb)
batches = (event 34 5 ∷ event 33 6 ∷ []) ∷ (event 32 7 ∷ event 39 8 ∷ []) ∷ (event 32 9 ∷ []) ∷ []

abbrev start : Producer
start = record { enqueue = 0; bit = 1 }

run-sent_example :
    run handlers batches (init unused 3 true true).1 start []
    ≡ some (handle_all handlers (sent 3 start batches) [])
unfolding AllFit
run-sent_example =
    run-sent handlers batches unused 3 [] (omega arith) (omega arith)
      (omega arith, (omega arith, (omega arith, tt)))
