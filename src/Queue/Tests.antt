-- ===== src/Queue/Tests.antt =====
-- Inputs for the theorems on kernel/queue.hpp.
use mikansaos.Base.{ℕ, ◌≡◌, refl, false, List, [], ◌∷◌, none, some, arith}
use mikansaos.ErrorCode.{success, full}
use mikansaos.Queue.{init}
use mikansaos.Queue.Fifo
use mikansaos.Queue.Fifo.{Op, push_op, front_op, has_front_op, status, value, answer}
use mikansaos.Queue.Refine.{run, run-init}

abbrev storage : List ℕ
storage = 0 ∷ 0 ∷ []

-- Goes round the end of the storage, and meets the full and the empty queue.
abbrev calls : List (Op ℕ)
calls =
    push_op 1
    ∷ push_op 2
    ∷ push_op 3
    ∷ front_op
    ∷ push_op 4
    ∷ front_op
    ∷ front_op
    ∷ has_front_op
    ∷ front_op
    ∷ []

fifo_runs :
    Fifo.run 2 [] calls
    ≡ status success
      ∷ status success
      ∷ status full
      ∷ value (some 1)
      ∷ status success
      ∷ value (some 2)
      ∷ value (some 4)
      ∷ answer false
      ∷ value none
      ∷ []
fifo_runs = refl

run-init_example : run (init storage) calls ≡ Fifo.run 2 [] calls
run-init_example = run-init storage calls (omega arith)
