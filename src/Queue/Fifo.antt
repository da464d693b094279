-- ===== src/Queue/Fifo.antt =====
-- What a client of kernel/queue.hpp may rely on: a FIFO of at most `capacity` elements.
use mikansaos.Base.{
  ℕ, ◌==◌, ltb, if◌then◌else◌, Bool, List, [], ◌∷◌, ◌++◌, Option, none, some, length,
}
use mikansaos.ErrorCode.{Code, success, full}

pub data Op {ℓ} (A : Type ℓ) : Type ℓ where
  push_op : A → Op A
  front_op : Op A
  has_front_op : Op A

pub data Reply {ℓ} (A : Type ℓ) : Type ℓ where
  status : Code → Reply A
  value : Option A → Reply A
  answer : Bool → Reply A

module _ {ℓ} {A : Type ℓ} where
  abbrev pub push : ℕ → List A → A → Code × List A
  push capacity xs x = if length xs == capacity then (full, xs) else (success, xs ++ x ∷ [])

  abbrev pub front : List A → Option A × List A
  front [] = (none, [])
  front (x ∷ xs) = (some x, xs)

  abbrev pub run : ℕ → List A → List (Op A) → List (Reply A)
  run capacity xs [] = []
  run capacity xs (push_op x ∷ ops) =
      let (code, xs') = push capacity xs x in status code ∷ run capacity xs' ops
  run capacity xs (front_op ∷ ops) = let (v, xs') = front xs in value v ∷ run capacity xs' ops
  run capacity xs (has_front_op ∷ ops) = answer (ltb 0 (length xs)) ∷ run capacity xs ops
