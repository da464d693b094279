-- ===== src/Queue/Refine.antt =====
-- `ArrayQueue` of kernel/queue.hpp implements the bounded FIFO.
use mikansaos.Base.{
  ℕ, ◌+◌, ◌-◌, ◌≤◌, ◌<◌, ltb, if◌then◌else◌, ◌≡◌, refl, ◌∙◌, List, [], ◌∷◌, ◌++◌, some, length,
  get_elem?, set, length-append, length-set, get_elem?-set_self, get_elem?-set_ne, arith,
}
use mikansaos.Queue.{ArrayQueue, init, advance, push, has_front, front}
use mikansaos.Queue.Fifo
use mikansaos.Queue.Fifo.{Op, push_op, front_op, has_front_op, Reply, status, value, answer}

-- The position `k` steps from the first slot, for `k` below twice the capacity.
abbrev pub wrap : ℕ → ℕ → ℕ
wrap capacity k = if ltb k capacity then k else k - capacity

module _ {A : Type 0} where
  -- The slots from `i` on hold the list, going back to slot 0 at the capacity.
  abbrev pub Holds : List A → ℕ → ℕ → List A → Type 0
  Holds buf capacity i [] = Unit {0}
  Holds buf capacity i (x ∷ xs) =
      (get_elem? buf i ≡ some x) × Holds buf capacity (advance capacity i) xs

  -- The queue is well formed and holds the list, oldest element first.
  pub record Rep (q : ArrayQueue A) (xs : List A) : Type 0 where
    pub storage : length q.buffer ≡ q.capacity
    pub read_in : q.read_pos < q.capacity
    pub write_eq : q.write_pos ≡ wrap q.capacity (q.read_pos + q.count)
    pub count_eq : length xs ≡ q.count
    pub count_le : q.count ≤ q.capacity
    pub holds : Holds q.buffer q.capacity q.read_pos xs

  -- A write just past the held slots extends them, and disturbs none.
  Holds-set :
      (buf : List A) (capacity i w : ℕ) (xs : List A) (x : A)
      → length buf ≡ capacity
      → i < capacity
      → length xs < capacity
      → w ≡ wrap capacity (i + length xs)
      → Holds buf capacity i xs
      → Holds (set buf w x) capacity i (xs ++ x ∷ [])
  Holds-set buf capacity i w [] x hb hi hn e h = (ground (arith, get_elem?-set_self buf i x), tt)
  Holds-set buf capacity i w (y ∷ ys) x hb hi hn e h = (
    get_elem?-set_ne buf x (ground arith) ∙ h.0,
    Holds-set buf capacity (advance capacity i) w ys x hb (ground arith) (omega arith)
        (ground arith) h.1,
  )

  init-Rep : (buf : List A) → 0 < length buf → Rep (init buf) []
  unfolding init
  init-Rep buf h = record {
    storage = refl;
    read_in = h;
    write_eq = ground arith;
    count_eq = refl;
    count_le = omega arith;
    holds = tt;
  }

  push-Rep :
      {q : ArrayQueue A} {xs : List A} (x : A)
      → Rep q xs
      → ((push q x).0 ≡ (Fifo.push q.capacity xs x).0)
        × Rep (push q x).1 (Fifo.push q.capacity xs x).1
        × ((push q x).1.capacity ≡ q.capacity)
  unfolding push
  push-Rep {q} {xs} x r = ground (
    arith,
    length-set q.buffer q.write_pos x,
    length-append xs (x ∷ []),
    Holds-set q.buffer q.capacity q.read_pos q.write_pos xs x,
  )

  front-Rep :
      {q : ArrayQueue A} (xs : List A)
      → Rep q xs
      → ((front q).0 ≡ (Fifo.front xs).0)
        × Rep (front q).1 (Fifo.front xs).1
        × ((front q).1.capacity ≡ q.capacity)
  unfolding front
  front-Rep [] r = ground arith
  front-Rep (x ∷ xs) r = ground arith

  -- The replies of the queue to a client's calls.
  pub run : ArrayQueue A → List (Op A) → List (Reply A)
  run q [] = []
  run q (push_op x ∷ ops) = status (push q x).0 ∷ run (push q x).1 ops
  run q (front_op ∷ ops) = value (front q).0 ∷ run (front q).1 ops
  run q (has_front_op ∷ ops) = answer (has_front q) ∷ run q ops

  run-Rep :
      (ops : List (Op A)) {q : ArrayQueue A} {xs : List A}
      → Rep q xs
      → run q ops ≡ Fifo.run q.capacity xs ops
  unfolding run has_front
  run-Rep [] r = refl
  run-Rep (push_op x ∷ ops) {q} {xs} r = let p = push-Rep x r in ground (arith, p, run-Rep ops p.1)
  run-Rep (front_op ∷ ops) {q} {xs} r = let p = front-Rep xs r in ground (arith, p, run-Rep ops p.1)
  run-Rep (has_front_op ∷ ops) r = ground (arith, r.count_eq, run-Rep ops r)

  -- A queue made over a non-empty array answers every sequence of pushes, reads of the front and
  -- tests for a front exactly as the bounded FIFO of the array's size that starts empty.
  pub run-init :
      (buf : List A) (ops : List (Op A))
      → 0 < length buf
      → run (init buf) ops ≡ Fifo.run (length buf) [] ops
  unfolding init
  run-init buf ops h = run-Rep ops (init-Rep buf h)
