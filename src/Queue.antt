-- ===== src/Queue.antt =====
-- kernel/queue.hpp: `ArrayQueue`, a FIFO over storage that the caller provides.
-- The positions are below the capacity, so no addition on them wraps.
mod Tests
pub mod Fifo
pub mod Refine
use mikansaos.Base.{
  ℕ, ◌+◌, ◌-◌, ◌==◌, ltb, if◌then◌else◌, Bool, List, [], ◌∷◌, Option, none, some, length, get_elem?,
  set,
}
use mikansaos.ErrorCode.{Code, success, full, empty, failed}

pub record ArrayQueue {ℓ} (A : Type ℓ) : Type ℓ where
  pub capacity : ℕ
  pub buffer : List A
  pub read_pos : ℕ
  pub write_pos : ℕ
  pub count : ℕ

-- `pos++; if (pos == _capacity) pos = 0;`
abbrev pub advance : ℕ → ℕ → ℕ
advance capacity pos = if (pos + 1) == capacity then 0 else pos + 1

module _ {ℓ} {A : Type ℓ} where
  -- Both constructors: the capacity is the size of the array.
  pub init : List A → ArrayQueue A
  init buf = record { capacity = length buf; buffer = buf; read_pos = 0; write_pos = 0; count = 0 }

  pub push : ArrayQueue A → A → Code × ArrayQueue A
  push q value = if q.count == q.capacity then (full, q) else (
    success,
    record q {
      buffer = set q.buffer q.write_pos value;
      count = q.count + 1;
      write_pos = advance q.capacity q.write_pos;
    },
  )

  pub has_front : ArrayQueue A → Bool
  has_front q = ltb 0 q.count

  pub pop : ArrayQueue A → Code × ArrayQueue A
  pop q =
      if q.count == 0
      then (empty, q)
      else (success, record q { count = q.count - 1; read_pos = advance q.capacity q.read_pos })

  -- `none` is the indeterminate `T empty` that is returned when `Pop` fails; the log is left out.
  pub front : ArrayQueue A → Option A × ArrayQueue A
  unfolding pop
  front q =
      let ret = get_elem? q.buffer q.read_pos in
      let (err, q') = pop q in if failed err then (none, q') else (ret, q')
