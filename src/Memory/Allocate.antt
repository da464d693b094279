-- ===== src/Memory/Allocate.antt =====
-- `Allocate` and `Free` of kernel/memory_manager.cpp: first fit, and what they do to the map.
use native.Mathlib.Decide.{dec_lt}
use mikansaos.Base.{
  ℕ, ◌+◌, ◌-◌, ◌≤◌, ◌<◌, if◌then◌else◌, ◌≡◌, refl, true, Option, none, some, Option-cases, inl, inr,
  arith,
}
use mikansaos.ErrorCode.{success, no_enough_memory, WithError}
use mikansaos.Memory.{
  BitmapMemoryManager, null_frame, get_bit, search, mark_allocated, free, allocate,
}
use mikansaos.Memory.Frames.{
  frames, within, range-mark_allocated, get_bit-mark_allocated, frames-mark_allocated, get_bit-free,
}
use mikansaos.Memory.Search.{IsFreeRun, FirstRun, search-FirstRun}

allocate-some :
    (m : BitmapMemoryManager) (n s : ℕ)
    → search m n (m.range_end - m.range_start) m.range_start ≡ some s
    → allocate m n ≡ (record { value = s; error = success }, mark_allocated m s n)
unfolding allocate
allocate-some m n s e = rw (e, allocate)

allocate-none :
    (m : BitmapMemoryManager) (n : ℕ)
    → search m n (m.range_end - m.range_start) m.range_start ≡ none
    → allocate m n ≡ (record { value = null_frame; error = no_enough_memory }, m)
unfolding allocate
allocate-none m n e = rw (e, allocate)

found :
    (m : BitmapMemoryManager) (n : ℕ)
    → FirstRun m n m.range_start (search m n (m.range_end - m.range_start) m.range_start)
found m n = search-FirstRun m n _ m.range_start (omega arith)

-- The two outcomes: the lowest start of `n` free frames of the range, whose frames alone become
-- allocated; or the null frame, an error and the manager as it was, where the range has no such
-- start.
pub data Outcome (m : BitmapMemoryManager) (n : ℕ)
    : WithError ℕ × BitmapMemoryManager → Type 0 where
  allocated :
      (s : ℕ) (m' : BitmapMemoryManager)
      → m.range_start ≤ s
      → s < m.range_end
      → IsFreeRun m n s
      → ((t : ℕ) → m.range_start ≤ t → t < s → ¬ IsFreeRun m n t)
      → ((g : ℕ) → get_bit m' g ≡ (if within s n g then true else get_bit m g))
      → (m'.range_start ≡ m.range_start) × (m'.range_end ≡ m.range_end)
      → Outcome m n (record { value = s; error = success }, m')
  refused :
      ((t : ℕ) → m.range_start ≤ t → t < m.range_end → ¬ IsFreeRun m n t)
      → Outcome m n (record { value = null_frame; error = no_enough_memory }, m)

run_fits :
    (m : BitmapMemoryManager) (n s : ℕ)
    → m.range_end ≤ frames m
    → s < m.range_end
    → IsFreeRun m n s
    → s + n ≤ frames m
run_fits m n s h lt run = elim (dec_lt 0 n) [
  | yes p ↦ let last = (run (n - 1) (omega arith)).0 in omega arith
  | no p ↦ omega arith
]

-- `Allocate`, over a range that lies in the map, either takes the first run of free frames of the
-- range that is long enough and marks exactly its frames, or reports that there is not enough
-- memory and changes nothing, and this only if the range has no such run.
pub allocate-Outcome :
    (m : BitmapMemoryManager) (n : ℕ) → m.range_end ≤ frames m → Outcome m n (allocate m n)
allocate-Outcome m n h =
    go (search m n (m.range_end - m.range_start) m.range_start) refl (found m n)
  where
    go :
        (o : Option ℕ)
        → search m n (m.range_end - m.range_start) m.range_start ≡ o
        → FirstRun m n m.range_start o
        → Outcome m n (allocate m n)
    go none e f = rw (allocate-none m n e) (refused f)
    go (some s) e (lo, hi, run, first) = rw (allocate-some m n s e) (
        allocated s _ lo hi run first
          (λ g. get_bit-mark_allocated m s n g (run_fits m n s h hi run))
          (range-mark_allocated m s n))

Outcome-free :
    (m : BitmapMemoryManager) (n g : ℕ) (r : WithError ℕ × BitmapMemoryManager)
    → m.range_end ≤ frames m
    → frames r.1 ≡ frames m
    → Outcome m n r
    → r.0.error ≡ success
    → get_bit (free r.1 r.0.value n).1 g ≡ get_bit m g
Outcome-free m n g r h same (refused f) e = cc
Outcome-free m n g r h same (allocated s m' lo hi run first bits range) e =
    let fits = run_fits m n s h hi run in
    let cleared = get_bit-free m' s n g (omega arith) in
    ground (arith, cleared, bits g, run (g - s))

pub frames-allocate : (m : BitmapMemoryManager) (n : ℕ) → frames (allocate m n).1 ≡ frames m
unfolding allocate
frames-allocate m n = elim (Option-cases (search m n (m.range_end - m.range_start) m.range_start)) [
  | inl e ↦ rw (allocate-none m n e)
  | inr (s, e) ↦ rw (allocate-some m n s e) (frames-mark_allocated m s n)
]

-- Freeing the frames that a successful `Allocate` has given out makes every bit of the map what it
-- was before the allocation.
pub free-allocate :
    (m : BitmapMemoryManager) (n g : ℕ)
    → m.range_end ≤ frames m
    → (allocate m n).0.error ≡ success
    → get_bit (free (allocate m n).1 (allocate m n).0.value n).1 g ≡ get_bit m g
free-allocate m n g h =
    Outcome-free m n g (allocate m n) h (frames-allocate m n) (allocate-Outcome m n h)
