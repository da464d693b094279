-- ===== src/Memory/Stat.antt =====
-- `Stat` of kernel/memory_manager.cpp counts the allocated frames of whole lines.
use mikansaos.Base.{ℕ, zero, suc, ◌+◌, ◌-◌, ◌*◌, ◌/◌, ◌≤◌, if◌then◌else◌, ◌≡◌, refl, arith}
use mikansaos.Base.Bits.{digit-lt}
use mikansaos.Memory.{BitmapMemoryManager, line_of, get_bit, popcount, sum_lines, stat}
use mikansaos.Memory.Frames.{get_bit-eq-digit}

-- The allocated frames among the `n` from `start` on.
pub count_allocated : BitmapMemoryManager → ℕ → ℕ → ℕ
count_allocated m start zero = 0
count_allocated m start (suc n) =
    count_allocated m start n + (if get_bit m (start + n) then 1 else 0)

count_allocated-add :
    (m : BitmapMemoryManager) (start n p q : ℕ)
    → p + n ≡ q
    → count_allocated m start q ≡ count_allocated m start p + count_allocated m (start + p) n
unfolding count_allocated
count_allocated-add m start zero p q e = let e' : p ≡ q = omega arith in rw e' (omega arith)
count_allocated-add m start (suc n) p q e =
    let e' : suc (p + n) ≡ q = omega arith in
    let a : start + p + n ≡ start + (p + n) = omega arith in
    rw (← e', a) (omega (arith, count_allocated-add m start n p (p + n) refl))

popcount-eq :
    (m : BitmapMemoryManager) (i n : ℕ)
    → n ≤ 64
    → popcount (line_of m i) n ≡ count_allocated m (i * 64) n
unfolding popcount count_allocated
popcount-eq m i zero h = refl
popcount-eq m i (suc n) h = ground (
  arith,
  popcount-eq m i n (omega arith),
  get_bit-eq-digit m (i * 64 + n),
  digit-lt (line_of m i) n,
)

sum_lines-eq :
    (m : BitmapMemoryManager) (i rounds : ℕ)
    → sum_lines m i rounds ≡ count_allocated m (i * 64) (rounds * 64)
unfolding sum_lines
sum_lines-eq m i zero = unfold count_allocated in refl
sum_lines-eq m i (suc rounds) =
    let a : i * 64 + 64 ≡ (i + 1) * 64 = omega arith in
    rw (
      popcount-eq m i 64 (omega arith),
      sum_lines-eq m (i + 1) rounds,
      count_allocated-add m (i * 64) (rounds * 64) 64 (suc rounds * 64) (omega arith),
      a,
    )

-- `Stat` reports the frames of the range as the total, and as allocated the allocated frames from
-- the first frame of the line that holds the start of the range up to the first frame of the line
-- that holds its end: those of the last line, where it is not whole, are not counted.
pub stat_lem :
    (m : BitmapMemoryManager)
    → let first = m.range_start / 64 in
      ((stat m).allocated_frames ≡ count_allocated m (first * 64) ((m.range_end / 64 - first) * 64))
      × ((stat m).total_frames ≡ m.range_end - m.range_start)
unfolding stat
stat_lem m = (sum_lines-eq m (m.range_start / 64) (m.range_end / 64 - m.range_start / 64), refl)
