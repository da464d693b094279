-- ===== src/Memory/Search.antt =====
-- The two loops of `BitmapMemoryManager::Allocate` in kernel/memory_manager.cpp.
use mikansaos.Base.{
  ℕ, zero, suc, ◌+◌, ◌-◌, ◌≤◌, ◌<◌, ltb, leb, if◌then◌else◌, ◌≡◌, refl, inl, inr, true, false,
  Option, none, some, Bool-cases, ltb→lt, leb→le, arith,
}
use mikansaos.Memory.{BitmapMemoryManager, get_bit, Scan, past_end, taken, all_free, scan, search}
use native.Mathlib.Decide.{dec_lt, dec_le}

-- The `n` frames from `s` on lie below the end of the range and are free.
abbrev pub IsFreeRun : BitmapMemoryManager → ℕ → ℕ → Type 0
IsFreeRun m n s = (i : ℕ) → i < n → (s + i < m.range_end) × (get_bit m (s + i) ≡ false)

-- What the inner loop has seen of the frames `start + i ..< start + i + rounds`.
abbrev Seen : BitmapMemoryManager → ℕ → ℕ → ℕ → Scan → Type 0
Seen m start i rounds all_free =
    (j : ℕ) → i ≤ j → j < i + rounds → (start + j < m.range_end) × (get_bit m (start + j) ≡ false)
Seen m start i rounds (taken k) = (i ≤ k) × (k < i + rounds) × (get_bit m (start + k) ≡ true)
Seen m start i rounds past_end = (k : ℕ) × (i ≤ k) × (k < i + rounds) × (m.range_end ≤ start + k)

Seen-more :
    (m : BitmapMemoryManager) (start i rounds : ℕ) (r : Scan)
    → start + i < m.range_end
    → get_bit m (start + i) ≡ false
    → Seen m start (i + 1) rounds r
    → Seen m start i (suc rounds) r
Seen-more m start i rounds past_end h b (k, lo, hi, over) = (k, omega arith, omega arith, over)
Seen-more m start i rounds (taken k) h b s = (omega arith, omega arith, s.2)
Seen-more m start i rounds all_free h b s = λ j lo hi. elim (dec_lt i j) [
  | yes p ↦ s j (omega arith) (omega arith)
  | no p ↦ let e : i ≡ j = omega arith in rw (← e) (h, b)
]

pub scan-Seen :
    (m : BitmapMemoryManager) (start i rounds : ℕ) → Seen m start i rounds (scan m start i rounds)
unfolding scan
scan-Seen m start i zero = λ j lo hi. absurd (omega arith)
scan-Seen m start i (suc rounds) = elim (Bool-cases (leb m.range_end (start + i))) [
  | inl over ↦ rw over (i, omega arith, omega arith, leb→le _ _ over)
  | inr fits ↦ elim (Bool-cases (get_bit m (start + i))) [
    | inl used ↦ rw (fits, used) (omega arith, omega arith, used)
    | inr unused ↦
        rw (fits, unused)
          (Seen-more m start i rounds _ (ground arith) unused (scan-Seen m start (i + 1) rounds))
  ]
]

-- The first start from `start` on at which a run of `n` free frames begins, or none at all.
abbrev pub FirstRun : BitmapMemoryManager → ℕ → ℕ → Option ℕ → Type 0
FirstRun m n start none = (t : ℕ) → start ≤ t → t < m.range_end → ¬ IsFreeRun m n t
FirstRun m n start (some s) =
    (start ≤ s)
    × (s < m.range_end)
    × IsFreeRun m n s
    × ((t : ℕ) → start ≤ t → t < s → ¬ IsFreeRun m n t)

-- A taken frame, or the end of the range, `k` frames on rules out every start up to it.
FirstRun-skip :
    (m : BitmapMemoryManager) (n start k : ℕ) (o : Option ℕ)
    → k < n
    → get_bit m (start + k) ≡ true
    → FirstRun m n (start + (k + 1)) o
    → FirstRun m n start o
FirstRun-skip m n start k o hk used =
    elim o as (λ o. FirstRun m n (start + (k + 1)) o → FirstRun m n start o) [
      | none ↦ λ f t lo hi. skip t lo (λ p. f t p hi)
      | some s ↦ λ f. (omega arith, f.1, f.2, λ t lo hi. skip t lo (λ p. f.3 t p hi))
    ]
  where
    blocked : (t : ℕ) → start ≤ t → t ≤ start + k → ¬ IsFreeRun m n t
    blocked t lo hi run =
        let e : t + (start + k - t) ≡ start + k = omega arith in
        let clear = (run (start + k - t) (omega arith)).1 in cc (used, clear, e)

    skip : (t : ℕ) → start ≤ t → (start + (k + 1) ≤ t → ¬ IsFreeRun m n t) → ¬ IsFreeRun m n t
    skip t lo later = elim (dec_le t (start + k)) [
      | yes p ↦ blocked t lo p
      | no p ↦ later (omega arith)
    ]

-- Past the end of the range no later start has room either.
none-FirstRun :
    (m : BitmapMemoryManager) (n start k : ℕ)
    → k < n
    → m.range_end ≤ start + k
    → FirstRun m n start none
none-FirstRun m n start k hk over = λ t lo hi run.
    let e : t + (start + k - t) ≡ start + k = omega arith in
    let room = (run (start + k - t) (omega arith)).0 in absurd (omega arith)

-- What a round of the outer loop makes of the inner loop's end, `later` being the rounds to come.
abbrev resume : ℕ → (ℕ → Option ℕ) → Scan → Option ℕ
resume start later past_end = none
resume start later (taken i) = later (start + (i + 1))
resume start later all_free = some start

resume-FirstRun :
    (m : BitmapMemoryManager) (n start : ℕ) (later : ℕ → Option ℕ) (r : Scan)
    → start < m.range_end
    → Seen m start 0 n r
    → ((k : ℕ) → FirstRun m n (start + (k + 1)) (later (start + (k + 1))))
    → FirstRun m n start (resume start later r)
resume-FirstRun m n start later past_end h (k, lo, hi, over) ih =
    none-FirstRun m n start k (omega arith) over
resume-FirstRun m n start later (taken k) h s ih =
    FirstRun-skip m n start k _ (omega arith) s.2 (ih k)
resume-FirstRun m n start later all_free h s ih =
    (omega arith, h, (λ j lt. s j (omega arith) (omega arith)), λ t lo hi. absurd (omega arith))

search-suc :
    (m : BitmapMemoryManager) (n fuel start : ℕ)
    → search m n (suc fuel) start
      ≡ (if ltb start m.range_end then resume start (search m n fuel) (scan m start 0 n) else none)
unfolding search
search-suc m n fuel start = ground arith

search-zero : (m : BitmapMemoryManager) (n start : ℕ) → search m n zero start ≡ none
unfolding search
search-zero m n start = refl

pub search-FirstRun :
    (m : BitmapMemoryManager) (n fuel start : ℕ)
    → m.range_end ≤ start + fuel
    → FirstRun m n start (search m n fuel start)
search-FirstRun m n zero start h = rw (search-zero m n start) (λ t lo hi. absurd (omega arith))
search-FirstRun m n (suc fuel) start h = elim (Bool-cases (ltb start m.range_end)) [
  | inl below ↦
      rw (search-suc m n fuel start, below)
        (resume-FirstRun m n start (search m n fuel) _ (ltb→lt _ _ below) (scan-Seen m start 0 n)
          (λ k. search-FirstRun m n fuel (start + (k + 1)) (omega arith)))
  | inr above ↦ rw (search-suc m n fuel start, above) (λ t lo hi. absurd (ground arith))
]
