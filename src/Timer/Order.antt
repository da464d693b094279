-- ===== src/Timer/Order.antt =====
-- The order of the timers of kernel/timer.cpp, and those that are due.
use mikansaos.Base.{
  ℕ, ◌+◌, ◌<◌, ◌≤◌, ltb, if◌then◌else◌, ◌≡◌, refl, ap, inl, inr, true, List, [], ◌∷◌, Bool-cases,
  arith,
}
use mikansaos.Timer.{Timer, push}

-- The timeouts rise, and none is below `lo`.
abbrev pub IsSortedFrom : ℕ → List Timer → Type 0
IsSortedFrom lo [] = Unit {0}
IsSortedFrom lo (t ∷ ts) = (lo ≤ t.timeout) × IsSortedFrom t.timeout ts

unfoldable pub due : ℕ → List Timer → List Timer
due now [] = []
due now (t ∷ ts) = if ltb now t.timeout then due now ts else t ∷ due now ts

unfoldable pub late : ℕ → List Timer → List Timer
late now [] = []
late now (t ∷ ts) = if ltb now t.timeout then t ∷ late now ts else late now ts

IsSortedFrom-lower : (lo k : ℕ) (ts : List Timer) → k ≤ lo → IsSortedFrom lo ts → IsSortedFrom k ts
IsSortedFrom-lower lo k [] h s = tt
IsSortedFrom-lower lo k (t ∷ ts) h s = (omega arith, s.1)

pub push-IsSortedFrom :
    (lo : ℕ) (t : Timer) (ts : List Timer)
    → lo ≤ t.timeout
    → IsSortedFrom lo ts
    → IsSortedFrom lo (push t ts)
unfolding push
push-IsSortedFrom lo t [] h s = (h, tt)
push-IsSortedFrom lo t (u ∷ us) h s = elim (Bool-cases (ltb t.timeout u.timeout)) [
  | inl first ↦ rw first (h, (ground (arith, first), s.1))
  | inr after ↦ rw after (s.0, push-IsSortedFrom u.timeout t us (ground (arith, after)) s.1)
]

pub all_late :
    (lo now : ℕ) (ts : List Timer)
    → now < lo
    → IsSortedFrom lo ts
    → (due now ts ≡ []) × (late now ts ≡ ts)
unfolding due late
all_late lo now [] h s = (refl, refl)
all_late lo now (t ∷ ts) h s =
    let later : ltb now t.timeout ≡ true = ground (arith, s.0) in
    let rest = all_late t.timeout now ts (omega (arith, s.0)) s.1 in
    (rw later rest.0, rw later (ap (t ∷◌) rest.1))

pub late-IsSortedFrom :
    (lo now : ℕ) (ts : List Timer) → IsSortedFrom lo ts → IsSortedFrom (now + 1) (late now ts)
unfolding late
late-IsSortedFrom lo now [] s = tt
late-IsSortedFrom lo now (t ∷ ts) s = elim (Bool-cases (ltb now t.timeout)) [
  | inl later ↦
      let now_late : now < t.timeout = ground (arith, later) in
      rw later (omega arith, rw (all_late t.timeout now ts now_late s.1).1 s.1)
  | inr past ↦ rw past (late-IsSortedFrom t.timeout now ts s.1)
]

pub due-push :
    (now : ℕ) (t : Timer) (ts : List Timer) → now < t.timeout → due now (push t ts) ≡ due now ts
unfolding due push
due-push now t [] h = ground arith
due-push now t (u ∷ us) h = ground (arith, due-push now t us h)

pub late-push :
    (now : ℕ) (t : Timer) (ts : List Timer)
    → now < t.timeout
    → late now (push t ts) ≡ push t (late now ts)
unfolding late push
late-push now t [] h = ground arith
late-push now t (u ∷ us) h = ground (arith, late-push now t us h)
