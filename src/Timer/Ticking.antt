-- ===== src/Timer/Ticking.antt =====
-- `Tick` of kernel/timer.cpp: which timers it takes and what it does with them.
use mikansaos.Base.{
  ℕ, zero, suc, ◌+◌, ◌<◌, ◌≤◌, ltb, if◌then◌else◌, ◌≡◌, refl, ap, ◌∙◌, inl, inr, Bool, true, false,
  ◌||◌, List, [], ◌∷◌, length, Bool-cases, arith,
}
use mikansaos.Task.{TaskManager, send_message}
use mikansaos.Timer.{
  Timer, TimerManager, push, is_task_value, next_task_timer, round_of, not_due, task_round,
  message_round, tick_loop, tick, timeout_message,
}
use mikansaos.Timer.Order.{
  IsSortedFrom, due, late, push-IsSortedFrom, late-IsSortedFrom, all_late, due-push, late-push,
}

-- A message for each of the timers but the task timers, in their order.
pub send_all : TaskManager → List Timer → TaskManager
send_all m [] = m
send_all m (t ∷ ts) =
    if is_task_value t.value
    then send_all m ts
    else send_all (send_message m t.task_id (timeout_message t)).1 ts

unfoldable pub has_task_timer : List Timer → Bool
has_task_timer [] = false
has_task_timer (t ∷ ts) = is_task_value t.value || has_task_timer ts

-- The queue with the task timer of the next period for every task timer among the due ones.
unfoldable pub rearm : ℕ → List Timer → List Timer → List Timer
rearm now [] ts = ts
rearm now (d ∷ ds) ts =
    if is_task_value d.value then rearm now ds (push (next_task_timer now) ts) else rearm now ds ts

length-due : (now : ℕ) (ts : List Timer) → length (due now ts) ≤ length ts
unfolding due
length-due now [] = omega arith
length-due now (t ∷ ts) = ground (arith, length-due now ts)

round_late : (now : ℕ) (t : Timer) → now < t.timeout → round_of now t ≡ not_due
unfolding round_of
round_late now t h = ground arith

all_late-round :
    (fuel now : ℕ) (t : Timer) (ts : List Timer) (m : TaskManager) (flag : Bool)
    → now < t.timeout
    → tick_loop fuel now (t ∷ ts) m flag ≡ (t ∷ ts, m, flag)
unfolding tick_loop
all_late-round zero now t ts m flag h = refl
all_late-round (suc fuel) now t ts m flag h = rw (round_late now t h, tick_loop) refl

task_step :
    (fuel now : ℕ) (t : Timer) (ts : List Timer) (m : TaskManager) (flag : Bool)
    → t.timeout ≤ now
    → is_task_value t.value ≡ true
    → tick_loop (suc fuel) now (t ∷ ts) m flag
      ≡ tick_loop fuel now (push (next_task_timer now) ts) m true
unfolding tick_loop round_of
task_step fuel now t ts m flag past task =
    let round : round_of now t ≡ task_round = ground arith in rw (round, tick_loop) refl

message_step :
    (fuel now : ℕ) (t : Timer) (ts : List Timer) (m : TaskManager) (flag : Bool)
    → t.timeout ≤ now
    → is_task_value t.value ≡ false
    → tick_loop (suc fuel) now (t ∷ ts) m flag
      ≡ tick_loop fuel now ts (send_message m t.task_id (timeout_message t)).1 flag
unfolding tick_loop round_of
message_step fuel now t ts m flag past user =
    let round : round_of now t ≡ message_round = ground arith in rw (round, tick_loop) refl

tick_loop-late :
    (fuel now : ℕ) (t : Timer) (ts : List Timer) (m : TaskManager) (flag : Bool)
    → IsSortedFrom t.timeout ts
    → now < t.timeout
    → tick_loop fuel now (t ∷ ts) m flag ≡ (
      rearm now (due now (t ∷ ts)) (late now (t ∷ ts)),
      send_all m (due now (t ∷ ts)),
      flag || has_task_timer (due now (t ∷ ts)),
    )
unfolding send_all has_task_timer rearm
tick_loop-late fuel now t ts m flag s later =
    let (no_due, same) = all_late t.timeout now (t ∷ ts) later (omega arith, s) in
    let as_is : (flag || false) ≡ flag = ground arith in
    all_late-round fuel now t ts m flag later ∙ rw (no_due, same, as_is) refl

-- The loop on timers that are in order, with fuel for those that are due.
tick_loop-due :
    (fuel now lo : ℕ) (ts : List Timer) (m : TaskManager) (flag : Bool)
    → IsSortedFrom lo ts
    → length (due now ts) ≤ fuel
    → tick_loop fuel now ts m flag ≡ (
      rearm now (due now ts) (late now ts),
      send_all m (due now ts),
      flag || has_task_timer (due now ts),
    )
unfolding tick_loop due late send_all has_task_timer rearm
tick_loop-due zero now lo [] m flag s h = ground arith
tick_loop-due (suc fuel) now lo [] m flag s h = ground arith
tick_loop-due zero now lo (t ∷ ts) m flag s h =
    tick_loop-late zero now t ts m flag s.1 (ground (arith, h))
tick_loop-due (suc fuel) now lo (t ∷ ts) m flag s h = elim (Bool-cases (ltb now t.timeout)) [
  | inl later ↦ tick_loop-late (suc fuel) now t ts m flag s.1 (ground (arith, later))
  | inr past ↦ elim (Bool-cases (is_task_value t.value)) [
    | inl task ↦
        (let next = next_task_timer now in
          let after : now < next.timeout = omega arith in
          let ih =
            tick_loop-due fuel now t.timeout (push next ts) m true
              (push-IsSortedFrom t.timeout next ts (ground (arith, past)) s.1)
              (rw (due-push now next ts after) (ground (arith, past, h))) in
          task_step fuel now t ts m flag (ground (arith, past)) task
          ∙ ih
          ∙ rw (due-push now next ts after, late-push now next ts after, past, task) (ground arith))
    | inr user ↦
        message_step fuel now t ts m flag (ground (arith, past)) user
        ∙ tick_loop-due fuel now t.timeout ts (send_message m t.task_id (timeout_message t)).1 flag
            s.1 (ground (arith, past, h))
        ∙ rw (past, user) refl
  ]
]

-- On timers in order, `Tick` takes exactly those whose timeout is not after the new tick: it sends
-- one message for each that is not a task timer, in the order of their timeouts, puts a task timer
-- one period later for each task timer, and reports whether there was one.
pub tick-Fires :
    (s : TimerManager) (m : TaskManager)
    → IsSortedFrom 0 s.timers
    → (let now = s.tick + 1 in
        tick s m ≡ (
          record { tick = now; timers = rearm now (due now s.timers) (late now s.timers) },
          send_all m (due now s.timers),
          has_task_timer (due now s.timers),
        ))
unfolding tick
tick-Fires s m sorted =
    let now = s.tick + 1 in
    rw (tick_loop-due (length s.timers) now 0 s.timers m false sorted (length-due now s.timers))
      refl

rearm-IsSortedFrom :
    (now : ℕ) (ds ts : List Timer)
    → IsSortedFrom (now + 1) ts
    → IsSortedFrom (now + 1) (rearm now ds ts)
unfolding rearm
rearm-IsSortedFrom now [] ts s = s
rearm-IsSortedFrom now (d ∷ ds) ts s = elim (Bool-cases (is_task_value d.value)) [
  | inl task ↦ rw task (
      rearm-IsSortedFrom now ds (push (next_task_timer now) ts)
        (push-IsSortedFrom (now + 1) (next_task_timer now) ts (omega arith) s))
  | inr user ↦ rw user (rearm-IsSortedFrom now ds ts s)
]

-- The timers are in order and all of them are later than the current tick.
abbrev pub IsArmed : TimerManager → Type 0
IsArmed s = IsSortedFrom (s.tick + 1) s.timers

pub IsSortedFrom-zero : (lo : ℕ) (ts : List Timer) → IsSortedFrom lo ts → IsSortedFrom 0 ts
IsSortedFrom-zero lo [] s = tt
IsSortedFrom-zero lo (t ∷ ts) s = (omega arith, s.1)

abbrev pub AllAt : ℕ → List Timer → Type 0
AllAt now [] = Unit {0}
AllAt now (t ∷ ts) = (t.timeout ≡ now) × AllAt now ts

due-AllAt : (now lo : ℕ) (ts : List Timer) → now ≤ lo → IsSortedFrom lo ts → AllAt now (due now ts)
unfolding due
due-AllAt now lo [] h s = tt
due-AllAt now lo (t ∷ ts) h s = elim (Bool-cases (ltb now t.timeout)) [
  | inl later ↦ rw later (due-AllAt now t.timeout ts (omega arith) s.1)
  | inr past ↦ rw past (ground (arith, past), due-AllAt now t.timeout ts (omega arith) s.1)
]

pub timers-tick :
    (s : TimerManager) (m : TaskManager)
    → IsSortedFrom 0 s.timers
    → ((tick s m).0.tick ≡ s.tick + 1)
      × ((tick s m).0.timers
          ≡ rearm (s.tick + 1) (due (s.tick + 1) s.timers) (late (s.tick + 1) s.timers))
      × ((tick s m).2 ≡ has_task_timer (due (s.tick + 1) s.timers))
timers-tick s m sorted =
    let f = tick-Fires s m sorted in
    (
      ap (λ (r : TimerManager × TaskManager × Bool). r.0.tick) f,
      ap (λ (r : TimerManager × TaskManager × Bool). r.0.timers) f,
      ap (λ (r : TimerManager × TaskManager × Bool). r.2) f,
    )

pub tick-IsArmed :
    (s : TimerManager) (m : TaskManager)
    → IsArmed s
    → AllAt (s.tick + 1) (due (s.tick + 1) s.timers) × IsArmed (tick s m).0
tick-IsArmed s m armed =
    let (now, timers, _) = timers-tick s m (IsSortedFrom-zero (s.tick + 1) s.timers armed) in
    (
      due-AllAt (s.tick + 1) (s.tick + 1) s.timers (omega arith) armed,
      rw (timers, now)
          (rearm-IsSortedFrom (s.tick + 1) _ _
            (late-IsSortedFrom (s.tick + 1) (s.tick + 1) s.timers armed)),
    )
