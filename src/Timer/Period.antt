-- ===== src/Timer/Period.antt =====
-- The task timer of kernel/timer.cpp comes back after its period.
use mikansaos.Base.{
  ℕ, ◌+◌, ◌<◌, ◌≤◌, ◌==◌, ◌≡◌, refl, sym, ◌∙◌, inl, inr, Bool, true, false, ◌||◌, ◌&&◌, List, [],
  ◌∷◌, Bool-cases, arith,
}
use mikansaos.Task.{TaskManager}
use mikansaos.Timer.{
  Timer, TimerManager, push, is_task_value, next_task_timer, tick, task_timer_period,
}
use mikansaos.Timer.Order.{due, late}
use mikansaos.Timer.Ticking.{
  rearm, has_task_timer, timers-tick, IsArmed, IsSortedFrom-zero, tick-IsArmed,
}

-- There is a task timer with this timeout.
pub armed : ℕ → List Timer → Bool
armed at [] = false
armed at (t ∷ ts) = (is_task_value t.value && t.timeout == at) || armed at ts

armed-push :
    (at : ℕ) (t : Timer) (ts : List Timer)
    → armed at (push t ts) ≡ ((is_task_value t.value && t.timeout == at) || armed at ts)
unfolding armed push
armed-push at t [] = refl
armed-push at t (u ∷ us) = ground (arith, armed-push at t us)

armed-late : (at now : ℕ) (ts : List Timer) → now < at → armed at (late now ts) ≡ armed at ts
unfolding armed late
armed-late at now [] h = refl
armed-late at now (t ∷ ts) h = ground (arith, armed-late at now ts h)

armed-rearm :
    (at now : ℕ) (ds ts : List Timer) → armed at ts ≡ true → armed at (rearm now ds ts) ≡ true
unfolding rearm
armed-rearm at now [] ts h = h
armed-rearm at now (d ∷ ds) ts h = elim (Bool-cases (is_task_value d.value)) [
  | inl task ↦
      let kept : armed at (push (next_task_timer now) ts) ≡ true =
        ground (arith, armed-push at (next_task_timer now) ts, h) in
      rw task (armed-rearm at now ds (push (next_task_timer now) ts) kept)
  | inr user ↦ rw user (armed-rearm at now ds ts h)
]

rearm-armed :
    (now : ℕ) (ds ts : List Timer)
    → has_task_timer ds ≡ true
    → armed (now + task_timer_period) (rearm now ds ts) ≡ true
unfolding rearm has_task_timer
rearm-armed now [] ts h = cc
rearm-armed now (d ∷ ds) ts h = elim (Bool-cases (is_task_value d.value)) [
  | inl task ↦
      let at = now + task_timer_period in
      let new : armed at (push (next_task_timer now) ts) ≡ true =
        ground (arith, armed-push at (next_task_timer now) ts) in
      rw task (armed-rearm at now ds (push (next_task_timer now) ts) new)
  | inr user ↦ rw user (rearm-armed now ds ts (ground (arith, user, h)))
]

due-armed :
    (at now : ℕ) (ts : List Timer)
    → at ≤ now
    → armed at ts ≡ true
    → has_task_timer (due now ts) ≡ true
unfolding armed has_task_timer due
due-armed at now [] h a = a
due-armed at now (t ∷ ts) h a = ground (arith, due-armed at now ts h)

-- Where all timers are later than the current tick and this `Tick` finds the task timer due, so does
-- the second `Tick` after it, whatever the tasks do in between.
pub tick-comes_back :
    (s : TimerManager) (m m' m'' : TaskManager)
    → IsArmed s
    → (tick s m).2 ≡ true
    → (tick (tick (tick s m).0 m').0 m'').2 ≡ true
tick-comes_back s m m' m'' ready fired =
    let s1 = (tick s m).0 in
    let s2 = (tick s1 m').0 in
    let ready1 = (tick-IsArmed s m ready).1 in
    let ready2 = (tick-IsArmed s1 m' ready1).1 in
    let (now, timers, flag) = timers-tick s m (IsSortedFrom-zero _ _ ready) in
    let (now1, timers1, flag1) = timers-tick s1 m' (IsSortedFrom-zero _ _ ready1) in
    let (now2, timers2, flag2) = timers-tick s2 m'' (IsSortedFrom-zero _ _ ready2) in
    let at = s.tick + 1 + task_timer_period in
    let a1 : armed at s1.timers ≡ true =
      rw timers (rearm-armed (s.tick + 1) _ _ (sym flag ∙ fired)) in
    let a2 : armed at s2.timers ≡ true = rw timers1 (
      armed-rearm at (s1.tick + 1) _ _
        (armed-late at (s1.tick + 1) s1.timers (omega (arith, now)) ∙ a1)) in
    flag2 ∙ due-armed at (s2.tick + 1) s2.timers (omega (arith, now, now1)) a2
