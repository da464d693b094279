-- ===== src/Timer.antt =====
-- kernel/timer.cpp and kernel/timer.hpp: the software timers. The priority queue is the list of its
-- timers in the order of their timeouts; among equal timeouts the source's order is not specified
-- and here the older timer comes first. The tick stays far below 2 ^ 64. The local APIC's registers
-- are left out.
pub mod Order
pub mod Ticking
pub mod Period
mod Tests
use mikansaos.Base.{
  ℕ, zero, suc, ◌+◌, ◌-◌, ◌*◌, ◌/◌, ◌^◌, ◌==◌, ltb, if◌then◌else◌, Bool, true, false, List, [], ◌∷◌,
  length,
}
use mikansaos.Base.Int.{ℤ, pos, negsuc}
use mikansaos.Message.{Message, timer_timeout, timer_arg}
use mikansaos.Task.{TaskManager, send_message, Control, continue, switch_task}

pub record Timer : Type 0 where
  pub timeout : ℕ
  pub value : ℤ
  pub task_id : ℕ

pub record TimerManager : Type 0 where
  pub tick : ℕ
  pub timers : List Timer

abbrev pub timer_freq : ℕ
timer_freq = 100

-- `kTimerFreq * 0.02`, as an integer.
abbrev pub task_timer_period : ℕ
task_timer_period = timer_freq * 2 / 100

-- The smallest `int`.
abbrev pub task_timer_value : ℤ
task_timer_value = negsuc (2 ^ 31 - 1)

-- `t.Value() == kTaskTimerValue`.
abbrev pub is_task_value : ℤ → Bool
is_task_value (pos _) = false
is_task_value (negsuc n) = n == 2 ^ 31 - 1

-- `push` of the priority queue.
pub push : Timer → List Timer → List Timer
push t [] = t ∷ []
push t (u ∷ us) = if ltb t.timeout u.timeout then t ∷ u ∷ us else u ∷ push t us

-- The constructor: the timer that never fires keeps the queue from being empty.
pub init : TimerManager
init = record {
  tick = 0;
  timers = record { timeout = 2 ^ 64 - 1; value = pos 0; task_id = 0 } ∷ [];
}

pub add_timer : TimerManager → Timer → TimerManager
add_timer s t = record s { timers = push t s.timers }

abbrev pub timeout_message : Timer → Message
timeout_message t = record {
  type = timer_timeout;
  src_task_id = 0;
  arg = timer_arg t.timeout t.value;
}

-- The task timer of the next period.
abbrev pub next_task_timer : ℕ → Timer
next_task_timer now = record {
  timeout = now + task_timer_period;
  value = task_timer_value;
  task_id = 1;
}

-- What a round of the loop of `Tick` does with the first timer.
pub data Round : Type 0 where
  not_due task_round message_round : Round

pub round_of : ℕ → Timer → Round
round_of now t =
    if ltb now t.timeout
    then not_due
    else if is_task_value t.value
    then task_round
    else message_round

-- The loop of `Tick`, on fuel: a timer is due at most once in a tick, so the number of timers is
-- enough. The timers, the tasks, and whether the task timer was due.
pub tick_loop : ℕ → ℕ → List Timer → TaskManager → Bool → List Timer × TaskManager × Bool
tick_loop zero now ts m flag = (ts, m, flag)
tick_loop (suc fuel) now [] m flag = ([], m, flag)
tick_loop (suc fuel) now (t ∷ ts) m flag = elim (round_of now t) [
  | not_due ↦ (t ∷ ts, m, flag)
  | task_round ↦ tick_loop fuel now (push (next_task_timer now) ts) m true
  | message_round ↦ tick_loop fuel now ts (send_message m t.task_id (timeout_message t)).1 flag
]

pub tick : TimerManager → TaskManager → TimerManager × TaskManager × Bool
tick s m =
    let now = s.tick + 1 in
    let (ts, m', flag) = tick_loop (length s.timers) now s.timers m false in
    (record { tick = now; timers = ts }, m', flag)

-- `LAPICTimerOnInterrupt`.
pub on_interrupt : TimerManager → TaskManager → TimerManager × TaskManager × Control
on_interrupt s m =
    let (s', m', task_timer_timeout) = tick s m in
    let (switched, control) = switch_task m' in
    if task_timer_timeout then (s', switched, control) else (s', m', continue)
