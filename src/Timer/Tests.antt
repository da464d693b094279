-- ===== src/Timer/Tests.antt =====
-- Inputs for the theorems on kernel/timer.cpp.
use mikansaos.Base.{◌≡◌, refl, [], ◌∷◌, arith}
use mikansaos.Base.Int.{pos}
use mikansaos.Task
use mikansaos.Timer.{TimerManager, add_timer, push, tick, task_timer_value}
use mikansaos.Timer.Order.{due, late}
use mikansaos.Timer.Ticking.{rearm, send_all, has_task_timer, tick-Fires}

-- The task timer and a task's timer for tick 1, and the one that never fires.
abbrev sample : TimerManager
sample = record {
  tick = 0;
  timers =
      record { timeout = 1; value = pos 7; task_id = 1 }
      ∷ record { timeout = 1; value = task_timer_value; task_id = 1 }
      ∷ record { timeout = 100; value = pos 0; task_id = 0 }
      ∷ [];
}

add_in_order :
    (add_timer sample (record { timeout = 5; value = pos 1; task_id = 1 })).timers
    ≡ record { timeout = 1; value = pos 7; task_id = 1 }
      ∷ record { timeout = 1; value = task_timer_value; task_id = 1 }
      ∷ record { timeout = 5; value = pos 1; task_id = 1 }
      ∷ record { timeout = 100; value = pos 0; task_id = 0 }
      ∷ []
unfolding add_timer push
add_in_order = refl

tick-Fires_example : tick sample Task.init ≡ (
  record { tick = 1; timers = rearm 1 (due 1 sample.timers) (late 1 sample.timers) },
  send_all Task.init (due 1 sample.timers),
  has_task_timer (due 1 sample.timers),
)
tick-Fires_example = tick-Fires sample Task.init (omega arith, (omega arith, (omega arith, tt)))
