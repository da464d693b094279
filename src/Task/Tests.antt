-- ===== src/Task/Tests.antt =====
-- Inputs for the theorems on kernel/task.cpp.
use mikansaos.Base.{ℕ, ◌≡◌, refl, true, false, [], ◌∷◌, ◌++◌, some}
use mikansaos.Base.Int.{pos}
use mikansaos.Base.Maps.{count}
use mikansaos.Message.{Message, key_push, no_arg}
use mikansaos.Task.{
  Task, TaskManager, max_level, find_task, modify_task, remove_task, init, new_task, sleep_task,
  sleep, wakeup_task, wakeup, own_level, send_message, switch_task, finish, wait_finish_round,
  wake_waiter, restore_context, current_task, rotate_current_run_queue, choose_level, highest_from,
  pop_front,
}
use mikansaos.Task.Finish.{ready, finish_wakes_waiter}
use mikansaos.Task.Messages.{receive_all, receive_all-send}
use mikansaos.Task.Rotate.{IsHighest}
use mikansaos.Task.History.{
  Reach, start, next, created, woken, waited, Reach-Inv, switch_task-IsHighest,
}
use mikansaos.Task.Relevel.{wakeup_other-loses_current}

-- Task 3 is created and woken.
abbrev woken_third : TaskManager
woken_third = (wakeup (new_task init).0 3 own_level).1

Reach-woken_third : Reach woken_third
Reach-woken_third = next (next start created) (woken 3)

switch_task-IsHighest_example :
    let m' = (switch_task woken_third).0 in
    IsHighest m'.running max_level m'.current_level
    × (m'.running woken_third.current_level
        ≡ pop_front (woken_third.running woken_third.current_level)
          ++ current_task woken_third ∷ [])
switch_task-IsHighest_example = switch_task-IsHighest Reach-woken_third

-- The main task waits for task 3, which is then the running one.
abbrev waiting : TaskManager
waiting = (wait_finish_round woken_third 3).1

Reach-waiting : Reach waiting
unfolding init new_task wakeup wakeup_task find_task modify_task current_task
Reach-waiting = next Reach-woken_third (waited 3 (λ e. cc))

abbrev main_asleep : Task
main_asleep = record { id = 1; msgs = []; level = 3; ready_or_running = false }

finish_wakes_waiter_example :
    let m' = (finish waiting (pos 5)).0 in
    ((wait_finish_round m' (current_task waiting)).0 ≡ some (pos 5))
    × (ready (find_task m'.tasks 1) ≡ true)
unfolding init new_task wakeup wakeup_task find_task modify_task current_task wait_finish_round
    sleep sleep_task rotate_current_run_queue choose_level highest_from
finish_wakes_waiter_example =
    finish_wakes_waiter waiting (pos 5) 1 main_asleep (Reach-Inv Reach-waiting).consistent refl refl
      (λ e. cc)

-- The exit code goes from the task that finishes to the one that waits, and the waiter runs next.
waiter_runs_next :
    let m' = (finish waiting (pos 5)).0 in
    (current_task waiting ≡ 3)
    × ((finish waiting (pos 5)).1 ≡ restore_context 2)
    × (m'.running 3 ≡ 1 ∷ [])
    × ((switch_task m').1 ≡ restore_context 1)
unfolding init new_task wakeup wakeup_task find_task modify_task current_task wait_finish_round
    sleep sleep_task rotate_current_run_queue choose_level highest_from finish wake_waiter
    remove_task switch_task
waiter_runs_next = (refl, refl, refl, refl)

abbrev key : Message
key = record { type = key_push; src_task_id = 0; arg = no_arg }

abbrev third : Task
third = record { id = 3; msgs = []; level = 1; ready_or_running = true }

receive_all-send_example : receive_all (send_message woken_third 3 key).1 3 1 ≡ some key ∷ []
unfolding init new_task wakeup wakeup_task find_task modify_task
receive_all-send_example = receive_all-send woken_third 3 key third refl

wakeup_other-loses_current_example :
    let m' = wakeup_task woken_third third (pos 2) in
    (count 3 (m'.running 2) ≡ 2) × ((l : ℕ) → count (current_task woken_third) (m'.running l) ≡ 0)
unfolding init new_task wakeup wakeup_task find_task modify_task current_task
wakeup_other-loses_current_example =
    wakeup_other-loses_current woken_third third 2 (Reach-Inv Reach-woken_third) refl refl (λ e. cc)
      (λ e. cc)
