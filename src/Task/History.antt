-- ===== src/Task/History.antt =====
-- Histories of calls on the task manager of kernel/task.cpp, from its constructor on.
use mikansaos.Base.{ℕ, ◌≤◌, ◌≡◌, ◌≢◌, refl, false, List, [], ◌∷◌, ◌++◌, some, arith, ap, sym, ◌∙◌}
use mikansaos.Base.Int.{ℤ}
use mikansaos.Base.Maps.{update_self, count}
use mikansaos.Message.{Message}
use mikansaos.Task.{
  Task, TaskManager, max_level, find_task, front, pop_front, current_task, own_level, init,
  new_task, modify_task, switch_task, sleep, wakeup, send_message, receive_message, finish,
  wait_finish_round, change_self,
}
use mikansaos.Task.Rotate.{IsHighest, rotate-IsHighest, rotate-keeps}
use mikansaos.Task.Schedule.{Inv, idle_id, new_task-Inv, snoc-ne-nil}
use mikansaos.Task.Relevel.{change_self-Inv}
use mikansaos.Task.Steps.{
  switch_task-Inv, sleep-Inv, wakeup-Inv, send_message-Inv, receive_message-Inv, finish-Inv,
  wait_finish_round-Inv,
}

-- A call on the manager. The idle task neither sleeps nor finishes nor waits, as its code does not,
-- and no task but the running one is moved to another level.
pub data Step (m : TaskManager) : TaskManager → Type 0 where
  created : Step m (new_task m).0
  switched : Step m (switch_task m).0
  slept : (id : ℕ) → id ≢ idle_id → Step m (sleep m id).1
  woken : (id : ℕ) → Step m (wakeup m id own_level).1
  sent : (id : ℕ) (msg : Message) → Step m (send_message m id msg).1
  received : (id : ℕ) → Step m (receive_message m id).1
  finished : (exit_code : ℤ) → current_task m ≢ idle_id → Step m (finish m exit_code).0
  waited : (id : ℕ) → current_task m ≢ idle_id → Step m (wait_finish_round m id).1
  releveled :
      (t : Task) (level : ℕ)
      → find_task m.tasks t.id ≡ some t
      → t.id ≡ current_task m
      → t.id ≢ idle_id
      → level ≢ t.level
      → level ≤ max_level
      → Step m (change_self m t.id level)

pub data Reach : TaskManager → Type 0 where
  start : Reach init
  next : {m n : TaskManager} → Reach m → Step m n → Reach n

Step-Inv : {m n : TaskManager} → Step m n → Inv m → Inv n
Step-Inv {m} created v = new_task-Inv m v
Step-Inv {m} switched v = switch_task-Inv m v
Step-Inv {m} (slept id h) v = sleep-Inv m id h v
Step-Inv {m} (woken id) v = wakeup-Inv m id v
Step-Inv {m} (sent id msg) v = send_message-Inv m id msg v
Step-Inv {m} (received id) v = receive_message-Inv m id v
Step-Inv {m} (finished x h) v = finish-Inv m x h v
Step-Inv {m} (waited id h) v = wait_finish_round-Inv m id h v
Step-Inv {m} (releveled t level found same working other bound) v =
    change_self-Inv m t level found same working other bound v

init-Inv : Inv init
unfolding init new_task modify_task find_task count
init-Inv = record {
  consistent = record { ids = ground arith; queues = λ lv id. ground arith };
  scheduled = record {
    within = ground arith;
    alive = λ e. cc;
    top = λ c l lo hi. absurd (omega arith);
  };
  idle = refl;
}

pub Reach-Inv : {m : TaskManager} → Reach m → Inv m
Reach-Inv start = init-Inv
Reach-Inv (next r s) = Step-Inv s (Reach-Inv r)

-- After the timer's switch in any state that a history of calls from the constructor leads to, the
-- running task is at the highest level that has a task, and the task that ran before is at the end
-- of the queue whose head it was.
pub switch_task-IsHighest :
    {m : TaskManager}
    → Reach m
    → let m' = (switch_task m).0 in
      IsHighest m'.running max_level m'.current_level
      × (m'.running m.current_level ≡ pop_front (m.running m.current_level) ++ current_task m ∷ [])
unfolding switch_task current_task
switch_task-IsHighest {m} r =
    let queue = m.running m.current_level in
    let v = (Reach-Inv r).scheduled in
    let moved = update_self m.running m.current_level (pop_front queue ++ front queue ∷ []) in
    (
      rotate-IsHighest m false m.current_level v v.within
          (λ e. snoc-ne-nil (pop_front queue) (front queue) (sym moved ∙ e)),
      ap (λ (f : ℕ → List ℕ). f m.current_level) (rotate-keeps m false).0 ∙ moved,
    )
