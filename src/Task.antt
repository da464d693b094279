-- ===== src/Task.antt =====
-- kernel/task.cpp and kernel/task.hpp: tasks, their messages, and the run queues by level.
-- A `Task*` is the task's id, which `NewTask` never gives twice; `none` is a pointer to no task.
-- The stacks, the register contexts and the file tables of a task are left out: an operation that
-- ends in a context switch returns which one it asks for, and the switch itself is assembly.
mod Tests
pub mod Store
pub mod Queues
pub mod Rotate
pub mod Sleep
pub mod Steps
pub mod History
pub mod Schedule
pub mod Messages
pub mod Finish
pub mod Relevel
use mikansaos.Base.{
  ℕ, zero, suc, ◌+◌, ◌==◌, ltb, leb, if◌then◌else◌, Bool, true, false, not, ◌||◌, List, [], ◌∷◌,
  ◌++◌, Option, none, some,
}
use mikansaos.Base.Int.{ℤ, pos, negsuc}
use mikansaos.Base.Maps.{update, erase}
use mikansaos.ErrorCode.{Code, success, no_such_task, WithError}
use mikansaos.Message.{Message}

abbrev pub default_level : ℕ
default_level = 1

-- The highest level; the lowest is 0.
abbrev pub max_level : ℕ
max_level = 3

pub record Task : Type 0 where
  pub id : ℕ
  pub msgs : List Message
  pub level : ℕ
  pub ready_or_running : Bool

-- What the processor is asked to do when an operation ends.
pub data Control : Type 0 where
  continue : Control
  switch_context : (next current : ℕ) → Control
  restore_context : (next : ℕ) → Control

pub record TaskManager : Type 0 where
  pub tasks : List Task
  pub last_id : ℕ
  pub running : ℕ → List ℕ
  pub current_level : ℕ
  pub level_changed : Bool
  pub finish_tasks : ℕ → Option ℤ
  pub finish_waiter : ℕ → Option ℕ

pub find_task : List Task → ℕ → Option Task
find_task [] id = none
find_task (t ∷ ts) id = if t.id == id then some t else find_task ts id

-- A write through a task's pointer.
pub modify_task : List Task → ℕ → (Task → Task) → List Task
modify_task [] id f = []
modify_task (t ∷ ts) id f = if t.id == id then f t ∷ ts else t ∷ modify_task ts id f

pub remove_task : List Task → ℕ → List Task
remove_task [] id = []
remove_task (t ∷ ts) id = if t.id == id then ts else t ∷ remove_task ts id

abbrev pub set_level : TaskManager → ℕ → ℕ → TaskManager
set_level m id level = record m { tasks = modify_task m.tasks id (λ t. record t { level = level }) }

abbrev pub set_ready_or_running : TaskManager → ℕ → Bool → TaskManager
set_ready_or_running m id ready = record m {
  tasks = modify_task m.tasks id (λ t. record t { ready_or_running = ready });
}

-- `front()` of a queue; 0, which is no task's id, where the queue is empty (undefined there).
abbrev pub front : List ℕ → ℕ
front [] = 0
front (id ∷ _) = id

abbrev pub pop_front : List ℕ → List ℕ
pop_front [] = []
pop_front (_ ∷ ids) = ids

abbrev pub is_empty : List ℕ → Bool
is_empty [] = true
is_empty (_ ∷ _) = false

pub current_task : TaskManager → ℕ
current_task m = front (m.running m.current_level)

abbrev pub new_task_record : ℕ → Task
new_task_record id = record { id = id; msgs = []; level = default_level; ready_or_running = false }

-- `NewTask`: the manager and the new task's id.
pub new_task : TaskManager → TaskManager × ℕ
new_task m =
    let id = m.last_id + 1 in
    (record m { last_id = id; tasks = m.tasks ++ new_task_record id ∷ [] }, id)

-- `for (lv = level; lv >= 0; lv--)`: the highest level whose queue has a task.
pub highest_from : (ℕ → List ℕ) → ℕ → Option ℕ
highest_from running zero = if is_empty (running 0) then none else some 0
highest_from running (suc lv) =
    let lower = highest_from running lv in
    if is_empty (running (suc lv)) then lower else some (suc lv)

-- The end of `RotateCurrentRunQueue`: where a level has changed, the highest one with a task.
pub choose_level : TaskManager → TaskManager
choose_level m =
    if m.level_changed
    then elim (highest_from m.running max_level) [
      | none ↦ record m { level_changed = false }
      | some lv ↦ record m { level_changed = false; current_level = lv }
    ]
    else m

-- `RotateCurrentRunQueue`: the manager, and the task that was running.
pub rotate_current_run_queue : TaskManager → Bool → TaskManager × ℕ
rotate_current_run_queue m current_sleep =
    let queue = m.running m.current_level in
    let current = front queue in
    let rest = if current_sleep then pop_front queue else pop_front queue ++ current ∷ [] in
    let popped = record m {
      running = update m.running m.current_level rest;
      level_changed = m.level_changed || is_empty rest;
    } in
    (choose_level popped, current)

-- `SwitchTask`, on the timer's interrupt.
pub switch_task : TaskManager → TaskManager × Control
switch_task m =
    let (m', current) = rotate_current_run_queue m false in
    (m', (if current_task m' == current then continue else restore_context (current_task m')))

-- `Sleep(Task*)`.
pub sleep_task : TaskManager → Task → TaskManager × Control
sleep_task m t =
    if not t.ready_or_running
    then (m, continue)
    else (let m1 = set_ready_or_running m t.id false in
        if t.id == front (m1.running m1.current_level)
        then (let (m2, current) = rotate_current_run_queue m1 true in
            (m2, switch_context (current_task m2) current))
        else (
          record m1 { running = update m1.running t.level (erase t.id (m1.running t.level)) },
          continue,
        ))

-- `Sleep(uint64_t)`.
pub sleep : TaskManager → ℕ → Code × TaskManager × Control
sleep m id = elim (find_task m.tasks id) [
  | none ↦ (no_such_task, m, continue)
  | some t ↦ (let (m', control) = sleep_task m t in (success, m', control))
]

-- `ChangeLevelRunning` from the comment "change self" on.
pub change_self : TaskManager → ℕ → ℕ → TaskManager
change_self m id level =
    let popped = update m.running m.current_level (pop_front (m.running m.current_level)) in
    let pushed = update popped level (id ∷ popped level) in
    record (set_level m id level) {
      running = pushed;
      current_level = level;
      level_changed = if leb m.current_level level then m.level_changed else true;
    }

-- `ChangeLevelRunning`. The first branch does not return: it goes on to `change_self`.
pub change_level_running : TaskManager → Task → ℤ → TaskManager
change_level_running m t (negsuc _) = m
change_level_running m t (pos level) =
    if level == t.level
    then m
    else if t.id == front (m.running m.current_level)
    then change_self m t.id level
    else (let erased = update m.running t.level (erase t.id (m.running t.level)) in
        let moved = record (set_level m t.id level) {
          running = update erased level (erased level ++ t.id ∷ []);
          level_changed = if ltb m.current_level level then true else m.level_changed;
        } in
        change_self moved t.id level)

abbrev pub level_or : ℤ → ℕ → ℕ
level_or (pos level) own = level
level_or (negsuc _) own = own

-- `Wakeup(Task*, int)`.
pub wakeup_task : TaskManager → Task → ℤ → TaskManager
wakeup_task m t level =
    if t.ready_or_running
    then change_level_running m t level
    else (let lv = level_or level t.level in
        record (set_ready_or_running (set_level m t.id lv) t.id true) {
          running = update m.running lv (m.running lv ++ t.id ∷ []);
          level_changed = if ltb m.current_level lv then true else m.level_changed;
        })

-- The level that leaves a task's own as it is, the default argument of `Wakeup`.
abbrev pub own_level : ℤ
own_level = negsuc 0

-- `Wakeup(uint64_t, int)`.
pub wakeup : TaskManager → ℕ → ℤ → Code × TaskManager
wakeup m id level = elim (find_task m.tasks id) [
  | none ↦ (no_such_task, m)
  | some t ↦ (success, wakeup_task m t level)
]

-- `Task::SendMessage`: the message joins the task's queue, and the task is woken.
pub send_to_task : TaskManager → Task → Message → TaskManager
send_to_task m t msg =
    wakeup_task
      (record m { tasks = modify_task m.tasks t.id (λ u. record u { msgs = u.msgs ++ msg ∷ [] }) })
      (record t { msgs = t.msgs ++ msg ∷ [] }) own_level

-- `TaskManager::SendMessage`.
pub send_message : TaskManager → ℕ → Message → Code × TaskManager
send_message m id msg = elim (find_task m.tasks id) [
  | none ↦ (no_such_task, m)
  | some t ↦ (success, send_to_task m t msg)
]

abbrev pub first_msg : List Message → Option Message
first_msg [] = none
first_msg (msg ∷ _) = some msg

abbrev pub rest_msgs : List Message → List Message
rest_msgs [] = []
rest_msgs (_ ∷ msgs) = msgs

-- `Task::ReceiveMessage` through the task's pointer.
pub receive_message : TaskManager → ℕ → Option Message × TaskManager
receive_message m id = elim (find_task m.tasks id) [
  | none ↦ (none, m)
  | some t ↦ (
    first_msg t.msgs,
    record m { tasks = modify_task m.tasks id (λ u. record u { msgs = rest_msgs u.msgs }) },
  )
]

-- The part of `Finish` that wakes the task that waits for the given one, if there is one.
pub wake_waiter : TaskManager → ℕ → TaskManager
wake_waiter m id = elim (m.finish_waiter id) [
  | none ↦ m
  | some waiter ↦
      (wakeup (record m { finish_waiter = update m.finish_waiter id none }) waiter own_level).1
]

-- `Finish`, up to the switch to the next task.
pub finish : TaskManager → ℤ → TaskManager × Control
finish m exit_code =
    let (m1, id) = rotate_current_run_queue m true in
    let m2 = record m1 {
      tasks = remove_task m1.tasks id;
      finish_tasks = update m1.finish_tasks id (some exit_code);
    } in
    let m3 = wake_waiter m2 id in (m3, restore_context (current_task m3))

-- One round of the loop of `WaitFinish`: the exit code, or the caller asleep until it is woken.
pub wait_finish_round : TaskManager → ℕ → Option ℤ × TaskManager × Control
wait_finish_round m task_id = elim (m.finish_tasks task_id) [
  | some exit_code ↦
      (some exit_code, record m { finish_tasks = update m.finish_tasks task_id none }, continue)
  | none ↦
      (let current = current_task m in
        let (_, slept, control) =
          sleep (record m { finish_waiter = update m.finish_waiter task_id (some current) })
            current in
        (none, slept, control))
]

abbrev no_tasks : TaskManager
no_tasks = record {
  tasks = [];
  last_id = 0;
  running = λ _. [];
  current_level = max_level;
  level_changed = false;
  finish_tasks = λ _. none;
  finish_waiter = λ _. none;
}

-- The constructor: the main task at the highest level, running, and the idle task at level 0.
pub init : TaskManager
unfolding new_task modify_task
init =
    let (m1, main_id) = new_task no_tasks in
    let m2 = set_ready_or_running (set_level m1 main_id m1.current_level) main_id true in
    let m3 = record m2 { running = update m2.running m2.current_level (main_id ∷ []) } in
    let (m4, idle_id) = new_task m3 in
    let m5 = set_ready_or_running (set_level m4 idle_id 0) idle_id true in
    record m5 { running = update m5.running 0 (m5.running 0 ++ idle_id ∷ []) }
