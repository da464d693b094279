-- ===== src/Task/Finish.antt =====
-- `Finish` and `WaitFinish` of kernel/task.cpp: the exit code reaches the task that waits for it.
use mikansaos.Base.{
  ℕ, ◌≡◌, ◌≢◌, refl, inl, inr, Bool, true, false, [], Option, none, some, Option-cases, Bool-cases,
  arith, ap, ◌∙◌,
}
use mathlib.Core.Path.{subst}
use mikansaos.Base.Int.{ℤ}
use mikansaos.Base.Maps.{update, update_self}
use mikansaos.Task.{
  Task, TaskManager, find_task, remove_task, rotate_current_run_queue, current_task, wakeup_task,
  wakeup, own_level, wake_waiter, finish, wait_finish_round,
}
use mikansaos.Task.Store.{id-find_task, find_task_self, find_task-remove, Rises-remove}
use mikansaos.Task.Rotate.{rotate-keeps}
use mikansaos.Task.Queues.{
  IsConsistent, count-pop_front, wakeup_asleep, wake_ready, find_task-modify_twice,
}
use mikansaos.Task.Sleep.{current-due, wakeup_id-IsConsistent}

-- The manager inside `Finish`, once the running task is out of its queue and of the tasks.
abbrev pub gone : TaskManager → ℤ → TaskManager
gone m exit_code =
    let m1 = (rotate_current_run_queue m true).0 in
    record m1 {
      tasks = remove_task m1.tasks (current_task m);
      finish_tasks = update m1.finish_tasks (current_task m) (some exit_code);
    }

pub gone-IsConsistent :
    (m : TaskManager) (exit_code : ℤ)
    → m.running m.current_level ≢ []
    → IsConsistent m
    → IsConsistent (gone m exit_code)
unfolding current_task
gone-IsConsistent m exit_code ne v =
    let k = rotate-keeps m true in
    record {
      ids = rw (k.1, k.2) (Rises-remove 0 m.last_id (current_task m) m.tasks v.ids);
      queues = λ l j. ground (
        arith,
        k.0,
        k.1,
        v.queues l j,
        current-due m v ne,
        count-pop_front j (m.running m.current_level) ne,
        find_task-remove 0 m.last_id (current_task m) j m.tasks v.ids,
      );
    }

pub finish-eq :
    (m : TaskManager) (exit_code : ℤ)
    → (finish m exit_code).0 ≡ wake_waiter (gone m exit_code) (current_task m)
unfolding finish rotate_current_run_queue current_task
finish-eq m exit_code = refl

pub wake_waiter-none : (m : TaskManager) (id : ℕ) → m.finish_waiter id ≡ none → wake_waiter m id ≡ m
unfolding wake_waiter
wake_waiter-none m id e = rw (e, wake_waiter)

pub wake_waiter-some :
    (m : TaskManager) (id waiter : ℕ)
    → m.finish_waiter id ≡ some waiter
    → wake_waiter m id
      ≡ (wakeup (record m { finish_waiter = update m.finish_waiter id none }) waiter own_level).1
unfolding wake_waiter
wake_waiter-some m id waiter e = rw (e, wake_waiter)

wake_waiter-IsConsistent :
    (m : TaskManager) (id : ℕ) → IsConsistent m → IsConsistent (wake_waiter m id)
wake_waiter-IsConsistent m id v = elim (Option-cases (m.finish_waiter id)) [
  | inl e ↦ rw (wake_waiter-none m id e) v
  | inr (w, e) ↦
      rw (wake_waiter-some m id w e)
        (wakeup_id-IsConsistent _ w (record { ids = v.ids; queues = v.queues }))
]

pub finish-IsConsistent :
    (m : TaskManager) (exit_code : ℤ)
    → m.running m.current_level ≢ []
    → IsConsistent m
    → IsConsistent (finish m exit_code).0
finish-IsConsistent m exit_code ne v = rw (finish-eq m exit_code) (
    wake_waiter-IsConsistent (gone m exit_code) (current_task m)
      (gone-IsConsistent m exit_code ne v))

-- Whether the id is that of a task that is ready or running.
abbrev pub ready : Option Task → Bool
ready none = false
ready (some t) = t.ready_or_running

-- A wake-up at the task's own level makes it ready, and leaves the exit codes alone.
pub wakeup_own-ready :
    (m : TaskManager) (t : Task)
    → find_task m.tasks t.id ≡ some t
    → (ready (find_task (wakeup_task m t own_level).tasks t.id) ≡ true)
      × ((wakeup_task m t own_level).finish_tasks ≡ m.finish_tasks)
wakeup_own-ready m t found = elim (Bool-cases t.ready_or_running) [
  | inl r ↦ rw (wake_ready m t own_level r refl, found) (r, refl)
  | inr asleep ↦ rw (wakeup_asleep m t own_level asleep) (
    let at =
          find_task-modify_twice m.tasks t.id t.id (λ (u : Task). record u { level = t.level })
            (λ (u : Task). record u { ready_or_running = true }) (λ _. refl) (λ _. refl) in
        ground (arith, at, found),
    refl,
  )
]

wakeup_id-some :
    (m : TaskManager) (id : ℕ) (t : Task)
    → find_task m.tasks id ≡ some t
    → (wakeup m id own_level).1 ≡ wakeup_task m t own_level
unfolding wakeup
wakeup_id-some m id t e = rw (e, wakeup)

wait_finish_round-some :
    (m : TaskManager) (id : ℕ) (exit_code : ℤ)
    → m.finish_tasks id ≡ some exit_code
    → (wait_finish_round m id).0 ≡ some exit_code
unfolding wait_finish_round
wait_finish_round-some m id exit_code e = rw (e, wait_finish_round)

-- The manager that the waiting task is woken in.
abbrev waking : TaskManager → ℤ → TaskManager
waking m exit_code =
    let g = gone m exit_code in
    record g { finish_waiter = update g.finish_waiter (current_task m) none }

finish-waking :
    (m : TaskManager) (exit_code : ℤ) (waiter : ℕ) (t : Task)
    → m.finish_waiter (current_task m) ≡ some waiter
    → find_task (gone m exit_code).tasks waiter ≡ some t
    → (finish m exit_code).0 ≡ wakeup_task (waking m exit_code) t own_level
finish-waking m exit_code waiter t waits found =
    let c = current_task m in
    let g = gone m exit_code in
    let w : g.finish_waiter c ≡ some waiter =
      ap (λ (f : ℕ → Option ℕ). f c) (rotate-keeps m true).4 ∙ waits in
    finish-eq m exit_code
    ∙ wake_waiter-some g c waiter w
    ∙ wakeup_id-some (waking m exit_code) waiter t found

found-gone :
    (m : TaskManager) (exit_code : ℤ) (id : ℕ) (t : Task)
    → IsConsistent m
    → find_task m.tasks id ≡ some t
    → id ≢ current_task m
    → find_task (gone m exit_code).tasks id ≡ some t
found-gone m exit_code id t v found ne =
    let removed = find_task-remove 0 m.last_id (current_task m) id m.tasks v.ids in
    ground (arith, (rotate-keeps m true).1, removed, found)

-- When the running task finishes and another task waits for it, that task is ready afterwards, and
-- its next round of `WaitFinish` returns the exit code.
pub finish_wakes_waiter :
    (m : TaskManager) (exit_code : ℤ) (waiter : ℕ) (t : Task)
    → IsConsistent m
    → m.finish_waiter (current_task m) ≡ some waiter
    → find_task m.tasks waiter ≡ some t
    → waiter ≢ current_task m
    → let m' = (finish m exit_code).0 in
      ((wait_finish_round m' (current_task m)).0 ≡ some exit_code)
      × (ready (find_task m'.tasks waiter) ≡ true)
finish_wakes_waiter m exit_code waiter t v waits found ne =
    let c = current_task m in
    let kept = found-gone m exit_code waiter t v found ne in
    let same = id-find_task m.tasks waiter found in
    let w =
      wakeup_own-ready (waking m exit_code) t
        (find_task_self (gone m exit_code).tasks waiter kept) in
    rw (finish-waking m exit_code waiter t waits kept) (
      wait_finish_round-some _ c exit_code (
          ap (λ (f : ℕ → Option ℤ). f c) w.1
          ∙ update_self (rotate_current_run_queue m true).0.finish_tasks c (some exit_code)),
      subst
          (λ (k : ℕ).
            ready (find_task (wakeup_task (waking m exit_code) t own_level).tasks k) ≡ true)
          same w.0,
    )
