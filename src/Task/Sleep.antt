-- ===== src/Task/Sleep.antt =====
-- `Sleep`, `Wakeup` at a task's own level, `SendMessage` and `Finish` of kernel/task.cpp keep the
-- run queues consistent with the tasks.
use mikansaos.Base.{
  ℕ, ◌≤◌, ◌==◌, ◌≡◌, ◌≢◌, refl, inl, inr, true, false, [], ◌∷◌, ◌++◌, Option, none, some,
  Bool-cases, ==_iff, arith,
}
use mikansaos.Base.Maps.{update, erase, count-erase}
use mikansaos.Message.{Message}
use mikansaos.Task.{
  Task, TaskManager, find_task, rotate_current_run_queue, current_task, sleep_task, wakeup_task,
  wakeup, own_level, set_ready_or_running, send_to_task,
}
use mikansaos.Task.Store.{find_task_self, find_task-modify, Rises-modify}
use mikansaos.Task.Rotate.{rotate-keeps}
use mikansaos.Task.Queues.{IsConsistent, due, count-pop_front, wake-IsConsistent, wake_ready}

pub sleep_task-front :
    (m : TaskManager) (t : Task)
    → t.ready_or_running ≡ true
    → t.id ≡ current_task m
    → (sleep_task m t).0 ≡ (rotate_current_run_queue (set_ready_or_running m t.id false) true).0
unfolding sleep_task current_task
sleep_task-front m t ready e = rw (ready, (==_iff _ _).1 e)

pub sleep_task-other :
    (m : TaskManager) (t : Task)
    → t.ready_or_running ≡ true
    → (t.id == current_task m) ≡ false
    → (sleep_task m t).0 ≡ record (set_ready_or_running m t.id false) {
      running = update m.running t.level (erase t.id (m.running t.level));
    }
unfolding sleep_task current_task
sleep_task-other m t ready e = rw (ready, e)

pub sleep_task-asleep :
    (m : TaskManager) (t : Task) → t.ready_or_running ≡ false → (sleep_task m t).0 ≡ m
unfolding sleep_task
sleep_task-asleep m t asleep = rw asleep

due-le : (o : Option Task) (lv : ℕ) → due o lv ≤ 1
due-le none lv = omega arith
due-le (some t) lv = ground arith

-- The task at the head of the current queue is a ready task of the current level.
pub current-due :
    (m : TaskManager)
    → IsConsistent m
    → m.running m.current_level ≢ []
    → due (find_task m.tasks (current_task m)) m.current_level ≡ 1
unfolding current_task
current-due m v ne =
    let c = current_task m in
    ground (
      arith,
      v.queues m.current_level c,
      count-pop_front c (m.running m.current_level) ne,
      due-le (find_task m.tasks c) m.current_level,
    )

pub front-IsConsistent :
    (m : TaskManager) (t : Task)
    → find_task m.tasks t.id ≡ some t
    → t.id ≡ current_task m
    → m.running m.current_level ≢ []
    → IsConsistent m
    → IsConsistent (rotate_current_run_queue (set_ready_or_running m t.id false) true).0
unfolding current_task
front-IsConsistent m t found e ne v =
    let k = rotate-keeps (set_ready_or_running m t.id false) true in
    record {
      ids = rw (k.1, k.2) (Rises-modify 0 m.last_id m.tasks t.id _ (λ _. refl) v.ids);
      queues = λ l j. ground (
        arith,
        k.0,
        k.1,
        found,
        e,
        v.queues l j,
        current-due m v ne,
        count-pop_front j (m.running m.current_level) ne,
        find_task-modify m.tasks t.id j (λ (u : Task). record u { ready_or_running = false })
            (λ _. refl),
      );
    }

pub other-IsConsistent :
    (m : TaskManager) (t : Task)
    → find_task m.tasks t.id ≡ some t
    → t.ready_or_running ≡ true
    → IsConsistent m
    → IsConsistent (record (set_ready_or_running m t.id false) {
      running = update m.running t.level (erase t.id (m.running t.level));
    })
other-IsConsistent m t found ready v = record {
  ids = Rises-modify 0 m.last_id m.tasks t.id _ (λ _. refl) v.ids;
  queues = λ l j. ground (
    arith,
    found,
    v.queues l j,
    count-erase j t.id (m.running t.level),
    find_task-modify m.tasks t.id j (λ (u : Task). record u { ready_or_running = false })
        (λ _. refl),
  );
}

pub sleep_task-IsConsistent :
    (m : TaskManager) (t : Task)
    → find_task m.tasks t.id ≡ some t
    → m.running m.current_level ≢ []
    → IsConsistent m
    → IsConsistent (sleep_task m t).0
sleep_task-IsConsistent m t found ne v = elim (Bool-cases t.ready_or_running) [
  | inr asleep ↦ rw (sleep_task-asleep m t asleep) v
  | inl ready ↦ elim (Bool-cases (t.id == current_task m)) [
    | inl e ↦
        rw (sleep_task-front m t ready ((==_iff _ _).0 e))
          (front-IsConsistent m t found ((==_iff _ _).0 e) ne v)
    | inr e ↦ rw (sleep_task-other m t ready e) (other-IsConsistent m t found ready v)
  ]
]

-- A wake-up that keeps a ready task at its level.
pub wakeup_own-IsConsistent :
    (m : TaskManager) (t : Task)
    → find_task m.tasks t.id ≡ some t
    → IsConsistent m
    → IsConsistent (wakeup_task m t own_level)
wakeup_own-IsConsistent m t found v = elim (Bool-cases t.ready_or_running) [
  | inl ready ↦ rw (wake_ready m t own_level ready refl) v
  | inr asleep ↦ wake-IsConsistent m t own_level found asleep v
]

pub wakeup_id-IsConsistent :
    (m : TaskManager) (id : ℕ) → IsConsistent m → IsConsistent (wakeup m id own_level).1
unfolding wakeup
wakeup_id-IsConsistent m id v = go (find_task m.tasks id) refl
  where
    go : (o : Option Task) → find_task m.tasks id ≡ o → IsConsistent (wakeup m id own_level).1
    go none e = rw (e, wakeup) v
    go (some t) e = rw (e, wakeup) (wakeup_own-IsConsistent m t (find_task_self m.tasks id e) v)

pub send_to_task-IsConsistent :
    (m : TaskManager) (t : Task) (msg : Message)
    → find_task m.tasks t.id ≡ some t
    → IsConsistent m
    → IsConsistent (send_to_task m t msg)
unfolding send_to_task
send_to_task-IsConsistent m t msg found v =
    let add = λ (u : Task). record u { msgs = u.msgs ++ msg ∷ [] } in
    let at = λ (j : ℕ). find_task-modify m.tasks t.id j add (λ _. refl) in
    wakeup_own-IsConsistent _ _ (ground (arith, at t.id, found)) (record {
      ids = Rises-modify 0 m.last_id m.tasks t.id _ (λ _. refl) v.ids;
      queues = λ l j. ground (arith, at j, found, v.queues l j);
    })
