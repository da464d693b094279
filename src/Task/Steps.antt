-- ===== src/Task/Steps.antt =====
-- Every history of calls on the task manager of kernel/task.cpp keeps its invariant.
use mikansaos.Base.{
  ℕ, ◌==◌, ◌≡◌, ◌≢◌, refl, inl, inr, List, [], ◌∷◌, ◌++◌, Option, none, some, Option-cases,
  Bool-cases, ==_iff, arith, sym, ◌∙◌,
}
use mikansaos.Base.Int.{ℤ}
use mikansaos.Base.Maps.{update}
use mikansaos.Message.{Message}
use mikansaos.Task.{
  Task, TaskManager, find_task, modify_task, current_task, own_level, switch_task, sleep_task,
  sleep, wakeup_task, wakeup, send_to_task, send_message, receive_message, rest_msgs, wake_waiter,
  finish, wait_finish_round,
}
use mikansaos.Task.Store.{map_found, id-find_task, find_task_self, find_task-modify, Rises-modify}
use mikansaos.Task.Queues.{due, wakeup_asleep, wake_ready}
use mikansaos.Task.Sleep.{sleep_task-front, sleep_task-other, sleep_task-asleep}
use mikansaos.Task.Finish.{gone, finish-eq, wake_waiter-none, wake_waiter-some}
use mikansaos.Task.Schedule.{
  Inv, idle_id, rotate-Inv, woken-Inv, sleep_other-Inv, sleep_front-Inv, gone-Inv,
}

pub wakeup_task-Inv :
    (m : TaskManager) (t : Task)
    → find_task m.tasks t.id ≡ some t
    → Inv m
    → Inv (wakeup_task m t own_level)
wakeup_task-Inv m t found v = elim (Bool-cases t.ready_or_running) [
  | inl ready ↦ rw (wake_ready m t own_level ready refl) v
  | inr asleep ↦ rw (wakeup_asleep m t own_level asleep) (woken-Inv m t t.level found asleep v)
]

pub wakeup-Inv : (m : TaskManager) (id : ℕ) → Inv m → Inv (wakeup m id own_level).1
unfolding wakeup
wakeup-Inv m id v = elim (Option-cases (find_task m.tasks id)) [
  | inl e ↦ rw (e, wakeup) v
  | inr (t, e) ↦ rw (e, wakeup) (wakeup_task-Inv m t (find_task_self m.tasks id e) v)
]

sleep_task-Inv :
    (m : TaskManager) (t : Task)
    → find_task m.tasks t.id ≡ some t
    → t.id ≢ idle_id
    → Inv m
    → Inv (sleep_task m t).0
sleep_task-Inv m t found working v = elim (Bool-cases t.ready_or_running) [
  | inr asleep ↦ rw (sleep_task-asleep m t asleep) v
  | inl ready ↦ elim (Bool-cases (t.id == current_task m)) [
    | inl e ↦
        let same = (==_iff t.id (current_task m)).0 e in
        rw (sleep_task-front m t ready same) (sleep_front-Inv m t found same working v)
    | inr e ↦
        let other : t.id ≢ current_task m = ground arith in
        rw (sleep_task-other m t ready e) (sleep_other-Inv m t found ready other working v)
  ]
]

pub sleep-Inv : (m : TaskManager) (id : ℕ) → id ≢ idle_id → Inv m → Inv (sleep m id).1
unfolding sleep
sleep-Inv m id working v = elim (Option-cases (find_task m.tasks id)) [
  | inl e ↦ rw (e, sleep) v
  | inr (t, e) ↦
      rw (e, sleep)
        (sleep_task-Inv m t (find_task_self m.tasks id e)
          (λ k. working (sym (id-find_task m.tasks id e) ∙ k)) v)
]

-- A write to the messages of a task.
messages-Inv :
    (m : TaskManager) (id : ℕ) (f : List Message → List Message)
    → Inv m
    → Inv (record m { tasks = modify_task m.tasks id (λ u. record u { msgs = f u.msgs }) })
messages-Inv m id f v =
    let w = λ (u : Task). record u { msgs = f u.msgs } in
    record {
      consistent = record {
        ids = Rises-modify 0 m.last_id m.tasks id w (λ _. refl) v.consistent.ids;
        queues = λ l j. v.consistent.queues l j ∙ due-messages m.tasks id j f l;
      };
      scheduled = record {
        within = v.scheduled.within;
        alive = v.scheduled.alive;
        top = v.scheduled.top;
      };
      idle = v.idle;
    }
  where
    same_due :
        (o : Option Task) (f : List Message → List Message) (l : ℕ)
        → due o l ≡ due (map_found (λ u. record u { msgs = f u.msgs }) o) l
    same_due none f l = refl
    same_due (some t) f l = refl

    due-messages :
        (ts : List Task) (id j : ℕ) (f : List Message → List Message) (l : ℕ)
        → due (find_task ts j) l
          ≡ due (find_task (modify_task ts id (λ u. record u { msgs = f u.msgs })) j) l
    due-messages ts id j f l =
        let at =
          find_task-modify ts id j (λ (u : Task). record u { msgs = f u.msgs }) (λ _. refl) in
        ground (arith, at, same_due (find_task ts j) f l)

pub send_message-Inv :
    (m : TaskManager) (id : ℕ) (msg : Message) → Inv m → Inv (send_message m id msg).1
unfolding send_message send_to_task
send_message-Inv m id msg v = elim (Option-cases (find_task m.tasks id)) [
  | inl e ↦ rw (e, send_message) v
  | inr (t, e) ↦
      let add = λ (u : Task). record u { msgs = u.msgs ++ msg ∷ [] } in
      let at = find_task-modify m.tasks t.id t.id add (λ _. refl) in
      rw (e, send_message)
        (wakeup_task-Inv _ (add t) (ground (arith, at, find_task_self m.tasks id e))
          (messages-Inv m t.id (λ ms. ms ++ msg ∷ []) v))
]

pub receive_message-Inv : (m : TaskManager) (id : ℕ) → Inv m → Inv (receive_message m id).1
unfolding receive_message
receive_message-Inv m id v = elim (Option-cases (find_task m.tasks id)) [
  | inl e ↦ rw (e, receive_message) v
  | inr (t, e) ↦ rw (e, receive_message) (messages-Inv m id rest_msgs v)
]

-- A change of the two maps of `Finish` and `WaitFinish` alone.
maps-Inv :
    (m : TaskManager) (codes : ℕ → Option ℤ) (waiters : ℕ → Option ℕ)
    → Inv m
    → Inv (record m { finish_tasks = codes; finish_waiter = waiters })
maps-Inv m codes waiters v = record {
  consistent = record { ids = v.consistent.ids; queues = v.consistent.queues };
  scheduled = record {
    within = v.scheduled.within;
    alive = v.scheduled.alive;
    top = v.scheduled.top;
  };
  idle = v.idle;
}

wake_waiter-Inv : (m : TaskManager) (id : ℕ) → Inv m → Inv (wake_waiter m id)
wake_waiter-Inv m id v = elim (Option-cases (m.finish_waiter id)) [
  | inl e ↦ rw (wake_waiter-none m id e) v
  | inr (w, e) ↦
      rw (wake_waiter-some m id w e)
        (wakeup-Inv _ w (maps-Inv m m.finish_tasks (update m.finish_waiter id none) v))
]

pub finish-Inv :
    (m : TaskManager) (exit_code : ℤ)
    → current_task m ≢ idle_id
    → Inv m
    → Inv (finish m exit_code).0
finish-Inv m exit_code busy v =
    rw (finish-eq m exit_code)
      (wake_waiter-Inv (gone m exit_code) (current_task m) (gone-Inv m exit_code busy v))

pub wait_finish_round-Inv :
    (m : TaskManager) (id : ℕ) → current_task m ≢ idle_id → Inv m → Inv (wait_finish_round m id).1
unfolding wait_finish_round
wait_finish_round-Inv m id busy v = elim (Option-cases (m.finish_tasks id)) [
  | inl e ↦
      let waiters = update m.finish_waiter id (some (current_task m)) in
      rw (e, wait_finish_round)
        (sleep-Inv _ (current_task m) busy (maps-Inv m m.finish_tasks waiters v))
  | inr (x, e) ↦
      rw (e, wait_finish_round) (maps-Inv m (update m.finish_tasks id none) m.finish_waiter v)
]

pub switch_task-Inv : (m : TaskManager) → Inv m → Inv (switch_task m).0
unfolding switch_task
switch_task-Inv m v = rotate-Inv m v
