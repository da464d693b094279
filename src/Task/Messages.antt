-- ===== src/Task/Messages.antt =====
-- `SendMessage` and `ReceiveMessage` of kernel/task.cpp: delivery in order, to one task.
use mikansaos.Base.{
  ℕ, zero, suc, ◌+◌, ◌==◌, if◌then◌else◌, ◌≡◌, refl, inl, inr, true, List, [], ◌∷◌, ◌++◌, map,
  length, length-append, Option, none, some, Option-cases, Bool-cases, arith, sym, ◌∙◌,
}
use mathlib.Core.Path.{ap₂}
use mikansaos.ErrorCode.{success}
use mikansaos.Message.{Message}
use mikansaos.Task.{
  Task, TaskManager, find_task, modify_task, wakeup_task, own_level, send_to_task, send_message,
  receive_message, first_msg, rest_msgs,
}
use mikansaos.Task.Store.{map_found, id-find_task, find_task-modify}
use mikansaos.Task.Queues.{woken, wakeup_asleep, wake_ready, find_task-modify_twice}

-- The messages that wait for a task, oldest first.
abbrev pub inbox : Option Task → List Message
inbox none = []
inbox (some t) = t.msgs

-- A wake-up at the task's own level leaves every task's messages as they are.
inbox-wakeup :
    (m : TaskManager) (t : Task) (j : ℕ)
    → inbox (find_task (wakeup_task m t own_level).tasks j) ≡ inbox (find_task m.tasks j)
inbox-wakeup m t j = elim (Bool-cases t.ready_or_running) [
  | inl ready ↦ rw (wake_ready m t own_level ready refl)
  | inr asleep ↦
      let at =
        find_task-modify_twice m.tasks t.id j (λ (u : Task). record u { level = t.level })
          (λ (u : Task). record u { ready_or_running = true }) (λ _. refl) (λ _. refl) in
      rw (wakeup_asleep m t own_level asleep) (same (find_task m.tasks j) at)
]
  where
    same :
        (o : Option Task)
        → find_task (woken m t t.level).tasks j ≡ (
            if t.id == j
            then map_found
                (λ (u : Task). record u { ready_or_running = true })
                (map_found (λ (u : Task). record u { level = t.level }) o)
            else o)
        → inbox (find_task (woken m t t.level).tasks j) ≡ inbox o
    same none e = ground arith
    same (some u) e = ground arith

send_message-some :
    (m : TaskManager) (id : ℕ) (msg : Message) (t : Task)
    → find_task m.tasks id ≡ some t
    → send_message m id msg ≡ (success, send_to_task m t msg)
unfolding send_message
send_message-some m id msg t e = rw (e, send_message)

-- A message to a known task joins the end of that task's messages, and no other task's messages
-- change.
pub inbox-send_message :
    (m : TaskManager) (id j : ℕ) (msg : Message) (t : Task)
    → find_task m.tasks id ≡ some t
    → ((send_message m id msg).0 ≡ success)
      × (inbox (find_task (send_message m id msg).1.tasks j)
          ≡ (if id == j then t.msgs ++ msg ∷ [] else inbox (find_task m.tasks j)))
unfolding send_to_task
inbox-send_message m id j msg t found =
    let add = λ (u : Task). record u { msgs = u.msgs ++ msg ∷ [] } in
    let at = find_task-modify m.tasks t.id j add (λ _. refl) in
    let queued = record m { tasks = modify_task m.tasks t.id add } in
    rw (send_message-some m id msg t found) (
      refl,
      inbox-wakeup queued (add t) j ∙ ground (arith, at, found, id-find_task m.tasks id found),
    )

receive_message-some :
    (m : TaskManager) (id : ℕ) (t : Task)
    → find_task m.tasks id ≡ some t
    → ((receive_message m id).0 ≡ first_msg t.msgs)
      × (find_task (receive_message m id).1.tasks id ≡ some (record t { msgs = rest_msgs t.msgs }))
unfolding receive_message
receive_message-some m id t e =
    let at =
      find_task-modify m.tasks id id (λ (u : Task). record u { msgs = rest_msgs u.msgs })
        (λ _. refl) in
    rw (e, receive_message) (refl, ground (arith, at, e))

-- What a task gets from that many calls of `ReceiveMessage` in a row.
pub receive_all : TaskManager → ℕ → ℕ → List (Option Message)
receive_all m id zero = []
receive_all m id (suc n) = (receive_message m id).0 ∷ receive_all (receive_message m id).1 id n

receive_all-eq :
    (n : ℕ) (m : TaskManager) (id : ℕ) (ms : List Message)
    → n ≡ length ms
    → inbox (find_task m.tasks id) ≡ ms
    → receive_all m id n ≡ map some ms
unfolding receive_all
receive_all-eq zero m id [] e h = refl
receive_all-eq zero m id (x ∷ ms) e h = absurd (omega arith)
receive_all-eq (suc n) m id [] e h = absurd (omega arith)
receive_all-eq (suc n) m id (x ∷ ms) e h = elim (Option-cases (find_task m.tasks id)) [
  | inl none_found ↦ absurd (ground arith)
  | inr (t, found) ↦
      let r = receive_message-some m id t found in
      let all : t.msgs ≡ x ∷ ms = ground (arith, h, found) in
      ap₂ ◌∷◌ (ground (arith, r.0, all))
        (receive_all-eq n (receive_message m id).1 id ms (omega arith) (ground (arith, r.1, all)))
]

-- After a message is sent to a task, as many calls of `ReceiveMessage` as it then has messages
-- return the messages that waited before, in their order, and then the new one.
pub receive_all-send :
    (m : TaskManager) (id : ℕ) (msg : Message) (t : Task)
    → find_task m.tasks id ≡ some t
    → receive_all (send_message m id msg).1 id (length t.msgs + 1) ≡ map some (t.msgs ++ msg ∷ [])
receive_all-send m id msg t found =
    receive_all-eq (length t.msgs + 1) (send_message m id msg).1 id (t.msgs ++ msg ∷ [])
      (sym (length-append t.msgs (msg ∷ [])))
      (ground (arith, (inbox-send_message m id id msg t found).1))
