-- ===== src/Task/Queues.antt =====
-- The run queues of kernel/task.cpp hold exactly the ready tasks, each once, at its level.
use mikansaos.Base.{
  ℕ, ◌+◌, ◌==◌, ltb, if◌then◌else◌, ◌≡◌, ◌≢◌, refl, true, false, List, [], ◌∷◌, ◌++◌, ◌&&◌, Option,
  none, some, arith,
}
use mikansaos.Base.Int.{ℤ, pos, negsuc}
use mikansaos.Base.Maps.{update, count, count-cons, count-snoc}
use mikansaos.Task.{
  Task, TaskManager, find_task, modify_task, remove_task, front, pop_front, new_task_record,
  new_task, rotate_current_run_queue, current_task, switch_task, sleep_task, wakeup_task, own_level,
  level_or, set_ready_or_running, set_level, send_to_task,
}
use mikansaos.Task.Store.{
  map_found, Rises, find_task-modify, Rises-modify, find_task-snoc, Rises-snoc, find_task_high,
}
use mikansaos.Task.Rotate.{rotate-keeps}

-- How often a task must stand in the queue of a level: once if it is ready and at that level.
abbrev pub due : Option Task → ℕ → ℕ
due none lv = 0
due (some t) lv = if t.ready_or_running && t.level == lv then 1 else 0

pub record IsConsistent (m : TaskManager) : Type 0 where
  pub ids : Rises 0 m.tasks m.last_id
  pub queues : (lv id : ℕ) → count id (m.running lv) ≡ due (find_task m.tasks id) lv

pub count-pop_front :
    (a : ℕ) (xs : List ℕ)
    → xs ≢ []
    → count a xs ≡ (if front xs == a then 1 else 0) + count a (pop_front xs)
count-pop_front a [] h = absurd (h refl)
count-pop_front a (x ∷ xs) h = count-cons a x xs

-- `NewTask` adds a task that is in no queue.
pub new_task-IsConsistent : (m : TaskManager) → IsConsistent m → IsConsistent (new_task m).0
unfolding new_task
new_task-IsConsistent m v = record {
  ids = Rises-snoc 0 m.last_id m.tasks (new_task_record (m.last_id + 1)) v.ids (omega arith);
  queues = λ lv id.
      let fresh = new_task_record (m.last_id + 1) in
      ground (
        arith,
        v.queues lv id,
        find_task-snoc 0 m.last_id id m.tasks fresh v.ids (omega arith),
        find_task_high 0 m.last_id id m.tasks v.ids,
      );
}

-- Two writes through the same pointer.
pub find_task-modify_twice :
    (ts : List Task) (id j : ℕ) (f g : Task → Task)
    → ((t : Task) → (f t).id ≡ t.id)
    → ((t : Task) → (g t).id ≡ t.id)
    → find_task (modify_task (modify_task ts id f) id g) j
      ≡ (if id == j then map_found g (map_found f (find_task ts j)) else find_task ts j)
find_task-modify_twice ts id j f g hf hg =
    ground (arith, find_task-modify (modify_task ts id f) id j g hg, find_task-modify ts id j f hf)

abbrev pub woken : TaskManager → Task → ℕ → TaskManager
woken m t lv = record (set_ready_or_running (set_level m t.id lv) t.id true) {
  running = update m.running lv (m.running lv ++ t.id ∷ []);
  level_changed = if ltb m.current_level lv then true else m.level_changed;
}

pub wakeup_asleep :
    (m : TaskManager) (t : Task) (level : ℤ)
    → t.ready_or_running ≡ false
    → wakeup_task m t level ≡ woken m t (level_or level t.level)
unfolding wakeup_task
wakeup_asleep m t level asleep = rw asleep

pub woken-IsConsistent :
    (m : TaskManager) (t : Task) (lv : ℕ)
    → find_task m.tasks t.id ≡ some t
    → t.ready_or_running ≡ false
    → IsConsistent m
    → IsConsistent (woken m t lv)
woken-IsConsistent m t lv found asleep v = record {
  ids =
      Rises-modify 0 m.last_id _ t.id _ (λ _. refl)
        (Rises-modify 0 m.last_id m.tasks t.id _ (λ _. refl) v.ids);
  queues = λ l j. ground (
    arith,
    v.queues l j,
    count-snoc j t.id (m.running lv),
    found,
    find_task-modify_twice m.tasks t.id j (λ (u : Task). record u { level = lv })
        (λ (u : Task). record u { ready_or_running = true }) (λ _. refl) (λ _. refl),
  );
}

-- A wake-up of a task that sleeps puts it at the end of its level's queue.
pub wake-IsConsistent :
    (m : TaskManager) (t : Task) (level : ℤ)
    → find_task m.tasks t.id ≡ some t
    → t.ready_or_running ≡ false
    → IsConsistent m
    → IsConsistent (wakeup_task m t level)
wake-IsConsistent m t level found asleep v =
    rw (wakeup_asleep m t level asleep)
      (woken-IsConsistent m t (level_or level t.level) found asleep v)

-- A wake-up of a ready task at its own level does nothing.
pub wake_ready :
    (m : TaskManager) (t : Task) (level : ℤ)
    → t.ready_or_running ≡ true
    → level_or level t.level ≡ t.level
    → wakeup_task m t level ≡ m
unfolding wakeup_task mikansaos.Task.change_level_running
wake_ready m t (pos level) ready same = ground arith
wake_ready m t (negsuc level) ready same = ground arith

-- So does a rotation that leaves the running task ready.
pub rotate-IsConsistent :
    (m : TaskManager)
    → m.running m.current_level ≢ []
    → IsConsistent m
    → IsConsistent (rotate_current_run_queue m false).0
rotate-IsConsistent m ne v =
    let k = rotate-keeps m false in
    record {
      ids = rw (k.1, k.2) v.ids;
      queues = λ l j. ground (
        arith,
        k.0,
        k.1,
        v.queues l j,
        count-pop_front j (m.running m.current_level) ne,
        count-snoc j (front (m.running m.current_level)) (pop_front (m.running m.current_level)),
      );
    }
