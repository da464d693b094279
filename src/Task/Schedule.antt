-- ===== src/Task/Schedule.antt =====
-- The whole invariant of the task manager of kernel/task.cpp, and the primitive changes that keep it.
use mikansaos.Base.{ℕ, ◌<◌, ◌≡◌, ◌≢◌, refl, true, false, List, [], ◌∷◌, ◌++◌, some, arith, sym, ◌∙◌}
use mikansaos.Base.Int.{ℤ}
use mikansaos.Base.Maps.{update, update_self, count, erase, count-nil, count-snoc, count-erase}
use mikansaos.Task.{
  Task, TaskManager, find_task, front, pop_front, rotate_current_run_queue, current_task,
  set_ready_or_running, new_task,
}
use mikansaos.Task.Rotate.{IsScheduled, rotate-keeps, rotate-IsScheduled, rotated_queue}
use mikansaos.Task.Sleep.{front-IsConsistent, other-IsConsistent}
use mikansaos.Task.Finish.{gone, gone-IsConsistent}
use mikansaos.Task.Queues.{
  IsConsistent, count-pop_front, rotate-IsConsistent, woken, woken-IsConsistent,
  new_task-IsConsistent,
}

-- The id that the constructor gives the idle task.
abbrev pub idle_id : ℕ
idle_id = 2

-- The queues fit the tasks, the running task is at the head of the highest queue that is known, and
-- the idle task waits at the lowest level.
pub record Inv (m : TaskManager) : Type 0 where
  pub consistent : IsConsistent m
  pub scheduled : IsScheduled m
  pub idle : count idle_id (m.running 0) ≡ 1

pub ne-nil_of_count : (a : ℕ) (xs : List ℕ) → 0 < count a xs → xs ≢ []
ne-nil_of_count a [] h e = absurd (omega (arith, count-nil a))
ne-nil_of_count a (x ∷ xs) h e = cc

pub snoc-ne-nil : (xs : List ℕ) (x : ℕ) → xs ++ x ∷ [] ≢ []
snoc-ne-nil [] x = λ e. cc
snoc-ne-nil (y ∷ ys) x = λ e. cc

pub rotate-Inv : (m : TaskManager) → Inv m → Inv (rotate_current_run_queue m false).0
rotate-Inv m v =
    let queue = m.running m.current_level in
    let k = rotate-keeps m false in
    record {
      consistent = rotate-IsConsistent m v.scheduled.alive v.consistent;
      scheduled = rotate-IsScheduled m false m.current_level v.scheduled v.scheduled.within (λ e.
          snoc-ne-nil (pop_front queue) (front queue)
            (sym (update_self m.running m.current_level _) ∙ e));
      idle = ground (
        arith,
        k.0,
        v.idle,
        count-pop_front idle_id queue v.scheduled.alive,
        count-snoc idle_id (front queue) (pop_front queue),
      );
    }

pub new_task-Inv : (m : TaskManager) → Inv m → Inv (new_task m).0
unfolding new_task
new_task-Inv m v = record {
  consistent = new_task-IsConsistent m v.consistent;
  scheduled = record {
    within = v.scheduled.within;
    alive = v.scheduled.alive;
    top = v.scheduled.top;
  };
  idle = v.idle;
}

pub woken-Inv :
    (m : TaskManager) (t : Task) (lv : ℕ)
    → find_task m.tasks t.id ≡ some t
    → t.ready_or_running ≡ false
    → Inv m
    → Inv (woken m t lv)
woken-Inv m t lv found asleep v = record {
  consistent = woken-IsConsistent m t lv found asleep v.consistent;
  scheduled = record {
    within = v.scheduled.within;
    alive = λ e. ground (arith, v.scheduled.alive, snoc-ne-nil (m.running lv) t.id);
    top = λ c l lo hi.
        let before : m.level_changed ≡ false = ground arith in
        ground (arith, v.scheduled.top before l lo hi);
  };
  idle =
      ground (
        arith,
        v.idle,
        found,
        v.consistent.queues 0 idle_id,
        count-snoc idle_id t.id (m.running lv),
      );
}

erase-cons-ne : (a x : ℕ) (xs : List ℕ) → a ≢ x → erase a (x ∷ xs) ≢ []
unfolding erase
erase-cons-ne a x xs h = ground arith

erase-ne-nil : (a : ℕ) (xs : List ℕ) → xs ≢ [] → a ≢ front xs → erase a xs ≢ []
erase-ne-nil a [] h n = absurd (h refl)
erase-ne-nil a (x ∷ xs) h n = erase-cons-ne a x xs n

erase-nil : (a : ℕ) → erase a [] ≡ []
unfolding erase
erase-nil a = refl

-- A sleeping task that is not the running one leaves its level's queue.
pub sleep_other-Inv :
    (m : TaskManager) (t : Task)
    → find_task m.tasks t.id ≡ some t
    → t.ready_or_running ≡ true
    → t.id ≢ current_task m
    → t.id ≢ idle_id
    → Inv m
    → Inv (record (set_ready_or_running m t.id false) {
      running = update m.running t.level (erase t.id (m.running t.level));
    })
unfolding current_task
sleep_other-Inv m t found ready other working v = record {
  consistent = other-IsConsistent m t found ready v.consistent;
  scheduled = record {
    within = v.scheduled.within;
    alive = λ e. ground (arith, v.scheduled.alive, erase-ne-nil t.id (m.running t.level), other);
    top = λ c l lo hi. ground (arith, v.scheduled.top c l lo hi, erase-nil t.id);
  };
  idle = ground (arith, v.idle, count-erase idle_id t.id (m.running t.level));
}

-- The running task, if it is not the idle one, leaves the idle one behind in its queue.
rotated-idle :
    (m : TaskManager)
    → m.running m.current_level ≢ []
    → current_task m ≢ idle_id
    → count idle_id (m.running 0) ≡ 1
    → count idle_id (update m.running m.current_level (rotated_queue m true) 0) ≡ 1
unfolding current_task
rotated-idle m alive working idle =
    ground (arith, idle, count-pop_front idle_id (m.running m.current_level) alive)

rotated-ne-nil :
    (m : TaskManager)
    → m.running m.current_level ≢ []
    → current_task m ≢ idle_id
    → count idle_id (m.running 0) ≡ 1
    → update m.running m.current_level (rotated_queue m true) 0 ≢ []
rotated-ne-nil m alive working idle =
    ne-nil_of_count idle_id _ (omega (arith, rotated-idle m alive working idle))

pub sleep_front-Inv :
    (m : TaskManager) (t : Task)
    → find_task m.tasks t.id ≡ some t
    → t.id ≡ current_task m
    → t.id ≢ idle_id
    → Inv m
    → Inv (rotate_current_run_queue (set_ready_or_running m t.id false) true).0
unfolding current_task
sleep_front-Inv m t found same working v =
    let m1 = set_ready_or_running m t.id false in
    let s = v.scheduled in
    let busy : current_task m1 ≢ idle_id = λ e. working (same ∙ e) in
    let s1 : IsScheduled m1 = record { within = s.within; alive = s.alive; top = s.top } in
    record {
      consistent = front-IsConsistent m t found same s.alive v.consistent;
      scheduled =
          rotate-IsScheduled m1 true 0 s1 (omega arith) (rotated-ne-nil m1 s.alive busy v.idle);
      idle = rw ((rotate-keeps m1 true).0) (rotated-idle m1 s.alive busy v.idle);
    }

pub gone-Inv :
    (m : TaskManager) (exit_code : ℤ) → current_task m ≢ idle_id → Inv m → Inv (gone m exit_code)
gone-Inv m exit_code busy v =
    let s = v.scheduled in
    let r = rotate-IsScheduled m true 0 s (omega arith) (rotated-ne-nil m s.alive busy v.idle) in
    record {
      consistent = gone-IsConsistent m exit_code s.alive v.consistent;
      scheduled = record { within = r.within; alive = r.alive; top = r.top };
      idle = rw ((rotate-keeps m true).0) (rotated-idle m s.alive busy v.idle);
    }
