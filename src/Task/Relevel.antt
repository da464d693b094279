-- ===== src/Task/Relevel.antt =====
-- `ChangeLevelRunning` of kernel/task.cpp: right for the running task, wrong for any other.
use mikansaos.Base.{
  ℕ, ◌≤◌, ◌==◌, ltb, if◌then◌else◌, ◌≡◌, ◌≢◌, refl, true, false, List, [], ◌∷◌, ◌++◌, some, arith,
  sym, ◌∙◌,
}
use mikansaos.Base.Int.{pos}
use mikansaos.Base.Maps.{update, update_self, count, erase, count-cons, count-snoc, count-erase}
use mikansaos.Task.{
  Task, TaskManager, max_level, find_task, front, pop_front, current_task, set_level, change_self,
  change_level_running, wakeup_task,
}
use mikansaos.Task.Store.{find_task-modify, Rises-modify}
use mikansaos.Task.Queues.{count-pop_front}
use mikansaos.Task.Sleep.{current-due}
use mikansaos.Task.Schedule.{Inv, idle_id, ne-nil_of_count}

wakeup_self :
    (m : TaskManager) (t : Task) (level : ℕ)
    → t.ready_or_running ≡ true
    → t.id ≡ current_task m
    → level ≢ t.level
    → wakeup_task m t (pos level) ≡ change_self m t.id level
unfolding wakeup_task change_level_running current_task
wakeup_self m t level ready same other = ground arith

cons-ne-nil : (x : ℕ) (xs : List ℕ) → x ∷ xs ≢ []
cons-ne-nil x xs e = cc

-- The running task takes another level, and goes on running at the head of that level's queue.
pub change_self-Inv :
    (m : TaskManager) (t : Task) (level : ℕ)
    → find_task m.tasks t.id ≡ some t
    → t.id ≡ current_task m
    → t.id ≢ idle_id
    → level ≢ t.level
    → level ≤ max_level
    → Inv m
    → Inv (change_self m t.id level)
unfolding change_self current_task
change_self-Inv m t level found same working other bound v = record {
  consistent = record {
    ids = Rises-modify 0 m.last_id m.tasks t.id _ (λ _. refl) v.consistent.ids;
    queues = λ l j. ground (
      arith,
      found,
      same,
      v.consistent.queues l j,
      current-due m v.consistent v.scheduled.alive,
      count-pop_front j (m.running m.current_level) v.scheduled.alive,
      count-cons j t.id (m.running level),
      find_task-modify m.tasks t.id j (λ (u : Task). record u { level = level }) (λ _. refl),
    );
  };
  scheduled = record {
    within = bound;
    alive = λ e.
        let popped = update m.running m.current_level (pop_front (m.running m.current_level)) in
        cons-ne-nil t.id (popped level) (sym (update_self popped level (t.id ∷ popped level)) ∙ e);
    top = λ c l lo hi.
        let before : m.level_changed ≡ false = ground arith in
        ground (arith, v.scheduled.top before l (ground arith) hi);
  };
  idle = ground (
    arith,
    same,
    v.idle,
    count-pop_front idle_id (m.running m.current_level) v.scheduled.alive,
    count-cons idle_id t.id (m.running 0),
    count-cons idle_id t.id (pop_front (m.running m.current_level)),
  );
}

wakeup_other :
    (m : TaskManager) (t : Task) (level : ℕ)
    → t.ready_or_running ≡ true
    → t.id ≢ current_task m
    → level ≢ t.level
    → let erased = update m.running t.level (erase t.id (m.running t.level)) in
      let moved = record (set_level m t.id level) {
        running = update erased level (erased level ++ t.id ∷ []);
        level_changed = if ltb m.current_level level then true else m.level_changed;
      } in
      wakeup_task m t (pos level) ≡ change_self moved t.id level
unfolding wakeup_task change_level_running current_task
wakeup_other m t level ready other apart = ground arith

-- The queue of the current level keeps its head when another task leaves it or joins its end.
front-erase : (a : ℕ) (xs : List ℕ) → xs ≢ [] → a ≢ front xs → front (erase a xs) ≡ front xs
unfolding erase
front-erase a [] h n = absurd (h refl)
front-erase a (x ∷ xs) h n = ground arith

front-snoc : (xs : List ℕ) (x : ℕ) → xs ≢ [] → front (xs ++ x ∷ []) ≡ front xs
front-snoc [] x h = absurd (h refl)
front-snoc (y ∷ ys) x h = refl

count-pop_front_other : (a : ℕ) (xs : List ℕ) → a ≢ front xs → count a (pop_front xs) ≡ count a xs
count-pop_front_other a [] h = refl
count-pop_front_other a (x ∷ xs) h = ground (arith, count-cons a x xs)

-- The queues after the branch of `ChangeLevelRunning` that does not return.
abbrev moved_queues : TaskManager → Task → ℕ → ℕ → List ℕ
moved_queues m t level =
    let erased = update m.running t.level (erase t.id (m.running t.level)) in
    update erased level (erased level ++ t.id ∷ [])

module _ (m : TaskManager) (t : Task) (level : ℕ) (v : Inv m)
    (found : find_task m.tasks t.id ≡ some t) (ready : t.ready_or_running ≡ true)
    (other : t.id ≢ current_task m) (apart : level ≢ t.level) where
  -- The running task is still at the head of the current queue, which the next lines pop.
  moved-front : front (moved_queues m t level m.current_level) ≡ current_task m
  unfolding current_task
  moved-front =
      let queue = m.running m.current_level in
      ground (
        arith,
        other,
        apart,
        v.scheduled.alive,
        front-erase t.id queue,
        front-snoc queue t.id,
        front-snoc (erase t.id queue) t.id,
      )

  moved-count :
      (j l : ℕ)
      → count j (moved_queues m t level l)
        ≡ (if t.id == j then (if level == l then 1 else 0) else count j (m.running l))
  moved-count j l =
      let queue = m.running l in
      ground (
        arith,
        found,
        ready,
        v.consistent.queues l j,
        count-erase j t.id (m.running t.level),
        count-snoc j t.id (update m.running t.level (erase t.id (m.running t.level)) level),
      )

  -- The running task is in the current queue once, and in no other.
  current-count :
      (l : ℕ)
      → count (current_task m) (moved_queues m t level l) ≡ (if m.current_level == l then 1 else 0)
  current-count l = ground (
    arith,
    other,
    moved-count (current_task m) l,
    v.consistent.queues l (current_task m),
    current-due m v.consistent v.scheduled.alive,
  )

  moved-ne-nil : moved_queues m t level m.current_level ≢ []
  moved-ne-nil = ne-nil_of_count (current_task m) _ (ground (arith, current-count m.current_level))

  -- A wake-up that moves a ready task which is not the running one to another level puts it into
  -- that level's queue twice, and takes the running task out of every queue.
  pub wakeup_other-loses_current :
      let m' = wakeup_task m t (pos level) in
      (count t.id (m'.running level) ≡ 2) × ((l : ℕ) → count (current_task m) (m'.running l) ≡ 0)
  unfolding change_self
  wakeup_other-loses_current =
      let queue = moved_queues m t level m.current_level in
      rw (wakeup_other m t level ready other apart) (
        ground (
          arith,
          other,
          moved-front,
          moved-count t.id level,
          count-pop_front t.id queue moved-ne-nil,
          count-cons t.id t.id (moved_queues m t level level),
          count-cons t.id t.id (pop_front queue),
        ),
        λ l. ground (
          arith,
          other,
          moved-front,
          current-count l,
          count-pop_front (current_task m) queue moved-ne-nil,
          count-cons (current_task m) t.id (moved_queues m t level level),
          count-cons (current_task m) t.id (pop_front queue),
        ),
      )
