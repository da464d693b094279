-- ===== src/Task/Rotate.antt =====
-- `RotateCurrentRunQueue` of kernel/task.cpp: which queue it changes, and which level it picks.
use mikansaos.Base.{
  ℕ, zero, suc, ◌≤◌, ◌<◌, if◌then◌else◌, ◌≡◌, ◌≢◌, refl, sym, ◌∙◌, inl, inr, Bool, true, false,
  List, [], ◌∷◌, ◌++◌, ◌||◌, Option, none, some, Option-cases, Bool-cases, arith,
}
use mikansaos.Base.Maps.{update, update_self, update_ne}
use native.Mathlib.Decide.{ℕ_discrete}
use mikansaos.Task.{
  TaskManager, max_level, front, pop_front, is_empty, highest_from, choose_level,
  rotate_current_run_queue, current_task,
}

-- The level is the highest, up to `top`, whose queue has a task.
abbrev pub IsHighest : (ℕ → List ℕ) → ℕ → ℕ → Type 0
IsHighest running top lv =
    (lv ≤ top) × (running lv ≢ []) × ((l : ℕ) → lv < l → l ≤ top → running l ≡ [])

abbrev Highest : (ℕ → List ℕ) → ℕ → Option ℕ → Type 0
Highest running top none = (l : ℕ) → l ≤ top → running l ≡ []
Highest running top (some lv) = IsHighest running top lv

is_empty-nil : (xs : List ℕ) → is_empty xs ≡ true → xs ≡ []
is_empty-nil [] h = refl
is_empty-nil (x ∷ xs) h = cc

is_empty-cons : (xs : List ℕ) → is_empty xs ≡ false → xs ≢ []
is_empty-cons [] h = cc
is_empty-cons (x ∷ xs) h = λ e. cc

Highest-suc :
    (running : ℕ → List ℕ) (top : ℕ) (o : Option ℕ)
    → running (suc top) ≡ []
    → Highest running top o
    → Highest running (suc top) o
Highest-suc running top none e h =
    λ l hl. elim (ℕ_discrete l (suc top)) [ yes p ↦ rw p e | no p ↦ h l (omega arith) ]
Highest-suc running top (some lv) e h = (
  omega arith,
  h.1,
  λ l lo hl. elim (ℕ_discrete l (suc top)) [ yes p ↦ rw p e | no p ↦ h.2 l lo (omega arith) ],
)

highest_from-Highest :
    (running : ℕ → List ℕ) (top : ℕ) → Highest running top (highest_from running top)
unfolding highest_from
highest_from-Highest running zero = elim (Bool-cases (is_empty (running 0))) [
  | inl e ↦ rw e (λ l hl. let z : l ≡ 0 = omega arith in rw z (is_empty-nil (running 0) e))
  | inr e ↦ rw e (omega arith, is_empty-cons (running 0) e, λ l lo hl. absurd (omega arith))
]
highest_from-Highest running (suc top) = elim (Bool-cases (is_empty (running (suc top)))) [
  | inl e ↦ rw e (
      Highest-suc running top (highest_from running top) (is_empty-nil _ e)
        (highest_from-Highest running top))
  | inr e ↦ rw e (omega arith, is_empty-cons _ e, λ l lo hl. absurd (omega arith))
]

-- The scheduler's invariant: the running task is at the head of the queue of the current level, and
-- no higher level has a task unless the next rotation will look.
pub record IsScheduled (m : TaskManager) : Type 0 where
  pub within : m.current_level ≤ max_level
  pub alive : m.running m.current_level ≢ []
  pub top :
      m.level_changed ≡ false → (l : ℕ) → m.current_level < l → l ≤ max_level → m.running l ≡ []

choose_level-some :
    (m : TaskManager) (lv : ℕ)
    → m.level_changed ≡ true
    → highest_from m.running max_level ≡ some lv
    → choose_level m ≡ record m { level_changed = false; current_level = lv }
unfolding choose_level
choose_level-some m lv c e = rw (c, e, choose_level)

choose_level-same : (m : TaskManager) → m.level_changed ≡ false → choose_level m ≡ m
unfolding choose_level
choose_level-same m c = rw (c, choose_level)

-- What the choice of a level leaves alone.
pub choose_level-keeps :
    (m : TaskManager)
    → ((choose_level m).running ≡ m.running)
      × ((choose_level m).tasks ≡ m.tasks)
      × ((choose_level m).last_id ≡ m.last_id)
      × ((choose_level m).finish_tasks ≡ m.finish_tasks)
      × ((choose_level m).finish_waiter ≡ m.finish_waiter)
unfolding choose_level
choose_level-keeps m = elim (Bool-cases m.level_changed) [
  | inl c ↦ elim (Option-cases (highest_from m.running max_level)) [
    | inl e ↦ rw (c, e, choose_level) (refl, refl, refl, refl, refl)
    | inr (lv, e) ↦ rw (c, e, choose_level) (refl, refl, refl, refl, refl)
  ]
  | inr c ↦ rw (c, choose_level) (refl, refl, refl, refl, refl)
]

choose_level-IsHighest :
    (m : TaskManager) (l : ℕ)
    → m.level_changed ≡ true
    → l ≤ max_level
    → m.running l ≢ []
    → IsHighest m.running max_level (choose_level m).current_level
choose_level-IsHighest m l c hl ne =
    go (highest_from m.running max_level) refl (highest_from-Highest m.running max_level)
  where
    go :
        (o : Option ℕ)
        → highest_from m.running max_level ≡ o
        → Highest m.running max_level o
        → IsHighest m.running max_level (choose_level m).current_level
    go none e h = absurd (ne (h l hl))
    go (some lv) e h = rw (choose_level-some m lv c e) h

-- The running task has left the head of its queue, and stands at its end unless it goes to sleep.
abbrev pub rotated_queue : TaskManager → Bool → List ℕ
rotated_queue m current_sleep =
    let queue = m.running m.current_level in
    if current_sleep then pop_front queue else pop_front queue ++ front queue ∷ []

abbrev popped : TaskManager → Bool → TaskManager
popped m current_sleep = record m {
  running = update m.running m.current_level (rotated_queue m current_sleep);
  level_changed = m.level_changed || is_empty (rotated_queue m current_sleep);
}

rotate-eq :
    (m : TaskManager) (s : Bool)
    → rotate_current_run_queue m s ≡ (choose_level (popped m s), current_task m)
unfolding rotate_current_run_queue current_task
rotate-eq m s = refl

pub current-rotate :
    (m : TaskManager) (s : Bool) → (rotate_current_run_queue m s).1 ≡ current_task m
unfolding rotate_current_run_queue current_task
current-rotate m s = refl

-- A rotation changes the queue of the current level and the level, and nothing else.
pub rotate-keeps :
    (m : TaskManager) (s : Bool)
    → let m' = (rotate_current_run_queue m s).0 in
      (m'.running ≡ update m.running m.current_level (rotated_queue m s))
      × (m'.tasks ≡ m.tasks)
      × (m'.last_id ≡ m.last_id)
      × (m'.finish_tasks ≡ m.finish_tasks)
      × (m'.finish_waiter ≡ m.finish_waiter)
rotate-keeps m s = rw (rotate-eq m s) (choose_level-keeps (popped m s))

or-false : (a b : Bool) → a || b ≡ false → (a ≡ false) × (b ≡ false)
or-false a b h = ground arith

-- If any level has a task after the rotation, the current level is the highest that has one.
pub rotate-IsHighest :
    (m : TaskManager) (s : Bool) (l : ℕ)
    → IsScheduled m
    → l ≤ max_level
    → update m.running m.current_level (rotated_queue m s) l ≢ []
    → let m' = (rotate_current_run_queue m s).0 in IsHighest m'.running max_level m'.current_level
rotate-IsHighest m s l v hl ne = elim (Bool-cases (popped m s).level_changed) [
  | inl c ↦
      rw (rotate-eq m s, (choose_level-keeps (popped m s)).0)
        (choose_level-IsHighest (popped m s) l c hl ne)
  | inr c ↦
      rw (rotate-eq m s, choose_level-same (popped m s) c)
        (
          v.within,
          (λ e.
              is_empty-cons _ (or-false _ _ c).1
                (sym (update_self m.running m.current_level _) ∙ e)),
          λ l' lo hi.
              update_ne m.running m.current_level l' _ (λ e. absurd (omega arith))
              ∙ v.top (or-false _ _ c).0 l' lo hi,
        )
]

-- So a rotation keeps the scheduler's invariant.
pub rotate-IsScheduled :
    (m : TaskManager) (s : Bool) (l : ℕ)
    → IsScheduled m
    → l ≤ max_level
    → update m.running m.current_level (rotated_queue m s) l ≢ []
    → IsScheduled (rotate_current_run_queue m s).0
rotate-IsScheduled m s l v hl ne =
    let h = rotate-IsHighest m s l v hl ne in record { within = h.0; alive = h.1; top = λ _. h.2 }
