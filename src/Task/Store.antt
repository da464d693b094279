-- ===== src/Task/Store.antt =====
-- The list of tasks of kernel/task.cpp: what a lookup finds after each kind of write.
use mikansaos.Base.{
  ℕ, ◌≤◌, ◌<◌, ◌==◌, if◌then◌else◌, ◌≡◌, refl, ap, ◌∙◌, List, [], ◌∷◌, ◌++◌, Option, none, some,
  arith,
}
use mikansaos.Task.{Task, find_task, modify_task, remove_task}

abbrev pub map_found : (Task → Task) → Option Task → Option Task
map_found f none = none
map_found f (some t) = some (f t)

-- The ids rise along the list, above `lo` and up to `hi`: no id is given twice.
abbrev pub Rises : ℕ → List Task → ℕ → Type 0
Rises lo [] hi = lo ≤ hi
Rises lo (t ∷ ts) hi = (lo < t.id) × Rises t.id ts hi

pub id-find_task : (ts : List Task) (id : ℕ) {t : Task} → find_task ts id ≡ some t → t.id ≡ id
unfolding find_task
id-find_task [] id h = cc
id-find_task (u ∷ us) id {t} h = ground (arith, id-find_task us id {t = t})

pub find_task_self :
    (ts : List Task) (id : ℕ) {t : Task} → find_task ts id ≡ some t → find_task ts t.id ≡ some t
find_task_self ts id h = ap (find_task ts) (id-find_task ts id h) ∙ h

pub find_task-modify :
    (ts : List Task) (id j : ℕ) (f : Task → Task)
    → ((t : Task) → (f t).id ≡ t.id)
    → find_task (modify_task ts id f) j
      ≡ (if id == j then map_found f (find_task ts j) else find_task ts j)
unfolding find_task modify_task
find_task-modify [] id j f h = ground arith
find_task-modify (t ∷ ts) id j f h = ground (arith, h t, find_task-modify ts id j f h)

pub Rises-modify :
    (lo hi : ℕ) (ts : List Task) (id : ℕ) (f : Task → Task)
    → ((t : Task) → (f t).id ≡ t.id)
    → Rises lo ts hi
    → Rises lo (modify_task ts id f) hi
unfolding modify_task
Rises-modify lo hi [] id f h r = r
Rises-modify lo hi (t ∷ ts) id f h r = ground (arith, h t, Rises-modify t.id hi ts id f h r.1)

Rises-le : (lo hi : ℕ) (ts : List Task) → Rises lo ts hi → lo ≤ hi
Rises-le lo hi [] r = r
Rises-le lo hi (t ∷ ts) r = omega (arith, Rises-le t.id hi ts r.1)

pub Rises-lower : (lo k hi : ℕ) (ts : List Task) → k ≤ lo → Rises lo ts hi → Rises k ts hi
Rises-lower lo k hi [] h r = omega arith
Rises-lower lo k hi (t ∷ ts) h r = (omega arith, r.1)

-- No task has an id outside the bounds.
pub find_task_low : (lo hi j : ℕ) (ts : List Task) → Rises lo ts hi → j ≤ lo → find_task ts j ≡ none
unfolding find_task
find_task_low lo hi j [] r h = refl
find_task_low lo hi j (t ∷ ts) r h = ground (arith, find_task_low t.id hi j ts r.1)

pub find_task_high :
    (lo hi j : ℕ) (ts : List Task) → Rises lo ts hi → hi < j → find_task ts j ≡ none
unfolding find_task
find_task_high lo hi j [] r h = refl
find_task_high lo hi j (t ∷ ts) r h =
    ground (arith, find_task_high t.id hi j ts r.1, Rises-le t.id hi ts r.1)

pub find_task-remove :
    (lo hi id j : ℕ) (ts : List Task)
    → Rises lo ts hi
    → find_task (remove_task ts id) j ≡ (if id == j then none else find_task ts j)
unfolding find_task remove_task
find_task-remove lo hi id j [] r = ground arith
find_task-remove lo hi id j (t ∷ ts) r =
    ground (arith, find_task-remove t.id hi id j ts r.1, find_task_low t.id hi id ts r.1)

pub Rises-remove :
    (lo hi id : ℕ) (ts : List Task) → Rises lo ts hi → Rises lo (remove_task ts id) hi
unfolding remove_task
Rises-remove lo hi id [] r = r
Rises-remove lo hi id (t ∷ ts) r =
    ground (arith, Rises-remove t.id hi id ts r.1, Rises-lower t.id lo hi ts)

pub find_task-snoc :
    (lo hi j : ℕ) (ts : List Task) (t : Task)
    → Rises lo ts hi
    → hi < t.id
    → find_task (ts ++ t ∷ []) j ≡ (if t.id == j then some t else find_task ts j)
unfolding find_task
find_task-snoc lo hi j [] t r h = ground arith
find_task-snoc lo hi j (u ∷ us) t r h =
    ground (arith, find_task-snoc u.id hi j us t r.1 h, Rises-le u.id hi us r.1)

pub Rises-snoc :
    (lo hi : ℕ) (ts : List Task) (t : Task)
    → Rises lo ts hi
    → hi < t.id
    → Rises lo (ts ++ t ∷ []) t.id
Rises-snoc lo hi [] t r h = (omega arith, omega arith)
Rises-snoc lo hi (u ∷ us) t r h = (r.0, Rises-snoc u.id hi us t r.1 h)
