-- ===== src/Scheduler/Tasks.antt =====
-- The tasks that a scheduler has: their ids are distinct, and a pass removes those that are over.
use silent.Prelude.{
  ℕ, ◌≡◌, refl, ap, ◌∙◌, inl, inr, Bool, false, not, ◌||◌, none, some, List, [], ◌∷◌, ◌++◌, map,
  arith, Bool-cases, any, find, retain, ◌=?◌, nat_Eq,
}
use silent.Text.{Text, starts_with, Text_Eq, text_eq_iff}
use silent.Dict.Laws.{eq_refl}
use silent.Scheduler.{
  Task, is_removable, Scheduler, add_task, remove_task, remove_task_sub, get_task, removable_list,
  remove_tasks, run, spawn,
}

abbrev pub Absent : Text → List Task → Type 0
Absent i ts = any (λ t. t.id =? i) ts ≡ false

-- No two tasks have the same id.
abbrev pub DistinctTasks : List Task → Type 0
DistinctTasks [] = Unit
DistinctTasks (t ∷ ts) = Absent t.id ts × DistinctTasks ts

abbrev pub Distinct : Scheduler → Type 0
Distinct s = DistinctTasks s.tasks

retain-Absent : (p : Task → Bool) (i : Text) (ts : List Task) → Absent i ts → Absent i (retain p ts)
retain-Absent p i [] h = refl
retain-Absent p i (t ∷ ts) h = ground (arith, retain-Absent p i ts)

retain-DistinctTasks :
    (p : Task → Bool) (ts : List Task) → DistinctTasks ts → DistinctTasks (retain p ts)
retain-DistinctTasks p [] h = tt
retain-DistinctTasks p (t ∷ ts) (a, d) = elim (Bool-cases (p t)) [
  | inl keep ↦ rw keep (retain-Absent p t.id ts a, retain-DistinctTasks p ts d)
  | inr gone ↦ rw gone (retain-DistinctTasks p ts d)
]

eq_sym : (a b : Text) → (a =? b) ≡ (b =? a)
eq_sym a b = ground (arith, text_eq_iff a b, text_eq_iff b a, eq_refl a, eq_refl b)

any-append :
    (p : Task → Bool) (ts : List Task) (t : Task) → any p (ts ++ (t ∷ [])) ≡ any p ts || p t
any-append p [] t = ground arith
any-append p (u ∷ ts) t = ground (arith, any-append p ts t)

append-DistinctTasks :
    (task : Task) (ts : List Task)
    → Absent task.id ts
    → DistinctTasks ts
    → DistinctTasks (ts ++ (task ∷ []))
append-DistinctTasks task [] a d = (refl, tt)
append-DistinctTasks task (t ∷ ts) a (at, d) =
    let from_any = any-append (λ u. u.id =? t.id) ts task in
    let turned = eq_sym t.id task.id in
    let rest : Absent task.id ts = ground arith in
    (ground arith, append-DistinctTasks task ts rest d)

pub remove_tasks-Distinct :
    (ids : List Text) (s : Scheduler) → Distinct s → Distinct (remove_tasks ids s)
unfolding remove_task
remove_tasks-Distinct [] s d = d
remove_tasks-Distinct (i ∷ ids) s d =
    remove_tasks-Distinct ids (remove_task i s)
      (retain-DistinctTasks (λ t. not (t.id =? i)) s.tasks d)

-- A new task has an id of its own, or it is refused; the others stay, and it is found by its id.
added_found :
    (task : Task) (ts : List Task)
    → Absent task.id ts
    → find (λ t. t.id =? task.id) (ts ++ (task ∷ [])) ≡ some task
added_found task [] a = let same = eq_refl task.id in ground arith
added_found task (t ∷ ts) a = ground (arith, added_found task ts)

-- With distinct ids, a task whose id no task has is added behind the others; it is then found under
-- its id, and the ids are distinct.
pub get_task-add_task :
    (task : Task) (s : Scheduler)
    → Distinct s
    → Absent task.id s.tasks
    → let after : Scheduler = record s { tasks = s.tasks ++ (task ∷ []) } in
      (add_task task s ≡ some after) × ((get_task task.id after ≡ some task) × Distinct after)
unfolding add_task get_task
get_task-add_task task s d a =
    (rw a refl, (added_found task s.tasks a, append-DistinctTasks task s.tasks a d))

-- The lists of tasks that the removals work on.
abbrev removed : List Text → List Task → List Task
removed [] ts = ts
removed (i ∷ ids) ts = removed ids (retain (λ t. not (t.id =? i)) ts)

tasks-remove_tasks :
    (ids : List Text) (s : Scheduler) → (remove_tasks ids s).tasks ≡ removed ids s.tasks
unfolding remove_task
tasks-remove_tasks [] s = refl
tasks-remove_tasks (i ∷ ids) s = tasks-remove_tasks ids (remove_task i s)

retain_all-Absent :
    (i : Text) (ts : List Task) → Absent i ts → retain (λ t. not (t.id =? i)) ts ≡ ts
retain_all-Absent i [] a = refl
retain_all-Absent i (t ∷ ts) a = ground (arith, retain_all-Absent i ts)

removed-other :
    (now : ℕ) (t : Task) (us ts : List Task)
    → Absent t.id us
    → removed (removable_list now us) (t ∷ ts) ≡ t ∷ removed (removable_list now us) ts
removed-other now t [] ts a = refl
removed-other now t (u ∷ us) ts a = elim (Bool-cases (is_removable now u)) [
  | inl over ↦
      let turned = eq_sym t.id u.id in
      let other : (t.id =? u.id) ≡ false = ground arith in
      let rest : Absent t.id us = ground arith in
      let head : retain (λ v. not (v.id =? u.id)) (t ∷ ts)
          ≡ t ∷ retain (λ v. not (v.id =? u.id)) ts =
        rw other refl in
      rw over (
        ap (removed (removable_list now us)) head
        ∙ removed-other now t us (retain (λ v. not (v.id =? u.id)) ts) rest)
  | inr later ↦
      let rest : Absent t.id us = ground arith in rw later (removed-other now t us ts rest)
]

removed-removable :
    (now : ℕ) (ts : List Task)
    → DistinctTasks ts
    → removed (removable_list now ts) ts ≡ retain (λ t. not (is_removable now t)) ts
removed-removable now [] d = refl
removed-removable now (t ∷ ts) (a, d) = elim (Bool-cases (is_removable now t)) [
  | inl over ↦
      let same = eq_refl t.id in
      let head : retain (λ v. not (v.id =? t.id)) (t ∷ ts) ≡ ts =
        rw same (retain_all-Absent t.id ts a) in
      rw over (ap (removed (removable_list now ts)) head ∙ removed-removable now ts d)
  | inr later ↦
      rw later (removed-other now t ts ts a ∙ ap (λ us. t ∷ us) (removed-removable now ts d))
]

-- With distinct ids, a pass spawns every task in order and leaves just the tasks that are not over,
-- in their order, with distinct ids.
pub run-tasks :
    (now : ℕ) (s : Scheduler)
    → Distinct s
    → ((run now s).0 ≡ map (spawn now) s.tasks)
      × (((run now s).1.tasks ≡ retain (λ t. not (is_removable now t)) s.tasks)
          × Distinct (run now s).1)
unfolding run
run-tasks now s d =
    let ids = removable_list now s.tasks in
    (
      refl,
      (tasks-remove_tasks ids s ∙ removed-removable now s.tasks d, remove_tasks-Distinct ids s d),
    )

only_prefixed :
    (i j : Text) (ts : List Task)
    → starts_with i j ≡ false
    → find (λ t. t.id =? j) (retain (λ t. starts_with i t.id) ts) ≡ none
only_prefixed i j [] h = refl
only_prefixed i j (t ∷ ts) h = elim (Bool-cases (starts_with i t.id)) [
  | inl keep ↦
      let other : (t.id =? j) ≡ false = ground (arith, text_eq_iff t.id j) in
      rw (keep, other) (only_prefixed i j ts h)
  | inr gone ↦ rw gone (only_prefixed i j ts h)
]

-- After `remove_task_sub` of an id no task is found under an id that does not start with it.
pub get_task-remove_task_sub :
    (i j : Text) (s : Scheduler) → starts_with i j ≡ false → get_task j (remove_task_sub i s) ≡ none
unfolding get_task remove_task_sub
get_task-remove_task_sub i j s h = only_prefixed i j s.tasks h
