-- ===== src/Scheduler.antt =====
-- silent/src/scheduler: the tasks, and the pass over them that a scheduler makes every second.
-- A time is in milliseconds; a crontab is known by the times that it includes, which is the cron
-- crate's `includes`. What a task's action answers is its own.
pub mod Tasks
use silent.Prelude.{
  ℕ, zero, suc, ◌+◌, ◌-◌, ◌*◌, ◌/◌, ◌%◌, ◌^◌, ◌≤◌, ◌<◌, min, max, String, ◌≡◌, refl, sym, ap, ap₂,
  subst, ◌∙◌, fun_ext, ◌≡⟨◌⟩◌, ◌∎, ◌≢◌, ◌↔◌, ◌⊎◌, inl, inr, Bool, true, false, not, ◌&&◌, ◌||◌,
  Option, none, some, List, [], ◌∷◌, ◌++◌, map, foldr, append-nil, append_assoc, arith, ltb, leb,
  ◌==◌, if◌then◌else◌, ltb→lt, lt→ltb, leb→le, ==_iff, tests, Bool-cases, Option-cases, length,
  get_elem?, take, drop, any, find, retain, length-append, drop-length-append, take-length-append,
  length-drop, length-retain-le, All, All-append, All-get, Eq, ◌=?◌, nat_Eq,
}
use silent.Text.{Text, text, starts_with, Text_Eq}

pub data ProcessTime : Type 0 where
  datetime : ℕ → ProcessTime
  crontab : (ℕ → Bool) → ProcessTime

-- `is_active`, at the time `now`
abbrev pub is_active : ℕ → ProcessTime → Bool
is_active now (datetime t) = leb t now
is_active now (crontab includes) = includes now

-- `anyhow::Result<()>`: none, or the message of the error
abbrev pub Answer : Type 0
Answer = Option Text

pub record Task : Type 0 where
  pub id : Text
  pub process_time : ProcessTime
  pub description : Text
  pub action : Answer
  pub action_async : Answer
  pub is_async : Bool

unfoldable pub create_with_action : Text → ProcessTime → Text → Answer → Task
create_with_action i t d a = record {
  id = i;
  process_time = t;
  description = d;
  action = a;
  action_async = none;
  is_async = false;
}

unfoldable pub create_with_action_async : Text → ProcessTime → Text → Answer → Task
create_with_action_async i t d a = record {
  id = i;
  process_time = t;
  description = d;
  action = none;
  action_async = a;
  is_async = true;
}

-- What came of a run: the action's answer if it was called.
pub data Ran : Type 0 where
  idle : Ran
  refused : Text → Ran
  called called_async : Answer → Ran

abbrev pub run_task : ℕ → Task → Ran
run_task now self =
    if self.is_async
    then refused (text "async task not support run")
    else if is_active now self.process_time
    then called self.action
    else idle

abbrev pub run_task_async : ℕ → Task → Ran
run_task_async now self =
    if self.is_async
    then (if is_active now self.process_time then called_async self.action_async else idle)
    else refused (text "sync task not support run_async")

abbrev pub removable_at : ℕ → ProcessTime → Bool
removable_at now (datetime t) = is_active now (datetime t)
removable_at now (crontab includes) = false

abbrev pub is_removable : ℕ → Task → Bool
is_removable now self = removable_at now self.process_time

pub record Scheduler : Type 0 where
  pub tasks : List Task
  pub schedule : Bool

unfoldable pub new_scheduler : Scheduler
new_scheduler = record { tasks = []; schedule = true }

-- `add_task`: none is the error that the task exists.
unfoldable pub add_task : Task → Scheduler → Option Scheduler
add_task task self =
    if any (λ t. t.id =? task.id) self.tasks
    then none
    else some (record self { tasks = self.tasks ++ (task ∷ []) })

unfoldable pub remove_task : Text → Scheduler → Scheduler
remove_task i self = record self { tasks = retain (λ t. not (t.id =? i)) self.tasks }

unfoldable pub remove_task_sub : Text → Scheduler → Scheduler
remove_task_sub i self = record self { tasks = retain (λ t. starts_with i t.id) self.tasks }

unfoldable pub get_task : Text → Scheduler → Option Task
get_task i self = find (λ t. t.id =? i) self.tasks

-- The task that a pass spawns for each task.
abbrev pub spawn : ℕ → Task → Ran
spawn now task = if task.is_async then run_task_async now task else run_task now task

abbrev pub removable_list : ℕ → List Task → List Text
removable_list now [] = []
removable_list now (task ∷ tasks) =
    if is_removable now task then task.id ∷ removable_list now tasks else removable_list now tasks

abbrev pub remove_tasks : List Text → Scheduler → Scheduler
remove_tasks [] self = self
remove_tasks (i ∷ ids) self = remove_tasks ids (remove_task i self)

-- `run`, at the time `now`: what it spawned, and the scheduler after it.
unfoldable pub run : ℕ → Scheduler → List Ran × Scheduler
run now self = (map (spawn now) self.tasks, remove_tasks (removable_list now self.tasks) self)

unfoldable pub stop : Scheduler → Scheduler
stop self = record self { schedule = false }

-- One turn of the loop of `schedule`: `between` is what others do while it sleeps. The loop ends
-- if it was stopped, and can then be started again.
abbrev pub after_sleep : Scheduler → Bool × Scheduler
after_sleep self = if self.schedule then (true, self) else (false, record self { schedule = true })

unfoldable pub turn : ℕ → (Scheduler → Scheduler) → Scheduler → Bool × Scheduler
unfolding run
turn now between self = after_sleep (between (run now self).1)
