-- ===== src/Server/Net/Abort.antt =====
-- The forced shutdown: it ends however the tasks behave, by the server's own doing if need be.
use silent.Prelude.{
  ℕ, suc, ◌+◌, ◌*◌, ◌≤◌, ◌<◌, ◌≡◌, refl, sym, ap, ◌∙◌, ◌⊎◌, inl, inr, Bool, true, false, Option,
  List, [], ◌∷◌, ◌++◌, arith, length, nat_Eq,
}
use mathlib.Core.Bool.{false≢true}
use silent.Server.Net.{
  Phase, waiting, serving, Mode, accepting, graceful, aborting, returned, ConnectionTask, Server,
  start, Step, accept, accept_failed, acquire, timed_out, finish, tick, shutdown, abort_all,
  aborted, return, Reach, here, next,
}

-- A run of so many steps.
pub data Steps : ℕ → Server → Server → Type 0 where
  none_made : {s : Server} → Steps 0 s s
  one_more : {n : ℕ} {s t u : Server} → Steps n s t → Step t u → Steps (suc n) s u

-- The steps that the server makes by itself: no client, handler or timer has a part in them.
abbrev pub own : {s t : Server} → Step s t → Bool
own (aborted s before after peer phase on at) = true
own (return s on empty) = true
own _ = false

-- A run of such steps.
pub data Cancels (s : Server) : Server → Type 0 where
  not_yet : Cancels s s
  cancel : {t u : Server} → Cancels s t → (st : Step t u) → own st ≡ true → Cancels s u

-- How many steps a task can still make, and how many the server.
abbrev phase_load : Phase → ℕ
phase_load waiting = 2
phase_load serving = 1

abbrev task_load : List ConnectionTask → ℕ
task_load [] = 0
task_load ((peer, phase) ∷ ts) = phase_load phase + task_load ts

abbrev mode_load : Mode → ℕ
mode_load accepting = 0
mode_load graceful = 0
mode_load aborting = 1
mode_load returned = 0

abbrev load : Server → ℕ
load s = task_load s.tasks + mode_load s.mode

task_load-append :
    (xs ys : List ConnectionTask) → task_load (xs ++ ys) ≡ task_load xs + task_load ys
task_load-append [] ys = omega arith
task_load-append ((peer, phase) ∷ xs) ys = omega (arith, task_load-append xs ys)

task_load_le : (ts : List ConnectionTask) → task_load ts ≤ 2 * length ts
task_load_le [] = omega arith
task_load_le ((peer, waiting) ∷ ts) = omega (arith, task_load_le ts)
task_load_le ((peer, serving) ∷ ts) = omega (arith, task_load_le ts)

load_at :
    (ts before after : List ConnectionTask) (peer : ℕ) (phase : Phase)
    → ts ≡ before ++ (peer, phase) ∷ after
    → task_load ts ≡ task_load before + (phase_load phase + task_load after)
load_at ts before after peer phase at =
    ap task_load at ∙ task_load-append before ((peer, phase) ∷ after)

-- The refill task is stopped, and a server that has returned has no task.
abbrev Closing : Server → Type 0
Closing s = ((s.mode ≡ aborting) ⊎ ((s.mode ≡ returned) × (s.tasks ≡ []))) × (s.refilling ≡ false)

abbrev Open : Server → Type 0
Open s = (s.mode ≡ accepting) ⊎ (s.mode ≡ graceful)

abbrev code : Mode → ℕ
code accepting = 0
code graceful = 1
code aborting = 2
code returned = 3

no_task : (before after : List ConnectionTask) (t : ConnectionTask) → before ++ t ∷ after ≡ [] → ⊥
no_task [] after t e = cc
no_task (x ∷ before) after t e = cc

-- With a task there, a closing server has not returned.
Closing-mode :
    (s : Server) (before after : List ConnectionTask) (t : ConnectionTask)
    → Closing s
    → s.tasks ≡ before ++ t ∷ after
    → s.mode ≡ aborting
Closing-mode s before after t (inl on, still) at = on
Closing-mode s before after t (inr (over, empty), still) at =
    absurd (no_task before after t (sym at ∙ empty))

closed_to : (s : Server) (m : Mode) → Closing s → s.mode ≡ m → code m < 2 → ⊥
closed_to s m (inl on, still) e lt = omega (arith, sym (ap code e) ∙ ap code on, lt)
closed_to s m (inr (over, empty), still) e lt = omega (arith, sym (ap code e) ∙ ap code over, lt)

-- Each step of a closing server uses up some of its load.
Step-Closing : {s t : Server} → Step s t → Closing s → Closing t × (load t < load s)
Step-Closing (accept s peer on) h = absurd (closed_to s accepting h on (omega arith))
Step-Closing (accept_failed s on) h = absurd (closed_to s accepting h on (omega arith))
Step-Closing (acquire s before after peer n at free) h = (
  (inl (Closing-mode s before after _ h at), h.1),
  omega (
    arith,
    load_at s.tasks before after peer waiting at,
    task_load-append before ((peer, serving) ∷ after),
  ),
)
Step-Closing (timed_out s before after peer at) h = (
  (inl (Closing-mode s before after _ h at), h.1),
  omega (arith, load_at s.tasks before after peer waiting at, task_load-append before after),
)
Step-Closing (finish s before after peer at) h = (
  (inl (Closing-mode s before after _ h at), h.1),
  omega (arith, load_at s.tasks before after peer serving at, task_load-append before after),
)
Step-Closing (tick s capacity limited on) h = absurd (false≢true (sym h.1 ∙ on))
Step-Closing (shutdown s on) h = absurd (closed_to s accepting h on (omega arith))
Step-Closing (abort_all s on) h = absurd (closed_to s graceful h on (omega arith))
Step-Closing (aborted s before after peer waiting on at) h = (
  (inl on, h.1),
  omega (arith, load_at s.tasks before after peer waiting at, task_load-append before after),
)
Step-Closing (aborted s before after peer serving on at) h = (
  (inl on, h.1),
  omega (arith, load_at s.tasks before after peer serving at, task_load-append before after),
)
Step-Closing (return s on empty) h =
    ((inr (refl, empty), h.1), omega (arith, ap mode_load on, ap task_load empty))

not-Open : (s : Server) → Open s → s.mode ≡ aborting → ⊥
not-Open s (inl e) on = omega (arith, sym (ap code e) ∙ ap code on)
not-Open s (inr e) on = omega (arith, sym (ap code e) ∙ ap code on)

Step-Open : {s t : Server} → Step s t → Open s → Open t ⊎ Closing t
Step-Open (accept s peer on) o = inl o
Step-Open (accept_failed s on) o = inl o
Step-Open (acquire s before after peer n at free) o = inl o
Step-Open (timed_out s before after peer at) o = inl o
Step-Open (finish s before after peer at) o = inl o
Step-Open (tick s capacity limited on) o = inl o
Step-Open (shutdown s on) o = inl (inr refl)
Step-Open (abort_all s on) o = inr (inl refl, refl)
Step-Open (aborted s before after peer phase on at) o = absurd (not-Open s o on)
Step-Open (return s on empty) o = absurd (not-Open s o on)

Reach-Phased : (rate : Option ℕ) {s : Server} → Reach (start rate) s → Open s ⊎ Closing s
unfolding start
Reach-Phased rate here = inl (inl refl)
Reach-Phased rate (next r st) = elim (Reach-Phased rate r) [
  | inl o ↦ Step-Open st o
  | inr c ↦ inr (Step-Closing st c).0
]

Steps-Closing : {n : ℕ} {s t : Server} → Steps n s t → Closing s → Closing t × (n + load t ≤ load s)
Steps-Closing none_made c = (c, omega arith)
Steps-Closing (one_more r st) c =
    let (mid, most) = Steps-Closing r c in
    let (last, less) = Step-Closing st mid in (last, omega (arith, most, less))

-- The server cancels the tasks that are left one by one, and returns.
abbrev pub Returns : Server → Type 0
Returns t = (u : Server) × Cancels t u × (u.mode ≡ returned) × (u.tasks ≡ [])

cancel_all :
    (tasks : List ConnectionTask) {t : Server} (s : Server)
    → Cancels t s
    → s.tasks ≡ tasks
    → s.mode ≡ aborting
    → Returns t
cancel_all [] s so_far empty on = (_, cancel so_far (return s on empty) refl, refl, empty)
cancel_all ((peer, phase) ∷ ts) s so_far at on =
    cancel_all ts _ (cancel so_far (aborted s [] ts peer phase on at) refl) refl on

Closing-Returns : (t : Server) → Closing t → Returns t
Closing-Returns t (inl on, still) = cancel_all t.tasks t not_yet refl on
Closing-Returns t (inr (over, empty), still) = (t, not_yet, over, empty)

-- From a server that is being aborted, as a run from the start has led to it, every further run,
-- whatever tasks and timers do, has at most two steps for each task and one more; and from where it
-- leads, the server's own steps alone, which cancel a task or return, lead to its return with no
-- task left.
pub aborting_ends :
    (rate : Option ℕ) {n : ℕ} {s t : Server}
    → Reach (start rate) s
    → s.mode ≡ aborting
    → Steps n s t
    → (n ≤ 2 * length s.tasks + 1) × Returns t
aborting_ends rate {s} {t} r on run = elim (Reach-Phased rate r) [
  | inl o ↦ absurd (not-Open s o on)
  | inr c ↦
      let (after, most) = Steps-Closing run c in
      (omega (arith, most, task_load_le s.tasks, ap mode_load on), Closing-Returns t after)
]
