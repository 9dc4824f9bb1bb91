-- ===== src/Server/Net.antt =====
-- silent/src/server/net_server.rs: the accept loop, the tasks that it spawns, the limiter whose
-- permits they take, and the shutdown. What happens next is chosen outside (clients, timers, the
-- scheduling of tasks), so the server is a step relation. A panic of a task ends it as its return
-- does; the test and the addition of a refill are one step. Logs and metrics are left out.
pub mod Permits
pub mod Burst
pub mod Shutdown
pub mod Abort
use silent.Prelude.{
  ℕ, zero, suc, ◌+◌, ◌-◌, ◌*◌, ◌/◌, ◌%◌, ◌^◌, ◌≤◌, ◌<◌, min, max, String, ◌≡◌, refl, sym, ap, ap₂,
  subst, ◌∙◌, fun_ext, ◌≡⟨◌⟩◌, ◌∎, ◌≢◌, ◌↔◌, ◌⊎◌, inl, inr, Bool, true, false, not, ◌&&◌, ◌||◌,
  Option, none, some, List, [], ◌∷◌, ◌++◌, map, foldr, append-nil, append_assoc, arith, ltb, leb,
  ◌==◌, if◌then◌else◌, ltb→lt, lt→ltb, leb→le, ==_iff, tests, Bool-cases, Option-cases, length,
  get_elem?, take, drop, any, find, retain, length-append, drop-length-append, take-length-append,
  length-drop, length-retain-le, All, All-append, All-get, Eq, ◌=?◌, nat_Eq,
}

-- Where the task of a connection is: it awaits a permit, or the handler runs, under a permit if
-- there is a limiter.
pub data Phase : Type 0 where
  waiting serving : Phase

-- The accept loop, the graceful wait after it, the forced shutdown, and the return.
pub data Mode : Type 0 where
  accepting graceful aborting returned : Mode

abbrev pub ConnectionTask : Type 0
ConnectionTask = ℕ × Phase

-- `rate` is the capacity of the limiter, `permits` the semaphore's `available_permits`, `tasks` the
-- `join_set` with the peer of each connection, and `refilling` says that the refill task runs.
pub record Server : Type 0 where
  pub rate : Option ℕ
  pub permits : ℕ
  pub tasks : List ConnectionTask
  pub refilling : Bool
  pub mode : Mode

abbrev pub is_some : Option ℕ → Bool
is_some none = false
is_some (some _) = true

abbrev pub initial_permits : Option ℕ → ℕ
initial_permits none = 0
initial_permits (some capacity) = capacity

-- The state when the loop is entered.
unfoldable pub start : Option ℕ → Server
start rate = record {
  rate = rate;
  permits = initial_permits rate;
  tasks = [];
  refilling = is_some rate;
  mode = accepting;
}

-- The task that an accepted connection gets.
unfoldable pub spawn_connection : Option ℕ → ℕ → ConnectionTask
spawn_connection none peer = (peer, serving)
spawn_connection (some _) peer = (peer, waiting)

-- A tick of the refill task.
unfoldable pub refill_permits : ℕ → ℕ → ℕ
refill_permits capacity permits = if ltb permits capacity then permits + 1 else permits

-- The permit of a task goes back when the task drops it.
unfoldable pub release : Option ℕ → Phase → ℕ → ℕ
release (some _) serving permits = permits + 1
release _ _ permits = permits

pub data Step : Server → Server → Type 0 where
  accept :
      (s : Server) (peer : ℕ)
      → s.mode ≡ accepting
      → Step s (record s { tasks = s.tasks ++ spawn_connection s.rate peer ∷ [] })
  accept_failed : (s : Server) → s.mode ≡ accepting → Step s s
  acquire :
      (s : Server) (before after : List ConnectionTask) (peer n : ℕ)
      → s.tasks ≡ before ++ (peer, waiting) ∷ after
      → s.permits ≡ suc n
      → Step s (record s { tasks = before ++ (peer, serving) ∷ after; permits = n })
  timed_out :
      (s : Server) (before after : List ConnectionTask) (peer : ℕ)
      → s.tasks ≡ before ++ (peer, waiting) ∷ after
      → Step s (record s { tasks = before ++ after })
  finish :
      (s : Server) (before after : List ConnectionTask) (peer : ℕ)
      → s.tasks ≡ before ++ (peer, serving) ∷ after
      → Step s (record s { tasks = before ++ after; permits = release s.rate serving s.permits })
  tick :
      (s : Server) (capacity : ℕ)
      → s.rate ≡ some capacity
      → s.refilling ≡ true
      → Step s (record s { permits = refill_permits capacity s.permits })
  shutdown : (s : Server) → s.mode ≡ accepting → Step s (record s { mode = graceful })
  abort_all :
      (s : Server) → s.mode ≡ graceful → Step s (record s { mode = aborting; refilling = false })
  aborted :
      (s : Server) (before after : List ConnectionTask) (peer : ℕ) (phase : Phase)
      → s.mode ≡ aborting
      → s.tasks ≡ before ++ (peer, phase) ∷ after
      → Step s (record s { tasks = before ++ after; permits = release s.rate phase s.permits })
  return : (s : Server) → s.mode ≡ aborting → s.tasks ≡ [] → Step s (record s { mode = returned })

pub data Reach (s : Server) : Server → Type 0 where
  here : Reach s s
  next : {t u : Server} → Reach s t → Step t u → Reach s u
