-- ===== src/Server/Net/Permits.antt =====
-- The permits of the limiter: none is lost, and how many more there can be than its capacity.
use silent.Prelude.{
  ℕ, suc, ◌+◌, ◌≤◌, ◌≡◌, refl, ap, ◌∙◌, Option, none, some, List, [], ◌∷◌, ◌++◌, arith, nat_Eq,
}
use silent.Server.Net.{
  Phase, waiting, serving, ConnectionTask, Server, start, spawn_connection, refill_permits, release,
  Step, accept, accept_failed, acquire, timed_out, finish, tick, shutdown, abort_all, aborted,
  return, Reach, here, next,
}

-- The tasks that run their handler.
abbrev pub serving_in : List ConnectionTask → ℕ
serving_in [] = 0
serving_in ((_, waiting) ∷ ts) = serving_in ts
serving_in ((_, serving) ∷ ts) = suc (serving_in ts)

serving_in-append :
    (xs ys : List ConnectionTask) → serving_in (xs ++ ys) ≡ serving_in xs + serving_in ys
serving_in-append [] ys = omega arith
serving_in-append ((_, waiting) ∷ xs) ys = serving_in-append xs ys
serving_in-append ((_, serving) ∷ xs) ys = omega (arith, serving_in-append xs ys)

-- What a task adds.
abbrev held : Phase → ℕ
held waiting = 0
held serving = 1

serving_in-put :
    (before after : List ConnectionTask) (peer : ℕ) (phase : Phase) (ts : List ConnectionTask)
    → ts ≡ before ++ (peer, phase) ∷ after
    → serving_in ts ≡ serving_in before + serving_in after + held phase
serving_in-put before after peer waiting ts e =
    ap serving_in e ∙ omega (arith, serving_in-append before ((peer, waiting) ∷ after))
serving_in-put before after peer serving ts e =
    ap serving_in e ∙ omega (arith, serving_in-append before ((peer, serving) ∷ after))

-- All permits that there are, free or held.
abbrev pub in_circulation : Server → ℕ
in_circulation s = s.permits + serving_in s.tasks

-- The ticks of the refill task in a run.
abbrev tick_of : {s t : Server} → Step s t → ℕ
tick_of (tick s capacity limited on) = 1
tick_of _ = 0

abbrev pub ticks : {s t : Server} → Reach s t → ℕ
ticks here = 0
ticks (next r st) = ticks r + tick_of st

refill_permits_bounds : (c n : ℕ) → (n ≤ refill_permits c n) × (refill_permits c n ≤ n + 1)
unfolding refill_permits
refill_permits_bounds c n = ground arith

release-held :
    (rate : Option ℕ) (c : ℕ) (phase : Phase) (n : ℕ)
    → rate ≡ some c
    → release rate phase n ≡ n + held phase
unfolding release
release-held none c phase n e = cc
release-held (some d) c waiting n e = omega arith
release-held (some d) c serving n e = omega arith

-- Under a limiter a new task holds no permit.
serving_in-spawn_connection :
    (rate : Option ℕ) (c peer : ℕ) (ts : List ConnectionTask)
    → rate ≡ some c
    → serving_in (ts ++ spawn_connection rate peer ∷ []) ≡ serving_in ts
unfolding spawn_connection
serving_in-spawn_connection none c peer ts e = cc
serving_in-spawn_connection (some d) c peer ts e =
    omega (arith, serving_in-append ts ((peer, waiting) ∷ []))

-- A step changes the number of permits by a tick alone.
abbrev Counts : (s t : Server) → ℕ → Type 0
Counts s t k =
    (t.rate ≡ s.rate)
    × (in_circulation s ≤ in_circulation t)
    × (in_circulation t ≤ in_circulation s + k)

Step-Counts : {s t : Server} (c : ℕ) (st : Step s t) → s.rate ≡ some c → Counts s t (tick_of st)
Step-Counts c (accept s peer on) lim =
    let same = serving_in-spawn_connection s.rate c peer s.tasks lim in
    (refl, omega arith, omega arith)
Step-Counts c (accept_failed s on) lim = (refl, omega arith, omega arith)
Step-Counts c (acquire s before after peer n at free) lim =
    let was = serving_in-put before after peer waiting s.tasks at in
    let now = serving_in-put before after peer serving (before ++ (peer, serving) ∷ after) refl in
    (refl, omega arith, omega arith)
Step-Counts c (timed_out s before after peer at) lim =
    let was = serving_in-put before after peer waiting s.tasks at in
    let now = serving_in-append before after in (refl, omega arith, omega arith)
Step-Counts c (finish s before after peer at) lim =
    let was = serving_in-put before after peer serving s.tasks at in
    let now = serving_in-append before after in
    let back = release-held s.rate c serving s.permits lim in (refl, omega arith, omega arith)
Step-Counts c (tick s capacity limited on) lim =
    let bounds = refill_permits_bounds capacity s.permits in (refl, omega arith, omega arith)
Step-Counts c (shutdown s on) lim = (refl, omega arith, omega arith)
Step-Counts c (abort_all s on) lim = (refl, omega arith, omega arith)
Step-Counts c (aborted s before after peer phase on at) lim =
    let was = serving_in-put before after peer phase s.tasks at in
    let now = serving_in-append before after in
    let back = release-held s.rate c phase s.permits lim in (refl, omega arith, omega arith)
Step-Counts c (return s on empty) lim = (refl, omega arith, omega arith)

-- In every state that a server with a limiter comes to, the free permits and the connections that
-- are served are together at least the capacity, so no permit is lost, and they are at most the
-- capacity plus the ticks of the refill task; so many connections at most are served at once.
pub Reach-Permits :
    (capacity : ℕ) {t : Server} (r : Reach (start (some capacity)) t)
    → (capacity ≤ in_circulation t)
      × (in_circulation t ≤ capacity + ticks r)
      × (serving_in t.tasks ≤ capacity + ticks r)
unfolding start
Reach-Permits capacity r = let (lim, low, high) = counted r in (low, high, omega arith)
  where
    counted :
        {t : Server} (r : Reach (start (some capacity)) t)
        → (t.rate ≡ some capacity)
          × (capacity ≤ in_circulation t)
          × (in_circulation t ≤ capacity + ticks r)
    counted here = (refl, omega arith, omega arith)
    counted (next r st) =
        let (lim, low, high) = counted r in
        let (same, up, down) = Step-Counts capacity st lim in (same ∙ lim, omega arith, omega arith)
