-- ===== src/Server/Net/Burst.antt =====
-- How large a burst the limiter lets through: a permit comes back when its connection ends, and may
-- have been refilled before.
use silent.Prelude.{
  ℕ, zero, suc, ◌+◌, ◌≡◌, refl, subst, true, some, List, [], ◌∷◌, ◌++◌, append-nil, arith, nat_Eq,
}
use silent.Server.Net.{
  waiting, serving, accepting, ConnectionTask, Server, start, spawn_connection, refill_permits,
  release, accept, acquire, finish, tick, Reach, here, next,
}

-- As many connections that are served.
abbrev busy : ℕ → List ConnectionTask
busy zero = []
busy (suc n) = busy n ++ (0, serving) ∷ []

abbrev serving_state : ℕ → ℕ → ℕ → Server
serving_state capacity n free = record {
  rate = some capacity;
  permits = free;
  tasks = busy n;
  refilling = true;
  mode = accepting;
}

refill_permits-below : (c : ℕ) → refill_permits (suc c) c ≡ suc c
unfolding refill_permits
refill_permits-below c = ground arith

-- One more connection is accepted and takes a permit, and a tick replaces the permit.
more_busy : (c n : ℕ) → Reach (start (some (suc c))) (serving_state (suc c) n (suc c))
unfolding start spawn_connection
more_busy c zero = here
more_busy c (suc n) =
    let s = serving_state (suc c) n (suc c) in
    let accepted : Reach (start (some (suc c))) (record s { tasks = busy n ++ (0, waiting) ∷ [] }) =
      next (more_busy c n) (accept s 0 refl) in
    let running : Reach (start (some (suc c))) (serving_state (suc c) (suc n) c) =
      next accepted (acquire _ (busy n) [] 0 c refl refl) in
    subst (λ k. Reach (start (some (suc c))) (serving_state (suc c) (suc n) k))
      (refill_permits-below c) (next running (tick _ (suc c) refl refl))

-- They all end, and their permits come back.
all_end :
    (c n free : ℕ)
    → Reach (start (some (suc c))) (serving_state (suc c) n free)
    → Reach (start (some (suc c))) (serving_state (suc c) 0 (free + n))
unfolding release
all_end c zero free r =
    subst (λ k. Reach (start (some (suc c))) (serving_state (suc c) 0 k)) (omega arith) r
all_end c (suc n) free r =
    let ended : Reach (start (some (suc c)))
        (record (serving_state (suc c) n (free + 1)) { tasks = busy n ++ [] }) =
      next r (finish (serving_state (suc c) (suc n) free) (busy n) [] 0 refl) in
    let as_busy : Reach (start (some (suc c))) (serving_state (suc c) n (free + 1)) =
      subst
        (λ ts.
          Reach (start (some (suc c))) (record (serving_state (suc c) n (free + 1)) { tasks = ts }))
        (append-nil (busy n)) ended in
    subst (λ k. Reach (start (some (suc c))) (serving_state (suc c) 0 k)) (omega arith)
      (all_end c n (free + 1) as_busy)

-- For every capacity above 0 and every number, the server comes to a state with no connection and
-- with that many free permits more than the capacity.
pub permits_grow :
    (c n : ℕ)
    → (s : Server) × (Reach (start (some (suc c))) s) × (s.tasks ≡ []) × (s.permits ≡ suc c + n)
permits_grow c n = (_, all_end c n (suc c) (more_busy c n), refl, refl)
