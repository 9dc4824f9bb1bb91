-- ===== src/Server/Net/Shutdown.antt =====
-- The shutdown: after the signal no connection is accepted.
use silent.Prelude.{ℕ, ◌≡◌, sym, ap, subst, ◌≢◌, List, [], ◌∷◌, ◌++◌, map, arith, nat_Eq}
use silent.Server.Net.{
  Phase, waiting, serving, Mode, accepting, graceful, aborting, returned, ConnectionTask, Server,
  Step, accept, accept_failed, acquire, timed_out, finish, tick, shutdown, abort_all, aborted,
  return, Reach, here, next,
}

abbrev pub peers : List ConnectionTask → List ℕ
peers ts = map (λ t. t.0) ts

-- The first list is what is left of the second.
pub data LeftOf : List ℕ → List ℕ → Type 0 where
  none_left : LeftOf [] []
  kept : {x : ℕ} {xs ys : List ℕ} → LeftOf xs ys → LeftOf (x ∷ xs) (x ∷ ys)
  gone : {y : ℕ} {xs ys : List ℕ} → LeftOf xs ys → LeftOf xs (y ∷ ys)

LeftOf-refl : (xs : List ℕ) → LeftOf xs xs
LeftOf-refl [] = none_left
LeftOf-refl (x ∷ xs) = kept (LeftOf-refl xs)

LeftOf-trans : {xs ys zs : List ℕ} → LeftOf xs ys → LeftOf ys zs → LeftOf xs zs
LeftOf-trans h none_left = h
LeftOf-trans h (gone k) = gone (LeftOf-trans h k)
LeftOf-trans (kept h) (kept k) = kept (LeftOf-trans h k)
LeftOf-trans (gone h) (kept k) = gone (LeftOf-trans h k)

removed :
    (before after : List ConnectionTask) (t : ConnectionTask)
    → LeftOf (peers (before ++ after)) (peers (before ++ t ∷ after))
removed [] after t = gone (LeftOf-refl (peers after))
removed (x ∷ before) after t = kept (removed before after t)

replaced :
    (before after : List ConnectionTask) (peer : ℕ) (p q : Phase)
    → LeftOf (peers (before ++ (peer, p) ∷ after)) (peers (before ++ (peer, q) ∷ after))
replaced [] after peer p q = LeftOf-refl (peer ∷ peers after)
replaced (x ∷ before) after peer p q = kept (replaced before after peer p q)

abbrev was :
    (ts us : List ConnectionTask) (xs : List ℕ)
    → us ≡ ts
    → LeftOf xs (peers ts)
    → LeftOf xs (peers us)
was ts us xs e h = subst (λ x. LeftOf xs (peers x)) (sym e) h

abbrev pub Left : Server → Server → Type 0
Left s t = (t.mode ≢ accepting) × LeftOf (peers t.tasks) (peers s.tasks)

abbrev mode_code : Mode → ℕ
mode_code accepting = 0
mode_code graceful = 1
mode_code aborting = 2
mode_code returned = 3

not_accepting : (m : Mode) → (mode_code m ≢ 0) → m ≢ accepting
not_accepting m h e = h (ap mode_code e)

Step-Left : {s t : Server} → Step s t → s.mode ≢ accepting → Left s t
Step-Left (accept s peer on) off = absurd (off on)
Step-Left (accept_failed s on) off = absurd (off on)
Step-Left (acquire s before after peer n at free) off =
    (off, was _ s.tasks _ at (replaced before after peer serving waiting))
Step-Left (timed_out s before after peer at) off =
    (off, was _ s.tasks _ at (removed before after _))
Step-Left (finish s before after peer at) off = (off, was _ s.tasks _ at (removed before after _))
Step-Left (tick s capacity limited on) off = (off, LeftOf-refl _)
Step-Left (shutdown s on) off = absurd (off on)
Step-Left (abort_all s on) off = (not_accepting aborting (λ e. omega arith), LeftOf-refl _)
Step-Left (aborted s before after peer phase on at) off =
    (off, was _ s.tasks _ at (removed before after _))
Step-Left (return s on empty) off = (not_accepting returned (λ e. omega arith), LeftOf-refl _)

-- Once the accept loop is left, the server does not accept again, and the connections that it has
-- are always some of those that it had, in their order.
pub Reach-Left : {s t : Server} → Reach s t → s.mode ≢ accepting → Left s t
Reach-Left {s} here off = (off, LeftOf-refl _)
Reach-Left (next r st) off =
    let (off_then, left) = Reach-Left r off in
    let (off_now, left_now) = Step-Left st off_then in (off_now, LeftOf-trans left_now left)
