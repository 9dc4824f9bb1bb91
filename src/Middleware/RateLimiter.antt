-- ===== src/Middleware/RateLimiter.antt =====
-- silent/src/middleware/middlewares/rate_limiter.rs. Its tokens are floating point numbers, of which
-- `Float` has the operations and what is relied on: how they are ordered, and that a difference of
-- whole numbers is exact. Time is in nanoseconds, and a difference of times stops at 0.
pub mod Window
use silent.Prelude.{
  ℕ, zero, suc, ◌+◌, ◌-◌, ◌*◌, ◌/◌, ◌%◌, ◌^◌, ◌≤◌, ◌<◌, min, max, String, ◌≡◌, refl, sym, ap, ap₂,
  subst, ◌∙◌, fun_ext, ◌≡⟨◌⟩◌, ◌∎, ◌≢◌, ◌↔◌, ◌⊎◌, inl, inr, Bool, true, false, not, ◌&&◌, ◌||◌,
  Option, none, some, List, [], ◌∷◌, ◌++◌, map, foldr, append-nil, append_assoc, arith, ltb, leb,
  ◌==◌, if◌then◌else◌, ltb→lt, lt→ltb, leb→le, ==_iff, tests, Bool-cases, Option-cases, length,
  get_elem?, take, drop, any, find, retain, length-append, drop-length-append, take-length-append,
  length-drop, length-retain-le, All, All-append, All-get, Eq, ◌=?◌, nat_Eq,
}
use silent.Text.{Text, text}
use silent.Text.Decimal.{decimal}
use silent.Core.Error.{Result, ok}
use silent.Core.Http.{HeaderApi, Request, Response, once, empty_response, set_body}
use silent.Core.Next.{Handler}

pub record Float (F : Type 0) : Type 0 where
  pub of_nat : ℕ → F
  pub add : F → F → F
  pub sub : F → F → F
  pub mul : F → F → F
  pub div : F → F → F
  pub least : F → F → F
  pub le : F → F → Bool
  pub lt : F → F → Bool
  -- `as_secs_f64` of nanoseconds, and `ceil` with a cast to an unsigned integer
  pub secs_f64 : ℕ → F
  pub ceil : F → ℕ
  pub le-of_nat : (c : ℕ) → le (of_nat c) (of_nat c) ≡ true
  pub le-least : (x : F) (c : ℕ) → le (least x (of_nat c)) (of_nat c) ≡ true
  pub le-sub :
      (x : F) (c : ℕ)
      → c < 2 ^ 53
      → le x (of_nat (suc c)) ≡ true
      → le (sub x (of_nat 1)) (of_nat c) ≡ true
  pub le-keep : (x : F) (c : ℕ) → le x (of_nat c) ≡ true → le (sub x (of_nat 1)) (of_nat c) ≡ true
  pub le-zero : (x : F) → le (of_nat 1) x ≡ true → le x (of_nat 0) ≡ false
  pub lt-zero : lt (of_nat 0) (secs_f64 0) ≡ false

pub record BucketState (F : Type 0) : Type 0 where
  pub tokens : F
  pub last_refill : ℕ

pub record RateLimiter (F : Type 0) : Type 0 where
  pub rate : F
  pub capacity : ℕ

module _ {F : Type 0} ⦃float : Float F⦄ where
  -- The limiter and the state behind its mutex.
  unfoldable pub new_limiter : ℕ → F → ℕ → RateLimiter F × BucketState F
  new_limiter now rate capacity = (
    record { rate = rate; capacity = capacity },
    record { tokens = float.of_nat capacity; last_refill = now },
  )

  unfoldable pub per_second : ℕ → F → RateLimiter F × BucketState F
  unfolding new_limiter
  per_second now rate = new_limiter now rate (float.ceil rate)

  -- The refill at the start of `try_acquire`.
  abbrev pub refill_bucket : RateLimiter F → ℕ → BucketState F → BucketState F
  refill_bucket self now state =
      let elapsed = float.secs_f64 (now - state.last_refill) in
      if float.lt (float.of_nat 0) elapsed
      then record {
        tokens =
            float.least (float.add state.tokens (float.mul elapsed self.rate))
              (float.of_nat self.capacity);
        last_refill = now;
      }
      else state

  -- The consumption at its end.
  abbrev pub take_token : BucketState F → Bool × BucketState F
  take_token state =
      if float.le (float.of_nat 1) state.tokens
      then (true, record state { tokens = float.sub state.tokens (float.of_nat 1) })
      else (false, state)

  unfoldable pub try_acquire : RateLimiter F → ℕ → BucketState F → Bool × BucketState F
  try_acquire self now state = take_token (refill_bucket self now state)

  unfoldable pub retry_after_secs : RateLimiter F → BucketState F → ℕ
  retry_after_secs self state =
      let deficit = float.sub (float.of_nat 1) state.tokens in
      if float.le deficit (float.of_nat 0) then 0 else float.ceil (float.div deficit self.rate)

module _ {H : Type 0} ⦃api : HeaderApi H⦄ where
  abbrev pub too_many_requests : ℕ → Response H
  unfolding empty_response
  too_many_requests retry_after = record empty_response {
    status = 429;
    headers = api.insert (text "retry-after") (decimal retry_after) api.empty;
    body = once (text "Too Many Requests");
  }

module _ {F H W : Type 0} ⦃float : Float F⦄ ⦃api : HeaderApi H⦄ where
  abbrev pub pass_or_refuse :
      RateLimiter F
      → Request H
      → Handler H W
      → W
      → Bool × BucketState F
      → (Result (Response H) × W) × BucketState F
  unfolding retry_after_secs
  pass_or_refuse self req next w (true, state) = (next req w, state)
  pass_or_refuse self req next w (false, state) =
      ((ok (too_many_requests (max (retry_after_secs self state) 1)), w), state)

  -- The request is answered at the time `now`.
  unfoldable pub handle_limited :
      RateLimiter F
      → ℕ
      → Request H
      → Handler H W
      → W
      → BucketState F
      → (Result (Response H) × W) × BucketState F
  unfolding try_acquire
  handle_limited self now req next w state =
      pass_or_refuse self req next w (try_acquire self now state)
