-- ===== src/Middleware/RateLimiter/Window.antt =====
-- How many requests a limiter lets through.
use silent.Prelude.{
  ℕ, zero, suc, ◌-◌, ◌^◌, ◌≤◌, ◌<◌, ◌≡◌, refl, sym, ap, subst, ◌∙◌, inl, inr, Bool, true, false,
  List, [], ◌∷◌, arith, Bool-cases, nat_Eq,
}
use mathlib.Core.Bool.{false≢true}
use silent.Middleware.RateLimiter.{
  Float, BucketState, RateLimiter, new_limiter, refill_bucket, take_token, try_acquire,
}

abbrev count_grant : Bool → ℕ → ℕ
count_grant true n = suc n
count_grant false n = n

module _ {F : Type 0} ⦃float : Float F⦄ where
  -- How many of `k` attempts at one time are granted.
  unfoldable pub grants : RateLimiter F → ℕ → ℕ → BucketState F → ℕ
  unfolding try_acquire
  grants self now zero state = 0
  grants self now (suc k) state =
      let (granted, next) = try_acquire self now state in
      let rest = grants self now k next in count_grant granted rest

  -- The state after attempts at these times.
  abbrev pub after : RateLimiter F → List ℕ → BucketState F → BucketState F
  unfolding try_acquire
  after self [] state = state
  after self (t ∷ times) state = after self times (try_acquire self t state).1

  -- There are at most this many tokens.
  abbrev AtMost : ℕ → BucketState F → Type 0
  AtMost c state = float.le state.tokens (float.of_nat c) ≡ true

  -- Nothing is refilled at this time.
  abbrev Quiet : ℕ → BucketState F → Type 0
  Quiet now state = float.lt (float.of_nat 0) (float.secs_f64 (now - state.last_refill)) ≡ false

  refill_bucket-AtMost :
      (self : RateLimiter F) (now : ℕ) (state : BucketState F)
      → AtMost self.capacity state
      → AtMost self.capacity (refill_bucket self now state)
  refill_bucket-AtMost self now state few =
      elim (Bool-cases (float.lt (float.of_nat 0) (float.secs_f64 (now - state.last_refill)))) [
        | inl passed ↦ rw passed (
            float.le-least
              (float.add state.tokens
                (float.mul (float.secs_f64 (now - state.last_refill)) self.rate))
              self.capacity)
        | inr quiet ↦ rw quiet few
      ]

  take_token-AtMost :
      (c : ℕ) (state : BucketState F) → AtMost c state → AtMost c (take_token state).1
  take_token-AtMost c state few = elim (Bool-cases (float.le (float.of_nat 1) state.tokens)) [
    | inl full ↦ rw full (float.le-keep state.tokens c few)
    | inr low ↦ rw low few
  ]

  after-AtMost :
      (self : RateLimiter F) (times : List ℕ) (state : BucketState F)
      → AtMost self.capacity state
      → AtMost self.capacity (after self times state)
  unfolding try_acquire
  after-AtMost self [] state few = few
  after-AtMost self (t ∷ times) state few = after-AtMost self times (try_acquire self t state).1 (
      take_token-AtMost self.capacity (refill_bucket self t state)
        (refill_bucket-AtMost self t state few))

  refill_bucket-Quiet :
      (self : RateLimiter F) (now : ℕ) (state : BucketState F)
      → Quiet now (refill_bucket self now state)
  refill_bucket-Quiet self now state =
      elim (Bool-cases (float.lt (float.of_nat 0) (float.secs_f64 (now - state.last_refill)))) [
        | inl passed ↦
            let same : now - now ≡ 0 = omega arith in
            rw passed (
              subst (λ n. float.lt (float.of_nat 0) (float.secs_f64 n) ≡ false) (sym same)
                float.lt-zero)
        | inr quiet ↦ rw quiet quiet
      ]

  -- Once nothing is refilled, each attempt that is granted takes one of the whole tokens.
  grants-Quiet :
      (self : RateLimiter F) (now k c : ℕ) (state : BucketState F)
      → Quiet now state
      → AtMost c state
      → c ≤ 2 ^ 53
      → grants self now k state ≤ c
  unfolding grants try_acquire
  grants-Quiet self now zero c state quiet few bound = omega arith
  grants-Quiet self now (suc k) zero state quiet few bound =
      elim (Bool-cases (float.le (float.of_nat 1) state.tokens)) [
        | inl full ↦ absurd (false≢true (sym (float.le-zero state.tokens full) ∙ few))
        | inr low ↦ rw (quiet, low) (grants-Quiet self now k zero state quiet few bound)
      ]
  grants-Quiet self now (suc k) (suc c) state quiet few bound =
      elim (Bool-cases (float.le (float.of_nat 1) state.tokens)) [
        | inl full ↦
            let next : BucketState F = record state {
              tokens = float.sub state.tokens (float.of_nat 1);
            } in
            let small : c < 2 ^ 53 = omega arith in
            let rest =
              grants-Quiet self now k c next quiet (float.le-sub state.tokens c small few)
                (omega arith) in
            rw (quiet, full) (omega (arith, rest))
        | inr low ↦ rw (quiet, low) (grants-Quiet self now k (suc c) state quiet few bound)
      ]

  refill_bucket-twice :
      (self : RateLimiter F) (now : ℕ) (state : BucketState F)
      → Quiet now state
      → refill_bucket self now state ≡ state
  refill_bucket-twice self now state quiet = rw quiet refl

  grants-refill_bucket :
      (self : RateLimiter F) (now k : ℕ) (state : BucketState F)
      → grants self now k state ≡ grants self now k (refill_bucket self now state)
  unfolding grants try_acquire
  grants-refill_bucket self now zero state = refl
  grants-refill_bucket self now (suc k) state =
      let filled = refill_bucket self now state in
      ap (λ s. count_grant (take_token s).0 (grants self now k (take_token s).1))
        (sym (refill_bucket-twice self now filled (refill_bucket-Quiet self now state)))

  -- With a capacity of at most 2^53, whatever requests came at whatever times before, of any number
  -- of attempts that a new limiter is given at one time no more are granted than its capacity.
  pub grants_burst :
      (start : ℕ) (rate : F) (capacity : ℕ) (times : List ℕ) (now k : ℕ)
      → capacity ≤ 2 ^ 53
      → let (self, state) = new_limiter start rate capacity in
        grants self now k (after self times state) ≤ capacity
  unfolding new_limiter
  grants_burst start rate capacity times now k bound =
      let self : RateLimiter F = record { rate = rate; capacity = capacity } in
      let state : BucketState F = record { tokens = float.of_nat capacity; last_refill = start } in
      let used = after self times state in
      let few = after-AtMost self times state (float.le-of_nat capacity) in
      subst (λ n. n ≤ capacity) (sym (grants-refill_bucket self now k used))
        (grants-Quiet self now k capacity (refill_bucket self now used)
          (refill_bucket-Quiet self now used) (refill_bucket-AtMost self now used few) bound)
