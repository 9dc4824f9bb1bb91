-- ===== src/Tests/Limits.antt =====
-- The theorem on the rate limiter at a concrete input.
use silent.Prelude.{ℕ, ◌+◌, ◌-◌, ◌*◌, ◌/◌, ◌≤◌, min, refl, [], ◌∷◌, arith, leb, ltb}
use silent.Middleware.RateLimiter.{Float, new_limiter}
use silent.Middleware.RateLimiter.Window.{grants, after, grants_burst}

instance whole_seconds : Float ℕ
whole_seconds = record {
  of_nat = λ n. n;
  add = λ a b. a + b;
  sub = λ a b. a - b;
  mul = λ a b. a * b;
  div = λ a b. a / b;
  least = λ a b. min a b;
  le = leb;
  lt = ltb;
  secs_f64 = λ n. n / 1000000000;
  ceil = λ n. n;
  le-of_nat = λ c. ground arith;
  le-least = λ x c. ground arith;
  le-sub = λ x c small few. ground arith;
  le-keep = λ x c few. ground arith;
  le-zero = λ x full. ground arith;
  lt-zero = refl;
}

grants_burst_example :
    let (self, state) = new_limiter {F = ℕ} 0 1 2 in
    grants self 5000000000 9 (after self (0 ∷ 10 ∷ 20 ∷ []) state) ≤ 2
grants_burst_example = grants_burst 0 1 2 (0 ∷ 10 ∷ 20 ∷ []) 5000000000 9 (omega arith)
