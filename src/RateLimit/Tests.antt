-- ===== src/RateLimit/Tests.antt =====
-- Runs of the rate limiter, and the theorems at concrete inputs.
use Prim.Native.Nat.{min, max}
use scout_site.Prelude.{ℕ, ◌+◌, ◌≡◌, refl, true, not, List, [], ◌∷◌, arith}
use scout_site.RateLimit.{
  Limiter, lookup, store, sweep_locked, allow, blocked, retry_after, count_allowed,
}
use scout_site.RateLimit.Budget.{calls_for, blocked-refused, allow-retry_after, window_budget}

abbrev two_per_ten : Limiter
two_per_ten = record { windows = []; limit = 2; window = 10 }

abbrev later : List (ℕ × ℕ)
later = (3, 7) ∷ (4, 8) ∷ (9, 7) ∷ (10, 7) ∷ []

third_call_refused :
    count_allowed 7 ((0, 7) ∷ (3, 7) ∷ (4, 8) ∷ (9, 7) ∷ (11, 7) ∷ []) two_per_ten ≡ 3
unfolding count_allowed allow lookup store sweep_locked
third_call_refused = refl

window_budget_example :
    count_allowed 7 ((0, 7) ∷ later) two_per_ten ≡ min (calls_for 7 later + 1) (max 1 2)
unfolding lookup
window_budget_example = window_budget two_per_ten 0 7 later (λ w e. cc) (omega arith)

blocked-refused_example : blocked two_per_ten 3 7 ≡ not (allow two_per_ten 3 7).1
blocked-refused_example = blocked-refused two_per_ten 3 7

allow-retry_after_example : (allow two_per_ten (3 + retry_after two_per_ten 3 7 + 0 + 1) 7).1 ≡ true
allow-retry_after_example = allow-retry_after two_per_ten 3 7 0
