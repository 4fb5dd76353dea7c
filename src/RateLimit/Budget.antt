-- ===== src/RateLimit/Budget.antt =====
-- How many calls one window lets through, and what the read-only questions promise.
use Prim.Native.Nat.{min, max}
use scout_site.Prelude.{
  ℕ, ◌+◌, ◌-◌, ◌≤◌, ◌<◌, ◌≡◌, refl, inl, inr, true, not, some, List, [], ◌∷◌, arith, leb, ◌==◌,
  if◌then◌else◌, Option-cases, All,
}
use scout_site.RateLimit.{
  Window, Limiter, lookup, store, sweep_locked, allow, blocked, retry_after, count_allowed,
}

lookup-store :
    (j k : ℕ) (w : Window) (ws : List (ℕ × Window))
    → lookup j (store k w ws) ≡ (if k == j then some w else lookup j ws)
unfolding lookup store
lookup-store j k w [] = refl
lookup-store j k w ((i, v) ∷ ws) = ground (arith, lookup-store j k w ws)

-- A sweep drops no live window.
lookup-sweep_locked :
    (k now : ℕ) {w : Window} (ws : List (ℕ × Window))
    → lookup k ws ≡ some w
    → now ≤ w.expires_at
    → lookup k (sweep_locked now ws) ≡ some w
unfolding lookup sweep_locked
lookup-sweep_locked k now [] e live = e
lookup-sweep_locked k now {w} ((i, v) ∷ ws) e live =
    ground (arith, lookup-sweep_locked k now {w = w} ws)

-- `Blocked` is exactly the prediction that `Allow` would refuse the key at that time.
pub blocked-refused : (l : Limiter) (now key : ℕ) → blocked l now key ≡ not (allow l now key).1
unfolding blocked allow
blocked-refused l now key = ground arith

-- After more than `RetryAfter` has passed the key is let through.
pub allow-retry_after :
    (l : Limiter) (now key d : ℕ) → (allow l (now + retry_after l now key + d + 1) key).1 ≡ true
unfolding allow retry_after
allow-retry_after l now key d = ground arith

-- How many of the calls are for the key.
abbrev pub calls_for : ℕ → List (ℕ × ℕ) → ℕ
calls_for key [] = 0
calls_for key ((now, k) ∷ calls) = if k == key then calls_for key calls + 1 else calls_for key calls

-- A call while the key's window is live counts it if it is for the key, and leaves it otherwise.
allow-live :
    (l : Limiter) (now k key : ℕ) {w : Window}
    → lookup key l.windows ≡ some w
    → now ≤ w.expires_at
    → lookup key (allow l now k).0.windows
      ≡ (if k == key then some (record w { count = w.count + 1 }) else some w)
unfolding allow
allow-live l now k key {w} e live =
    grind (arith, lookup-store, lookup-sweep_locked key now l.windows e live)

limit-allow : (l : Limiter) (now k : ℕ) → (allow l now k).0.limit ≡ l.limit
unfolding allow
limit-allow l now k = ground arith

passed-live :
    (l : Limiter) (now key : ℕ) {w : Window}
    → lookup key l.windows ≡ some w
    → now ≤ w.expires_at
    → (allow l now key).1 ≡ leb (w.count + 1) l.limit
unfolding allow
passed-live l now key e live = ground arith

-- While a window is live it lets through what is left of its limit, and no more.
count_allowed-live :
    (key : ℕ) (calls : List (ℕ × ℕ)) (l : Limiter) (w : Window)
    → lookup key l.windows ≡ some w
    → All (λ c. c.0 ≤ w.expires_at) calls
    → count_allowed key calls l ≡ min (calls_for key calls) (l.limit - w.count)
unfolding count_allowed
count_allowed-live key [] l w e h = omega arith
count_allowed-live key ((now, k) ∷ calls) l w e (live, h) = ground (
  arith,
  allow-live l now k key e live,
  limit-allow l now k,
  passed-live l now key e live,
  count_allowed-live key calls (allow l now k).0 w,
  count_allowed-live key calls (allow l now k).0 (record w { count = w.count + 1 }),
)

-- No window of the key is live.
abbrev Idle : Limiter → ℕ → ℕ → Type 0
Idle l now key = (w : Window) → lookup key l.windows ≡ some w → w.expires_at < now

allow-Idle :
    (l : Limiter) (now key : ℕ)
    → Idle l now key
    → ((allow l now key).1 ≡ true)
      × (lookup key (allow l now key).0.windows
          ≡ some (record { count = 1; expires_at = now + l.window }))
unfolding allow
allow-Idle l now key idle = elim (Option-cases (lookup key l.windows)) [
  | inl e ↦ ground (
    arith,
    lookup-store key key (record { count = 1; expires_at = now + l.window })
        (sweep_locked now l.windows),
  )
  | inr (w, e) ↦ ground (
    arith,
    idle w e,
    lookup-store key key (record { count = 1; expires_at = now + l.window })
        (sweep_locked now l.windows),
  )
]

-- From a call that finds no live window of its key, the calls for that key up to the end of the
-- window it opens are let through until the limit is used up (or one call, where the limit is 0),
-- whatever calls for other keys come between.
pub window_budget :
    (l : Limiter) (now key : ℕ) (calls : List (ℕ × ℕ))
    → Idle l now key
    → All (λ c. c.0 ≤ now + l.window) calls
    → count_allowed key ((now, key) ∷ calls) l ≡ min (calls_for key calls + 1) (max 1 l.limit)
unfolding count_allowed
window_budget l now key calls idle h = ground (
  arith,
  allow-Idle l now key idle,
  limit-allow l now key,
  count_allowed-live key calls (allow l now key).0
      (record { count = 1; expires_at = now + l.window }),
)
