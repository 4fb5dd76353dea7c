-- ===== src/RateLimit.antt =====
-- The fixed-window rate limiter, internal/ratelimit/ratelimit.go. Keys are only compared, so they
-- are numbers; times and durations are nanoseconds. The clock is an argument of each call. A count
-- is a number: a window sees fewer than 2 ^ 63 calls.
pub mod Budget
mod Tests
use scout_site.Prelude.{
  ℕ, ◌+◌, ◌-◌, Bool, true, false, Option, none, some, List, [], ◌∷◌, ltb, leb, ◌==◌, if◌then◌else◌,
}

pub record Window : Type 0 where
  pub count : ℕ
  pub expires_at : ℕ

pub record Limiter : Type 0 where
  pub windows : List (ℕ × Window)
  pub limit : ℕ
  pub window : ℕ

-- `l.windows[key]`
pub lookup : ℕ → List (ℕ × Window) → Option Window
lookup key [] = none
lookup key ((k, w) ∷ ws) = if k == key then some w else lookup key ws

-- `l.windows[key] = w`
pub store : ℕ → Window → List (ℕ × Window) → List (ℕ × Window)
store key w [] = (key, w) ∷ []
store key w ((k, v) ∷ ws) = if k == key then (key, w) ∷ ws else (k, v) ∷ store key w ws

unfoldable make_limiter : ℕ → ℕ → Limiter
make_limiter limit per = record { windows = []; limit = limit; window = per }

-- Drops every window that has expired.
pub sweep_locked : ℕ → List (ℕ × Window) → List (ℕ × Window)
sweep_locked now [] = []
sweep_locked now ((k, w) ∷ ws) =
    if ltb w.expires_at now then sweep_locked now ws else (k, w) ∷ sweep_locked now ws

-- The branch of `Allow` with no live window.
open_window : Limiter → ℕ → ℕ → Limiter × Bool
open_window l now key = (
  record l {
    windows =
        store key (record { count = 1; expires_at = now + l.window }) (sweep_locked now l.windows);
  },
  true,
)

allow_in : Option Window → Limiter → ℕ → ℕ → Limiter × Bool
allow_in none l now key = open_window l now key
allow_in (some w) l now key = if ltb w.expires_at now then open_window l now key else (
  record l { windows = store key (record w { count = w.count + 1 }) l.windows },
  leb (w.count + 1) l.limit,
)

pub allow : Limiter → ℕ → ℕ → Limiter × Bool
unfolding open_window allow_in
allow l now key = allow_in (lookup key l.windows) l now key

blocked_in : Option Window → Limiter → ℕ → Bool
blocked_in none l now = false
blocked_in (some w) l now = if ltb w.expires_at now then false else leb l.limit w.count

pub blocked : Limiter → ℕ → ℕ → Bool
unfolding blocked_in
blocked l now key = blocked_in (lookup key l.windows) l now

retry_in : Option Window → ℕ → ℕ
retry_in none now = 0
retry_in (some w) now = if ltb now w.expires_at then w.expires_at - now else 0

pub retry_after : Limiter → ℕ → ℕ → ℕ
unfolding retry_in
retry_after l now key = retry_in (lookup key l.windows) now

-- A run of calls, each a time and a key, and how many of those for `key` were let through.
pub count_allowed : ℕ → List (ℕ × ℕ) → Limiter → ℕ
count_allowed key [] l = 0
count_allowed key ((now, k) ∷ calls) l =
    let (l', passed) = allow l now k in
    let rest = count_allowed key calls l' in
    if k == key then (if passed then rest + 1 else rest) else rest
