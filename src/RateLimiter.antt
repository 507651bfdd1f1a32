-- ===== src/RateLimiter.antt =====
-- packages/server/src/rate-limiter.ts: the per-socket event limiter.
-- Times are milliseconds. `now` is an argument of each call, where the code reads `Date.now()`.
pub mod Burst
pub mod Block
mod Tests
use sockethub.Base.{
  ℕ, suc, ◌+◌, ◌-◌, Bool, true, false, List, [], ◌∷◌, Option, none, some, if◌then◌else◌, ltb, Text,
  text_eq, or_else,
}
use sockethub.Base.Table.{Table, get, set, delete}

pub record RateLimitConfig : Type 0 where
  pub window_ms : ℕ
  pub max_requests : ℕ
  pub block_duration_ms : ℕ

pub record ClientState : Type 0 where
  pub count : ℕ
  pub window_start : ℕ
  pub blocked : Bool
  pub blocked_until : ℕ

abbrev pub default_config : RateLimitConfig
default_config = record { window_ms = 1000; max_requests = 100; block_duration_ms = 5000 }

abbrev pub stale_entry_threshold_ms : ℕ
stale_entry_threshold_ms = 60000

-- The module's variables. An interval is a number that the caller picks, as `setInterval` does.
pub record Limiter : Type 0 where
  pub client_states : Table Text ClientState
  pub cleanup_interval_id : Option ℕ
  pub cleanup_interval_running : Bool

-- `next()`, `next(error)` while blocked, and `next(error)` after an error event to the socket.
pub data Outcome : Type 0 where
  passed dropped limited : Outcome

abbrev pub fresh : ℕ → ClientState
fresh now = record { count = 0; window_start = now; blocked = false; blocked_until = 0 }

-- `now - state.windowStart > cfg.windowMs`: the difference is negative, hence not above the window,
-- where the clock went back.
pub roll_window : RateLimitConfig → ℕ → ClientState → ClientState
roll_window cfg now c =
    if ltb cfg.window_ms (now - c.window_start)
    then record c { count = 0; window_start = now }
    else c

pub count_event : RateLimitConfig → ℕ → ClientState → ClientState × Outcome
count_event cfg now c =
    if ltb cfg.max_requests (c.count + 1)
    then (
      record c { count = c.count + 1; blocked = true; blocked_until = now + cfg.block_duration_ms },
      limited,
    )
    else (record c { count = c.count + 1 }, passed)

-- What the middleware does to the state of one client.
pub admit : RateLimitConfig → ℕ → ClientState → ClientState × Outcome
unfolding roll_window count_event
admit cfg now c =
    if c.blocked
    then if ltb now c.blocked_until
      then (c, dropped)
      else count_event cfg now
          (roll_window cfg now (record c { blocked = false; count = 0; window_start = now }))
    else count_event cfg now (roll_window cfg now c)

-- `rateLimitMiddleware`.
pub rate_limit_middleware : RateLimitConfig → Text → ℕ → Limiter → Limiter × Outcome
rate_limit_middleware cfg id now s =
    let (c, o) = admit cfg now (or_else (get id s.client_states) (fresh now)) in
    (record s { client_states = set id c s.client_states }, o)

pub start_cleanup : ℕ → Limiter → Limiter
start_cleanup timer s =
    if s.cleanup_interval_running
    then s
    else record s { cleanup_interval_id = some timer; cleanup_interval_running = true }

pub stop_cleanup : Limiter → Limiter
stop_cleanup s = elim s.cleanup_interval_id [
  | none ↦ s
  | some _ ↦ record s { cleanup_interval_id = none; cleanup_interval_running = false }
]

-- The loop of the interval's callback over a snapshot of the entries.
pub sweep_entries : ℕ → Table Text ClientState → Table Text ClientState → Table Text ClientState
sweep_entries now [] m = m
sweep_entries now ((id, c) ∷ rest) m =
    sweep_entries now rest
      (if ltb stale_entry_threshold_ms (now - c.window_start) then delete id m else m)

pub sweep : ℕ → Limiter → Limiter
unfolding sweep_entries
sweep now s = record s { client_states = sweep_entries now s.client_states s.client_states }

pub cleanup_client : Text → Limiter → Limiter
cleanup_client id s = record s { client_states = delete id s.client_states }

-- `admit` over a client's events in order; the outcomes, oldest first.
pub admit_all : RateLimitConfig → List ℕ → ClientState → ClientState × List Outcome
unfolding admit
admit_all cfg [] c = (c, [])
admit_all cfg (now ∷ times) c =
    let (c', o) = admit cfg now c in let (c'', os) = admit_all cfg times c' in (c'', o ∷ os)
