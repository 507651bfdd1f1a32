-- ===== src/RateLimiter/Block.antt =====
-- Whole calls of the middleware: how long a block lasts, and what the clean-up may touch.
use sockethub.Base.{
  ℕ, ◌+◌, ◌-◌, ◌≤◌, ◌<◌, ◌≡◌, refl, ◌⊎◌, inr, Bool, true, List, [], ◌∷◌, Option, none, some, arith,
  if◌then◌else◌, Text, text_eq, ◌==◌, eq_refl, or_else,
}
use sockethub.Base.Table.{Table, get, set, delete, get-set, get-delete}
use sockethub.RateLimiter.{
  RateLimitConfig, ClientState, Limiter, passed, dropped, limited, fresh, admit,
  rate_limit_middleware, sweep, sweep_entries, cleanup_client, stale_entry_threshold_ms,
}
use sockethub.RateLimiter.Burst.{IsValid, admit-IsValid}

-- One event of the process: an arrival, a tick of the interval, a disconnect.
pub data Event : Type 0 where
  arrive : Text → ℕ → Event
  tick : ℕ → Event
  disconnect : Text → Event

unfoldable pub step : RateLimitConfig → Limiter → Event → Limiter
step cfg s (arrive id now) = (rate_limit_middleware cfg id now s).0
step cfg s (tick now) = sweep now s
step cfg s (disconnect id) = cleanup_client id s

unfoldable pub run : RateLimitConfig → Limiter → List Event → Limiter
unfolding step
run cfg s [] = s
run cfg s (e ∷ es) = run cfg (step cfg s e) es

-- Every client's state is well formed.
abbrev pub AllValid : RateLimitConfig → Limiter → Type 0
AllValid cfg s = (id : Text) (c : ClientState) → get id s.client_states ≡ some c → IsValid cfg c

get-sweep_entries :
    (now : ℕ) (id : Text) (es m : Table Text ClientState)
    → (get id (sweep_entries now es m) ≡ none) ⊎ (get id (sweep_entries now es m) ≡ get id m)
unfolding sweep_entries
get-sweep_entries now id [] m = inr refl
get-sweep_entries now id ((j, c) ∷ es) m = ground (
  arith,
  get-sweep_entries now id es (delete j m),
  get-sweep_entries now id es m,
  get-delete j id m,
)

sweep_entries-none :
    (now : ℕ) (id : Text) (es m : Table Text ClientState)
    → get id m ≡ none
    → get id (sweep_entries now es m) ≡ none
sweep_entries-none now id es m h = ground (arith, get-sweep_entries now id es m)

get-sweep_entries_stale :
    (now : ℕ) (id : Text) (es m : Table Text ClientState) (c : ClientState)
    → get id es ≡ some c
    → stale_entry_threshold_ms < now - c.window_start
    → get id (sweep_entries now es m) ≡ none
unfolding sweep_entries get
get-sweep_entries_stale now id [] m c h st = cc
get-sweep_entries_stale now id ((j, d) ∷ es) m c h st = ground (
  arith,
  get-sweep_entries_stale now id es (delete j m) c,
  get-sweep_entries_stale now id es m c,
  sweep_entries-none now id es (delete j m),
  get-delete j id m,
)

pub get-middleware :
    (cfg : RateLimitConfig) (id j : Text) (now : ℕ) (s : Limiter)
    → get j (rate_limit_middleware cfg id now s).0.client_states ≡ (
        if id == j
        then some (admit cfg now (or_else (get id s.client_states) (fresh now))).0
        else get j s.client_states)
unfolding rate_limit_middleware
get-middleware cfg id j now s = get-set id j _ s.client_states

fresh-IsValid : (cfg : RateLimitConfig) (now : ℕ) → IsValid cfg (fresh now)
fresh-IsValid cfg now = ground arith

or_fresh-IsValid :
    (cfg : RateLimitConfig) (id : Text) (now : ℕ) (s : Limiter)
    → AllValid cfg s
    → IsValid cfg (or_else (get id s.client_states) (fresh now))
or_fresh-IsValid cfg id now s v = go (get id s.client_states) refl
  where
    go : (o : Option ClientState) → get id s.client_states ≡ o → IsValid cfg (or_else o (fresh now))
    go none e = fresh-IsValid cfg now
    go (some c) e = v id c e

step-AllValid :
    (cfg : RateLimitConfig) (s : Limiter) (e : Event) → AllValid cfg s → AllValid cfg (step cfg s e)
unfolding step sweep cleanup_client
step-AllValid cfg s (arrive id now) v j c h = ground (
  arith,
  v j c,
  get-middleware cfg id j now s,
  admit-IsValid cfg (or_else (get id s.client_states) (fresh now)) now
      (or_fresh-IsValid cfg id now s v),
)
step-AllValid cfg s (tick now) v j c h =
    ground (arith, v j c, get-sweep_entries now j s.client_states s.client_states)
step-AllValid cfg s (disconnect id) v j c h = ground (arith, v j c, get-delete id j s.client_states)

run-AllValid :
    (cfg : RateLimitConfig) (s : Limiter) (es : List Event)
    → AllValid cfg s
    → AllValid cfg (run cfg s es)
unfolding run
run-AllValid cfg s [] v = v
run-AllValid cfg s (e ∷ es) v = run-AllValid cfg (step cfg s e) es (step-AllValid cfg s e v)

-- From a server without clients, whatever arrives, leaves or is swept, each client that is known is
-- below its limit, or blocked by the event that went one past it.
pub run-IsValid :
    (cfg : RateLimitConfig) (interval : Option ℕ) (running : Bool) (es : List Event) (id : Text)
    (c : ClientState)
    → get id
        (run cfg
          (record {
            client_states = [];
            cleanup_interval_id = interval;
            cleanup_interval_running = running;
          })
          es).client_states
      ≡ some c
    → IsValid cfg c
unfolding get
run-IsValid cfg interval running es id c h =
    run-AllValid cfg
      (record {
        client_states = [];
        cleanup_interval_id = interval;
        cleanup_interval_running = running;
      })
      es (λ id c e. cc) id c h

admit-limited :
    (cfg : RateLimitConfig) (now : ℕ) (c : ClientState)
    → (admit cfg now c).1 ≡ limited
    → ((admit cfg now c).0.blocked ≡ true)
      × ((admit cfg now c).0.blocked_until ≡ now + cfg.block_duration_ms)
unfolding admit
admit-limited cfg now c h = ground arith

admit-dropped :
    (cfg : RateLimitConfig) (now : ℕ) (c : ClientState)
    → c.blocked ≡ true
    → now < c.blocked_until
    → admit cfg now c ≡ (c, dropped)
unfolding admit
admit-dropped cfg now c b h = ground arith

-- Once an event is turned away with an error event, the next one is dropped, and the client's state
-- stays, if the time is below the end of the block.
limited-blocks :
    (cfg : RateLimitConfig) (id : Text) (now later : ℕ) (s : Limiter)
    → (rate_limit_middleware cfg id now s).1 ≡ limited
    → later < now + cfg.block_duration_ms
    → ((rate_limit_middleware cfg id later (rate_limit_middleware cfg id now s).0).1 ≡ dropped)
      × (get id
            (rate_limit_middleware cfg id later
              (rate_limit_middleware cfg id now s).0).0.client_states
          ≡ get id (rate_limit_middleware cfg id now s).0.client_states)
unfolding rate_limit_middleware
limited-blocks cfg id now later s l h =
    let c = (admit cfg now (or_else (get id s.client_states) (fresh now))).0 in
    let (b, u) = admit-limited cfg now (or_else (get id s.client_states) (fresh now)) l in
    ground (
      arith,
      b,
      u,
      admit-dropped cfg later c b (omega (arith, u)),
      get-set id id c s.client_states,
      get-set id id c (set id c s.client_states),
      eq_refl {A = Text} id,
    )

-- With a limit of at least one event, a client whose block still runs, and whose window began more than a
-- minute ago, has its next event let through if the interval ticks before, and dropped if not.
pub sweep-lifts_block :
    (cfg : RateLimitConfig) (id : Text) (now : ℕ) (s : Limiter) (c : ClientState)
    → 1 ≤ cfg.max_requests
    → get id s.client_states ≡ some c
    → c.blocked ≡ true
    → now < c.blocked_until
    → stale_entry_threshold_ms < now - c.window_start
    → ((rate_limit_middleware cfg id now s).1 ≡ dropped)
      × ((rate_limit_middleware cfg id now (sweep now s)).1 ≡ passed)
unfolding rate_limit_middleware sweep admit
sweep-lifts_block cfg id now s c m e b u st =
    ground (arith, get-sweep_entries_stale now id s.client_states s.client_states c)
