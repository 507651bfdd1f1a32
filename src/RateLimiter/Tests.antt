-- ===== src/RateLimiter/Tests.antt =====
-- Clients on which the theorems apply.
use sockethub.Base.{
  ◌≡◌, refl, true, false, List, [], ◌∷◌, none, arith, Text, codes, text_eq, nat_eq, text_beq,
}
use sockethub.Base.Table.{get, set}
use sockethub.RateLimiter.{
  RateLimitConfig, ClientState, Limiter, passed, dropped, admit, rate_limit_middleware, sweep,
}
use sockethub.RateLimiter.Burst.{IsValid}
use sockethub.RateLimiter.Block.{Event, arrive, run, step, run-IsValid, sweep-lifts_block}

-- Two events a second, then a block of two minutes.
abbrev cfg : RateLimitConfig
cfg = record { window_ms = 1000; max_requests = 2; block_duration_ms = 120000 }

abbrev client : Text
client = codes "s1"

abbrev seen_once : ClientState
seen_once = record { count = 1; window_start = 0; blocked = false; blocked_until = 0 }

abbrev flood : List Event
flood = arrive client 0 ∷ arrive client 1 ∷ arrive client 2 ∷ []

abbrev tripped : ClientState
tripped = record { count = 3; window_start = 0; blocked = true; blocked_until = 120002 }

run-IsValid_example : IsValid cfg tripped
unfolding run step rate_limit_middleware admit get set text_beq
run-IsValid_example = run-IsValid cfg none false flood client tripped refl

abbrev full : Limiter
full = record {
  client_states =
      (client, record { count = 2; window_start = 0; blocked = false; blocked_until = 0 }) ∷ [];
  cleanup_interval_id = none;
  cleanup_interval_running = false;
}

abbrev blocked_client : Limiter
blocked_client = record {
  client_states = (client, tripped) ∷ [];
  cleanup_interval_id = none;
  cleanup_interval_running = false;
}

sweep-lifts_block_example :
    ((rate_limit_middleware cfg client 100000 blocked_client).1 ≡ dropped)
    × ((rate_limit_middleware cfg client 100000 (sweep 100000 blocked_client)).1 ≡ passed)
unfolding get text_beq
sweep-lifts_block_example =
    sweep-lifts_block cfg client 100000 blocked_client tripped (omega arith) refl refl (omega arith)
      (omega arith)
