-- ===== src/RateLimiter/Burst.antt =====
-- What a client gets through within one window.
use sockethub.Base.{
  ℕ, suc, ◌+◌, ◌-◌, ◌≤◌, ◌<◌, min, ◌≡◌, refl, ◌⊎◌, true, false, List, [], ◌∷◌, arith, length, All,
}
use sockethub.RateLimiter.{RateLimitConfig, ClientState, Outcome, passed, admit, admit_all}

-- How many events went through.
abbrev pub passes : List Outcome → ℕ
passes [] = 0
passes (passed ∷ os) = suc (passes os)
passes (_ ∷ os) = passes os

-- A client is below its limit, or blocked by the event that went one past it.
abbrev pub IsValid : RateLimitConfig → ClientState → Type 0
IsValid cfg c =
    ((c.blocked ≡ false) × (c.count ≤ cfg.max_requests))
    ⊎ ((c.blocked ≡ true) × (c.count ≡ cfg.max_requests + 1))

pub admit-IsValid :
    (cfg : RateLimitConfig) (c : ClientState) (now : ℕ)
    → IsValid cfg c
    → IsValid cfg (admit cfg now c).0
unfolding admit
admit-IsValid cfg c now v = ground arith

-- The times of a burst: inside the window that began at `w`, and before a block of it could end.
abbrev pub InBurst : RateLimitConfig → ℕ → ℕ → Type 0
InBurst cfg w t = (w ≤ t) × (t ≤ w + cfg.window_ms) × (t < w + cfg.block_duration_ms)

-- A blocked client gets nothing through, and stays as it is.
admit_all-blocked :
    (cfg : RateLimitConfig) (times : List ℕ) (c : ClientState)
    → c.blocked ≡ true
    → All (λ t. t < c.blocked_until) times
    → passes (admit_all cfg times c).1 ≡ 0
unfolding admit_all
admit_all-blocked cfg [] c b h = refl
admit_all-blocked cfg (t ∷ times) c b h = ground (arith, admit_all-blocked cfg times c b h.1)

All-until :
    (cfg : RateLimitConfig) (w u : ℕ) (times : List ℕ)
    → w + cfg.block_duration_ms ≤ u
    → All (InBurst cfg w) times
    → All (λ t. t < u) times
All-until cfg w u [] h a = tt
All-until cfg w u (t ∷ times) h a = (omega arith, All-until cfg w u times h a.1)

tripped_lem :
    (cfg : RateLimitConfig) (times : List ℕ) (c : ClientState) (t : ℕ)
    → c.window_start ≤ t
    → All (InBurst cfg c.window_start) times
    → passes
        (admit_all cfg times (record c {
          count = c.count + 1;
          blocked = true;
          blocked_until = t + cfg.block_duration_ms;
        })).1
      ≡ 0
tripped_lem cfg times c t le a =
    admit_all-blocked cfg times _ refl
      (All-until cfg c.window_start (t + cfg.block_duration_ms) times (omega arith) a)

-- Of the events of a burst inside one window and shorter than a block, a client that is not blocked
-- gets through exactly as many as its limit has left.
pub passes-admit_all :
    (cfg : RateLimitConfig) (times : List ℕ) (c : ClientState)
    → c.blocked ≡ false
    → c.count ≤ cfg.max_requests
    → All (InBurst cfg c.window_start) times
    → passes (admit_all cfg times c).1 ≡ min (length times) (cfg.max_requests - c.count)
unfolding admit_all
passes-admit_all cfg [] c b n h = omega arith
passes-admit_all cfg (t ∷ times) c b n h = ground (
  arith,
  tripped_lem cfg times c t (omega arith) h.1,
  passes-admit_all cfg times (record c { count = c.count + 1 }) b,
)
