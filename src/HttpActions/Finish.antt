-- ===== src/HttpActions/Finish.antt =====
-- packages/server/src/http/actions.ts: how the results of a request, and the end of its writes to Redis,
-- finish it.
use sockethub.Base.{
  ℕ, suc, ◌+◌, ◌-◌, ◌≤◌, ◌<◌, length, ◌≡◌, ◌∙◌, ap, refl, ◌⊎◌, Bool, true, false, ◌||◌, not, List,
  [], ◌∷◌, arith, Text, codes, leb, ltb, Bool-cases, inl, inr, text_eq, nat_eq,
}
use sockethub.Base.Table.{Table}
use sockethub.Base.Group.{member}
use sockethub.ConnectionScope.{Scopes}
use sockethub.HttpActions.Replay.{ends_finalizing, Phased, run-Phased}
use sockethub.HttpActions.Request.{
  RequestState, Write, append, finalize, Event, result_event, request_timeout_event,
  idle_timeout_event, close_event, platform_event, redis_event, step, run, start, complete_request,
  persist_line, write_line, write_error_line, write_result, on_request_timeout, on_idle_timeout,
  on_close, on_platform_instance, settle_write, cleanup, close_response, settle_link, serialized,
}

complete_request-started : (r : RequestState) → (complete_request r).completion_started ≡ true
unfolding complete_request cleanup close_response
complete_request-started r = elim (Bool-cases r.completion_started) [
  | inl c ↦ rw c refl
  | inr c ↦ elim (Bool-cases r.use_idempotency) [ inl u ↦ rw (c, u) refl | inr u ↦ rw (c, u) refl ]
]

line-started :
    (line : Text) (r : RequestState)
    → ((write_line line (persist_line line r)).completion_started ≡ r.completion_started)
      × ((write_line line (persist_line line r)).pending ≡ r.pending)
unfolding persist_line
line-started line r = ground arith

settle-started :
    (ok : Bool) (c : List Write) (r : RequestState)
    → ((settle_link ok c r).completion_started ≡ r.completion_started)
      × ((settle_link ok c r).pending ≡ r.pending)
unfolding cleanup close_response
settle-started ok [] r = (refl, refl)
settle-started ok (append line ∷ rest) r = (refl, refl)
settle-started ok (finalize ∷ rest) r = (refl, refl)

-- How many results a step brings.
abbrev pub results_in : Event → ℕ
results_in (result_event result) = 1
results_in request_timeout_event = 0
results_in idle_timeout_event = 0
results_in close_event = 0
results_in (platform_event id) = 0
results_in (redis_event ok) = 0

abbrev pub results : List Event → ℕ
results [] = 0
results (e ∷ es) = results_in e + results es

-- A request is complete, or waits for more results than `n`.
abbrev Waits : ℕ → RequestState → Type 0
Waits n r = (r.completion_started ≡ true) ⊎ ((0 < r.pending) × (r.pending ≤ n))

Waits-none : (n : ℕ) (r : RequestState) → Waits (0 + n) r → Waits n r
Waits-none n r (inl c) = inl c
Waits-none n r (inr (p, q)) = inr (p, omega (arith, q))

still :
    (n : ℕ) (r : RequestState)
    → Waits (1 + n) r
    → leb r.pending 1 ≡ false
    → (r.completion_started ≡ true) ⊎ ((0 < r.pending - 1) × (r.pending - 1 ≤ n))
still n r (inl c) more = inl c
still n r (inr (p, q)) more = inr (ground (arith, more), omega (arith, q))

step-Waits :
    (idle_ms n : ℕ) (e : Event) (r : RequestState)
    → Waits (results_in e + n) r
    → Waits n (step idle_ms e r)
unfolding step write_result on_request_timeout on_idle_timeout on_close on_platform_instance
    close_response settle_write
step-Waits idle_ms n (result_event result) r h =
    let line = serialized result r.request_id in
    let (c, p) = line-started line r in
    let r' = write_line line (persist_line line r) in
    elim (Bool-cases (leb r.pending 1)) [
      | inl last ↦ rw last (inl (complete_request-started (record r' { pending = r'.pending - 1 })))
      | inr more ↦ rw (more, c, p) (still n r h more)
    ]
step-Waits idle_ms n request_timeout_event r h =
    elim (Bool-cases (not r.request_timeout || r.completion_started)) [
      | inl off ↦ rw off (Waits-none n r h)
      | inr on ↦ rw on (
          inl (
            complete_request-started
              (write_error_line (codes "request timeout") (record r { request_timeout = false }))))
    ]
step-Waits idle_ms n idle_timeout_event r h =
    elim (Bool-cases (not r.idle_timeout || r.completion_started)) [
      | inl off ↦ rw off (Waits-none n r h)
      | inr on ↦ rw on (
          inl (
            complete_request-started (
              write_error_line (codes "request idle timeout") (record r { idle_timeout = false }))))
    ]
step-Waits idle_ms n close_event r h = elim (Bool-cases (ltb 0 r.pending)) [
  | inl some_left ↦ rw some_left (Waits-none n r h)
  | inr none_left ↦ rw none_left (inl (complete_request-started r))
]
step-Waits idle_ms n (platform_event id) r h = elim (Bool-cases (member id r.platform_ids)) [
  | inl known ↦ rw known (Waits-none n r h)
  | inr new ↦ rw new (Waits-none n r h)
]
step-Waits idle_ms n (redis_event ok) r h =
    let (c, p) = settle-started ok r.chain r in rw (c, p) (Waits-none n r h)

run-Waits :
    (idle_ms : ℕ) (es : List Event) (r : RequestState)
    → Waits (results es) r
    → (run idle_ms es r).completion_started ≡ true
unfolding run
run-Waits idle_ms [] r (inl c) = c
run-Waits idle_ms [] r (inr (p, q)) = ground (arith, p, q)
run-Waits idle_ms (e ∷ es) r h =
    run-Waits idle_ms es (step idle_ms e r) (step-Waits idle_ms (results es) e r h)

-- The response is closed, no write waits, and the request is cleaned up.
abbrev pub Closed : RequestState → Type 0
Closed r = (r.response_closed ≡ true) × (r.chain ≡ []) × (r.store_torn_down ≡ true)

-- Redis is done with as many writes as `oks` says, each as its entry says.
abbrev pub settlements : List Bool → List Event
settlements [] = []
settlements (ok ∷ oks) = redis_event ok ∷ settlements oks

-- As many settlements as there are writes close the response, whether Redis fails them or not.
settled-closes :
    (idle_ms : ℕ) (oks : List Bool) (c : List Write) (r : RequestState)
    → r.chain ≡ c
    → ends_finalizing c ≡ true
    → length oks ≡ length c
    → Closed (run idle_ms (settlements oks) r)
unfolding run step settle_write cleanup close_response
settled-closes idle_ms oks [] r e f l = cc
settled-closes idle_ms [] (w ∷ c) r e f l = ground (arith, l)
settled-closes idle_ms (ok ∷ oks) (append line ∷ c) r e f l =
    rw e
      (settled-closes idle_ms oks c (settle_link ok (append line ∷ c) r) refl f (omega (arith, l)))
settled-closes idle_ms (ok ∷ []) (finalize ∷ []) r e f l = rw e (refl, refl, refl)
settled-closes idle_ms (ok ∷ o ∷ oks) (finalize ∷ []) r e f l = ground (arith, l)
settled-closes idle_ms (ok ∷ oks) (finalize ∷ w ∷ c) r e f l = cc

Phased-closes :
    (idle_ms : ℕ) (oks : List Bool) (r : RequestState)
    → Phased r
    → r.completion_started ≡ true
    → length oks ≡ length r.chain
    → Closed (run idle_ms (settlements oks) r)
unfolding run
Phased-closes idle_ms oks r (inl (c, _, _)) s l = cc
Phased-closes idle_ms oks r (inr (inl (c, e, n))) s l =
    settled-closes idle_ms oks r.chain r refl e l
Phased-closes idle_ms [] r (inr (inr (c, n, o, t))) s l = (o, n, t)
Phased-closes idle_ms (ok ∷ oks) r (inr (inr (c, n, o, t))) s l =
    let e : suc (length oks) ≡ 0 = l ∙ ap length n in absurd (omega (arith, e))

-- A request with an id of the client and at least one payload, to which at least as many results come as
-- it has payloads, whatever other events happen before or between: once Redis is done with the writes
-- that then wait, failed or not, its response is closed, no write waits, and it is cleaned up.
pub answered-completes :
    (request_id session_id : Text) (payloads request_ms idle_ms : ℕ) (http_sessions : Table Text ℕ)
    (scopes : Scopes) (es : List Event) (oks : List Bool)
    → 0 < payloads
    → payloads ≤ results es
    → length oks
      ≡ length
          (run idle_ms es (
            start request_id session_id true payloads request_ms idle_ms http_sessions
              scopes)).chain
    → let r =
        run idle_ms es
          (start request_id session_id true payloads request_ms idle_ms http_sessions scopes) in
      Closed (run idle_ms (settlements oks) r)
unfolding start
answered-completes request_id session_id payloads request_ms idle_ms http_sessions scopes es oks p q
      l =
    let r = start request_id session_id true payloads request_ms idle_ms http_sessions scopes in
    Phased-closes idle_ms oks (run idle_ms es r)
      (run-Phased idle_ms es r (ground arith) (ground arith))
      (run-Waits idle_ms es r (ground (arith, p, q))) l
