-- ===== src/HttpActions/Late.antt =====
-- A handler that reaches its platform after its request is over.
use sockethub.Base.{
  ℕ, suc, ◌-◌, ◌≡◌, refl, Bool, true, List, [], ◌∷◌, arith, Text, leb, ltb, Bool-cases, inl, inr,
  ◌∙◌, text_eq, nat_eq, text_beq_iff,
}
use sockethub.Base.Table.{Table}
use sockethub.Base.Group.{member, member-add}
use sockethub.HttpActions.Writes.{persist_line-over, write_line-over, complete_request-again}
use sockethub.HttpActions.Cleanup.{holders, Tracks, run-Tracks, platform-Tracks}
use sockethub.HttpActions.Request.{
  RequestState, Write, Event, result_event, request_timeout_event, idle_timeout_event, close_event,
  platform_event, redis_event, step, run, persist_line, write_line, write_result,
  on_request_timeout, on_idle_timeout, on_close, on_platform_instance, settle_write, cleanup,
  close_response, settle_link, serialized,
}

-- Completion is over, and its cleanup done.
abbrev pub Over : RequestState → Type 0
Over r = (r.completion_started ≡ true) × (r.chain ≡ [])

settle-Over : (ok : Bool) (c : List Write) (r : RequestState) → c ≡ [] → settle_link ok c r ≡ r
unfolding cleanup close_response
settle-Over ok [] r e = refl
settle-Over ok (w ∷ c) r e = cc

-- The instance is tracked, and no cleanup is to come.
abbrev pub Stuck : Text → RequestState → Type 0
Stuck id r = Over r × (member id r.platform_ids ≡ true)

line-Over : (line : Text) (r : RequestState) → Over r → write_line line (persist_line line r) ≡ r
line-Over line r (c, _) = rw (persist_line-over line r c) (write_line-over line r c)

step-Stuck :
    (idle_ms : ℕ) (id : Text) (e : Event) (r : RequestState)
    → Stuck id r
    → Stuck id (step idle_ms e r)
unfolding step write_result on_request_timeout on_idle_timeout on_close on_platform_instance
    close_response settle_write
step-Stuck idle_ms id (result_event result) r (o, m) = elim (Bool-cases (leb r.pending 1)) [
  | inl last ↦
      rw
        (
          line-Over (serialized result r.request_id) r o,
          last,
          complete_request-again (record r { pending = r.pending - 1 }) o.0,
        )
        (o, m)
  | inr more ↦ rw (line-Over (serialized result r.request_id) r o, more) (o, m)
]
step-Stuck idle_ms id request_timeout_event r (o, m) = ground (arith, o, m)
step-Stuck idle_ms id idle_timeout_event r (o, m) = ground (arith, o, m)
step-Stuck idle_ms id close_event r (o, m) = elim (Bool-cases (ltb 0 r.pending)) [
  | inl some_left ↦ rw some_left (o, m)
  | inr none_left ↦ rw (none_left, complete_request-again r o.0) (o, m)
]
step-Stuck idle_ms id (platform_event j) r (o, m) = elim (Bool-cases (member j r.platform_ids)) [
  | inl known ↦ rw known (o, m)
  | inr new ↦ rw new (o, ground (arith, m, member-add j id r.platform_ids))
]
step-Stuck idle_ms id (redis_event ok) r (o, m) = rw (settle-Over ok r.chain r o.1) (o, m)

run-Stuck :
    (idle_ms : ℕ) (id : Text) (es : List Event) (r : RequestState)
    → Stuck id r
    → Stuck id (run idle_ms es r)
unfolding run
run-Stuck idle_ms id [] r h = h
run-Stuck idle_ms id (e ∷ es) r h =
    run-Stuck idle_ms id es (step idle_ms e r) (step-Stuck idle_ms id e r h)

reached-Stuck : (id : Text) (r : RequestState) → Over r → Stuck id (on_platform_instance id r)
unfolding on_platform_instance
reached-Stuck id r o = elim (Bool-cases (member id r.platform_ids)) [
  | inl known ↦ rw known (o, known)
  | inr new ↦ rw new (o, ground (arith, member-add id id r.platform_ids, text_beq_iff id id))
]

-- An instance that a handler reaches when its request is over is held from then on, whatever
-- happens: no event of the request gives it up.
pub late_platform_held :
    (before : Table Text ℕ) (idle_ms : ℕ) (id : Text) (es : List Event) (r : RequestState)
    → Tracks before r
    → Over r
    → holders id (run idle_ms es (on_platform_instance id r)).http_sessions
      ≡ suc (holders id before)
late_platform_held before idle_ms id es r t o =
    let r' = on_platform_instance id r in
    let (_, h) = run-Tracks before idle_ms es r' (platform-Tracks before id r t) in
    let (_, m) = run-Stuck idle_ms id es r' (reached-Stuck id r o) in h id ∙ rw m (omega arith)
