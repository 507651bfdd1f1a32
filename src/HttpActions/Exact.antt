-- ===== src/HttpActions/Exact.antt =====
-- Without a client that leaves early, a response and its record never differ.
use sockethub.Base.{
  ℕ, ◌≡◌, refl, ◌⊎◌, Bool, true, false, ◌||◌, not, List, [], ◌∷◌, ◌++◌, arith, Text, leb, All,
  Bool-cases, inl, inr, ap, sym, ◌∙◌,
}
use sockethub.HttpActions.Writes.{
  complete_request-first, complete_request-again, persist_line-waits, persist_line-over,
  write_line-over, write_line-open, write_error_line-open,
}
use sockethub.HttpActions.Replay.{Phased, step-Phased}
use sockethub.HttpActions.Stream.{waiting-append, waiting-finalize, append_assoc, Synced, waiting}
use sockethub.Base.{codes, text_eq, ◌⊎◌}
use sockethub.Base.Group.{member}
use sockethub.HttpActions.{build_server_error}
use sockethub.HttpActions.Request.{
  RequestState, Write, append, finalize, Event, result_event, request_timeout_event,
  idle_timeout_event, close_event, platform_event, redis_event, step, run, complete_request,
  persist_line, write_line, write_error_line, write_result, on_request_timeout, on_idle_timeout,
  on_platform_instance, settle_write, cleanup, close_response, serialized, settle_link,
}

-- The response is open until the request completes.
abbrev pub Open : RequestState → Type 0
Open r = (r.response_closed ≡ false) ⊎ (r.completion_started ≡ true)

abbrev pub Exact : RequestState → Type 0
Exact r = (r.use_idempotency ≡ true) × Synced r × Open r

Exact-open : (r : RequestState) → Exact r → r.completion_started ≡ false → r.response_closed ≡ false
Exact-open r (u, s, inl o) c = o
Exact-open r (u, s, inr d) c = cc

-- A line that is recorded is written.
both-Exact :
    (line : Text) (r : RequestState)
    → r.completion_started ≡ false
    → Exact r
    → Exact (record r { chain = r.chain ++ append line ∷ []; written = r.written ++ line ∷ [] })
both-Exact line r c (u, s, o) = (
  u,
  ap (λ t. r.stored ++ t) (waiting-append r.chain line)
      ∙ sym (append_assoc r.stored (waiting r.chain) (line ∷ []))
      ∙ ap (λ t. t ++ line ∷ []) s,
  o,
)

line-Exact :
    (line : Text) (r : RequestState) → Exact r → Exact (write_line line (persist_line line r))
line-Exact line r h = elim (Bool-cases r.completion_started) [
  | inl c ↦ rw (persist_line-over line r c, write_line-over line r c) h
  | inr c ↦
      let o = Exact-open r h c in
      rw
        (
          persist_line-waits line r h.0 c,
          write_line-open line (record r { chain = r.chain ++ append line ∷ [] }) c o,
        )
        (both-Exact line r c h)
]

error-Exact :
    (text : Text) (r : RequestState)
    → r.completion_started ≡ false
    → Exact r
    → Exact (write_error_line text r)
error-Exact text r c h =
    rw (write_error_line-open text r h.0 c (Exact-open r h c))
      (both-Exact (build_server_error text r.request_id) r c h)

complete-Exact : (r : RequestState) → Exact r → Exact (complete_request r)
complete-Exact r (u, s, o) = elim (Bool-cases r.completion_started) [
  | inl c ↦ rw (complete_request-again r c) (u, s, o)
  | inr c ↦
      rw (complete_request-first r u c)
        (u, ap (λ t. r.stored ++ t) (waiting-finalize r.chain) ∙ s, inr refl)
]

settle-Exact :
    (c : List Write) (r : RequestState)
    → r.chain ≡ c
    → Phased r
    → Exact r
    → Exact (settle_link true c r)
unfolding cleanup close_response
settle-Exact [] r e p h = h
settle-Exact (append line ∷ rest) r e p (u, s, o) = (
  u,
  append_assoc r.stored (line ∷ []) (waiting rest) ∙ ap (λ c. r.stored ++ waiting c) (sym e) ∙ s,
  o,
)
settle-Exact (finalize ∷ rest) r e p (u, s, o) =
    (u, ap (λ c. r.stored ++ waiting c) (sym e) ∙ s, inr (marked p))
  where
    marked : Phased r → r.completion_started ≡ true
    marked (inl (_, o, _)) = let o' = rw e at o in cc
    marked (inr (inl (c, _, _))) = c
    marked (inr (inr (c, _, _, _))) = c

-- Redis fails no write, and the client stays until every result is in.
abbrev pub is_quiet : Event → Bool
is_quiet (redis_event ok) = ok
is_quiet close_event = false
is_quiet (result_event result) = true
is_quiet request_timeout_event = true
is_quiet idle_timeout_event = true
is_quiet (platform_event id) = true

step-Exact :
    (idle_ms : ℕ) (e : Event) (r : RequestState)
    → is_quiet e ≡ true
    → Phased r
    → Exact r
    → Exact (step idle_ms e r)
unfolding step write_result on_request_timeout on_idle_timeout on_platform_instance settle_write
step-Exact idle_ms (result_event result) r q p h =
    let h' = line-Exact (serialized result r.request_id) r h in
    elim (Bool-cases (leb r.pending 1)) [
      | inl last ↦ rw last (complete-Exact _ h')
      | inr more ↦ rw more h'
    ]
step-Exact idle_ms request_timeout_event r q p h =
    elim (Bool-cases (not r.request_timeout || r.completion_started)) [
      | inl off ↦ rw off h
      | inr on ↦ rw on (
          complete-Exact _ (
            error-Exact (codes "request timeout") (record r { request_timeout = false })
              (ground arith) h))
    ]
step-Exact idle_ms idle_timeout_event r q p h =
    elim (Bool-cases (not r.idle_timeout || r.completion_started)) [
      | inl off ↦ rw off h
      | inr on ↦ rw on (
          complete-Exact _ (
            error-Exact (codes "request idle timeout") (record r { idle_timeout = false })
              (ground arith) h))
    ]
step-Exact idle_ms close_event r q p h = cc
step-Exact idle_ms (platform_event id) r q p h = elim (Bool-cases (member id r.platform_ids)) [
  | inl known ↦ rw known h
  | inr new ↦ rw new h
]
step-Exact idle_ms (redis_event true) r q p h = settle-Exact r.chain r refl p h
step-Exact idle_ms (redis_event false) r q p h = cc

pub run-Exact :
    (idle_ms : ℕ) (es : List Event) (r : RequestState)
    → All (λ e. is_quiet e ≡ true) es
    → Phased r
    → Exact r
    → Exact (run idle_ms es r) × Phased (run idle_ms es r)
unfolding run
run-Exact idle_ms [] r l p h = (h, p)
run-Exact idle_ms (e ∷ es) r l p h =
    run-Exact idle_ms es (step idle_ms e r) l.1 (step-Phased idle_ms e r h.0 p)
      (step-Exact idle_ms e r l.0 p h)
