-- ===== src/HttpActions/Replay.antt =====
-- packages/server/src/http/actions.ts: the phases of a request, from its first result to its clean-up.
use sockethub.Base.{
  ℕ, ◌-◌, nat_eq, ◌≡◌, refl, ◌⊎◌, Bool, true, false, ◌||◌, not, List, [], ◌∷◌, ◌++◌, arith, Text,
  leb, ltb, All, Bool-cases, inl, inr, ◌∙◌, subst,
}
use sockethub.HttpActions.Writes.{
  complete_request-first, complete_request-again, persist_line-waits, persist_line-over,
  write_error_line-closed, write_error_line-open,
}
use sockethub.HttpActions.Stream.{Recorded, is_lossless, step-Recorded}
use sockethub.Base.{codes, text_eq, ◌⊎◌}
use sockethub.Base.Group.{member}
use sockethub.HttpActions.{build_server_error}
use sockethub.HttpActions.Request.{
  RequestState, Write, append, finalize, Event, result_event, request_timeout_event,
  idle_timeout_event, close_event, platform_event, redis_event, step, run, complete_request,
  persist_line, write_line, write_error_line, write_result, on_request_timeout, on_idle_timeout,
  on_close, on_platform_instance, settle_write, cleanup, close_response, serialized, settle_link,
}

-- Which lines of the chain are before the mark, and what is behind it.
abbrev pub only_lines : List Write → Bool
only_lines [] = true
only_lines (append line ∷ rest) = only_lines rest
only_lines (finalize ∷ rest) = false

abbrev pub is_empty : List Write → Bool
is_empty [] = true
is_empty (w ∷ rest) = false

abbrev pub ends_finalizing : List Write → Bool
ends_finalizing [] = false
ends_finalizing (append line ∷ rest) = ends_finalizing rest
ends_finalizing (finalize ∷ rest) = is_empty rest

only_lines-append :
    (c : List Write) (line : Text) → only_lines c ≡ true → only_lines (c ++ append line ∷ []) ≡ true
only_lines-append [] line h = refl
only_lines-append (append l ∷ c) line h = only_lines-append c line h
only_lines-append (finalize ∷ c) line h = cc

ends-finalize : (c : List Write) → only_lines c ≡ true → ends_finalizing (c ++ finalize ∷ []) ≡ true
ends-finalize [] h = refl
ends-finalize (append l ∷ c) h = ends-finalize c h
ends-finalize (finalize ∷ c) h = cc

-- A request runs, has completed with its mark still waiting, or is done with its writes, closed and
-- cleaned up.
abbrev pub Phased : RequestState → Type 0
Phased r =
    ((r.completion_started ≡ false) × (only_lines r.chain ≡ true) × (r.complete ≡ false))
    ⊎ (((r.completion_started ≡ true) × (ends_finalizing r.chain ≡ true) × (r.complete ≡ false))
        ⊎ ((r.completion_started ≡ true)
            × (r.chain ≡ [])
            × (r.response_closed ≡ true)
            × (r.store_torn_down ≡ true)))

complete-Phased :
    (r : RequestState) → r.use_idempotency ≡ true → Phased r → Phased (complete_request r)
complete-Phased r u (inl (c, o, n)) =
    rw (complete_request-first r u c) (inr (inl (refl, ends-finalize r.chain o, n)))
complete-Phased r u (inr (inl (c, o, n))) = rw (complete_request-again r c) (inr (inl (c, o, n)))
complete-Phased r u (inr (inr (c, n, o, t))) =
    rw (complete_request-again r c) (inr (inr (c, n, o, t)))

write_line-frame :
    (line : Text) (r : RequestState)
    → ((write_line line r).completion_started ≡ r.completion_started)
      × ((write_line line r).chain ≡ r.chain)
      × ((write_line line r).complete ≡ r.complete)
      × ((write_line line r).use_idempotency ≡ r.use_idempotency)
      × ((write_line line r).response_closed ≡ r.response_closed)
      × ((write_line line r).store_torn_down ≡ r.store_torn_down)
write_line-frame line r = ground arith

persist-Phased :
    (line : Text) (r : RequestState)
    → r.use_idempotency ≡ true
    → Phased r
    → Phased (persist_line line r)
persist-Phased line r u (inl (c, o, n)) =
    rw (persist_line-waits line r u c) (inl (c, only_lines-append r.chain line o, n))
persist-Phased line r u (inr (inl (c, e, n))) =
    rw (persist_line-over line r c) (inr (inl (c, e, n)))
persist-Phased line r u (inr (inr (c, n, o, t))) =
    rw (persist_line-over line r c) (inr (inr (c, n, o, t)))

line-Phased :
    (line : Text) (r : RequestState)
    → r.use_idempotency ≡ true
    → Phased r
    → Phased (write_line line (persist_line line r))
line-Phased line r u h =
    let (c, ch, d, _, o, t) = write_line-frame line (persist_line line r) in
    rw (c, ch, d, o, t) (persist-Phased line r u h)

error-Phased :
    (text : Text) (r : RequestState)
    → r.use_idempotency ≡ true
    → r.completion_started ≡ false
    → Phased r
    → Phased (write_error_line text r)
error-Phased text r u c h = elim (Bool-cases r.response_closed) [
  | inl o ↦ rw (write_error_line-closed text r o) h
  | inr o ↦ rw (write_error_line-open text r u c o) (
      subst Phased (persist_line-waits (build_server_error text r.request_id) r u c)
        (persist-Phased (build_server_error text r.request_id) r u h))
]

persist-use :
    (line : Text) (r : RequestState) → (persist_line line r).use_idempotency ≡ r.use_idempotency
unfolding persist_line
persist-use line r = ground arith

error-use :
    (text : Text) (r : RequestState) → (write_error_line text r).use_idempotency ≡ r.use_idempotency
unfolding write_error_line
error-use text r = ground (arith, persist-use (build_server_error text r.request_id) r)

line-use :
    (line : Text) (r : RequestState)
    → (write_line line (persist_line line r)).use_idempotency ≡ r.use_idempotency
line-use line r =
    let (_, _, _, u, _, _) = write_line-frame line (persist_line line r) in u ∙ persist-use line r

complete-use : (r : RequestState) → (complete_request r).use_idempotency ≡ r.use_idempotency
unfolding complete_request cleanup close_response
complete-use r = elim (Bool-cases r.completion_started) [
  | inl c ↦ rw c refl
  | inr c ↦ elim (Bool-cases r.use_idempotency) [ inl u ↦ rw (c, u) refl | inr u ↦ rw (c, u) refl ]
]

settle-use :
    (ok : Bool) (c : List Write) (r : RequestState)
    → (settle_link ok c r).use_idempotency ≡ r.use_idempotency
unfolding cleanup close_response
settle-use ok [] r = refl
settle-use ok (append line ∷ rest) r = refl
settle-use ok (finalize ∷ rest) r = refl

step-use :
    (idle_ms : ℕ) (e : Event) (r : RequestState)
    → (step idle_ms e r).use_idempotency ≡ r.use_idempotency
unfolding step write_result on_request_timeout on_idle_timeout on_close on_platform_instance
    close_response settle_write
step-use idle_ms (result_event result) r =
    let line = serialized result r.request_id in
    elim (Bool-cases (leb r.pending 1)) [
      | inl last ↦ rw last (
          complete-use (record (write_line line (persist_line line r)) {
            pending = (write_line line (persist_line line r)).pending - 1;
          })
          ∙ line-use line r)
      | inr more ↦ rw more (line-use line r)
    ]
step-use idle_ms request_timeout_event r =
    elim (Bool-cases (not r.request_timeout || r.completion_started)) [
      | inl off ↦ rw off refl
      | inr on ↦ rw on (
          complete-use
            (write_error_line (codes "request timeout") (record r { request_timeout = false }))
          ∙ error-use (codes "request timeout") (record r { request_timeout = false }))
    ]
step-use idle_ms idle_timeout_event r =
    elim (Bool-cases (not r.idle_timeout || r.completion_started)) [
      | inl off ↦ rw off refl
      | inr on ↦ rw on (
          complete-use
            (write_error_line (codes "request idle timeout") (record r { idle_timeout = false }))
          ∙ error-use (codes "request idle timeout") (record r { idle_timeout = false }))
    ]
step-use idle_ms close_event r = elim (Bool-cases (ltb 0 r.pending)) [
  | inl some_left ↦ rw some_left refl
  | inr none_left ↦ rw none_left (complete-use r)
]
step-use idle_ms (platform_event id) r = elim (Bool-cases (member id r.platform_ids)) [
  | inl known ↦ rw known refl
  | inr new ↦ rw new refl
]
step-use idle_ms (redis_event ok) r = settle-use ok r.chain r

settle-Phased :
    (ok : Bool) (c : List Write) (r : RequestState)
    → r.chain ≡ c
    → Phased r
    → Phased (settle_link ok c r)
unfolding cleanup close_response
settle-Phased ok [] r e h = h
settle-Phased ok (append line ∷ rest) r e (inl (c, o, n)) = inl (c, rw e at o, n)
settle-Phased ok (append line ∷ rest) r e (inr (inl (c, o, n))) = inr (inl (c, rw e at o, n))
settle-Phased ok (append line ∷ rest) r e (inr (inr (c, o, _, _))) = cc
settle-Phased ok (finalize ∷ rest) r e (inl (c, o, n)) = let o' = rw e at o in cc
settle-Phased ok (finalize ∷ []) r e (inr (inl (c, o, n))) = inr (inr (c, refl, refl, refl))
settle-Phased ok (finalize ∷ x ∷ rest) r e (inr (inl (c, o, n))) = let o' = rw e at o in cc
settle-Phased ok (finalize ∷ rest) r e (inr (inr (c, o, _, _))) = cc

closed-Phased : (r : RequestState) → Phased r → Phased (record r { response_closed = true })
closed-Phased r (inl h) = inl h
closed-Phased r (inr (inl h)) = inr (inl h)
closed-Phased r (inr (inr (c, n, o, t))) = inr (inr (c, n, refl, t))

pub step-Phased :
    (idle_ms : ℕ) (e : Event) (r : RequestState)
    → r.use_idempotency ≡ true
    → Phased r
    → Phased (step idle_ms e r)
unfolding step write_result on_request_timeout on_idle_timeout on_close on_platform_instance
    close_response settle_write
step-Phased idle_ms (result_event result) r u h =
    let line = serialized result r.request_id in
    let h' = line-Phased line r u h in
    elim (Bool-cases (leb r.pending 1)) [
      | inl last ↦ rw last (complete-Phased _ (line-use line r ∙ u) h')
      | inr more ↦ rw more h'
    ]
step-Phased idle_ms request_timeout_event r u h =
    elim (Bool-cases (not r.request_timeout || r.completion_started)) [
      | inl off ↦ rw off h
      | inr on ↦
          let r' = record r { request_timeout = false } in
          rw on (
            complete-Phased (write_error_line (codes "request timeout") r')
              (error-use (codes "request timeout") r' ∙ u)
              (error-Phased (codes "request timeout") r' u (ground arith) h))
    ]
step-Phased idle_ms idle_timeout_event r u h =
    elim (Bool-cases (not r.idle_timeout || r.completion_started)) [
      | inl off ↦ rw off h
      | inr on ↦
          let r' = record r { idle_timeout = false } in
          rw on (
            complete-Phased (write_error_line (codes "request idle timeout") r')
              (error-use (codes "request idle timeout") r' ∙ u)
              (error-Phased (codes "request idle timeout") r' u (ground arith) h))
    ]
step-Phased idle_ms close_event r u h = elim (Bool-cases (ltb 0 r.pending)) [
  | inl some_left ↦ rw some_left (closed-Phased r h)
  | inr none_left ↦ rw none_left (complete-Phased r u h)
]
step-Phased idle_ms (platform_event id) r u h = elim (Bool-cases (member id r.platform_ids)) [
  | inl known ↦ rw known h
  | inr new ↦ rw new h
]
step-Phased idle_ms (redis_event ok) r u h = settle-Phased ok r.chain r refl h

pub run-Phased :
    (idle_ms : ℕ) (es : List Event) (r : RequestState)
    → r.use_idempotency ≡ true
    → Phased r
    → Phased (run idle_ms es r)
unfolding run
run-Phased idle_ms [] r u p = p
run-Phased idle_ms (e ∷ es) r u p =
    run-Phased idle_ms es (step idle_ms e r) (step-use idle_ms e r ∙ u)
      (step-Phased idle_ms e r u p)

pub run-Recorded :
    (idle_ms : ℕ) (es : List Event) (r : RequestState)
    → All (λ e. is_lossless e ≡ true) es
    → Recorded r
    → Phased r
    → Recorded (run idle_ms es r) × Phased (run idle_ms es r)
unfolding run
run-Recorded idle_ms [] r l h p = (h, p)
run-Recorded idle_ms (e ∷ es) r l h p =
    run-Recorded idle_ms es (step idle_ms e r) l.1 (step-Recorded idle_ms e r l.0 h)
      (step-Phased idle_ms e r h.0 p)
