-- ===== src/HttpActions/Stream.antt =====
-- The lines of a response, and the lines that a replay of it has.
use sockethub.Base.{
  ℕ, ◌≡◌, refl, ◌⊎◌, Bool, true, false, ◌||◌, not, List, [], ◌∷◌, ◌++◌, arith, Text, leb, ltb,
  Bool-cases, inl, inr, ap, sym, ◌∙◌,
}
use sockethub.HttpActions.Writes.{
  complete_request-first, complete_request-again, persist_line-waits, persist_line-over,
  write_line-closed, write_line-over, write_line-open, write_error_line-closed,
  write_error_line-open,
}
use sockethub.Base.{codes, text_eq}
use sockethub.Base.Group.{member}
use sockethub.HttpActions.{build_server_error}
use sockethub.HttpActions.Request.{
  RequestState, Write, append, finalize, Event, result_event, request_timeout_event,
  idle_timeout_event, close_event, platform_event, redis_event, step, complete_request,
  persist_line, write_line, write_error_line, write_result, on_request_timeout, on_idle_timeout,
  on_close, on_platform_instance, settle_write, cleanup, close_response, serialized, settle_link,
}

-- The lines that wait in the chain.
abbrev pub waiting : List Write → List Text
waiting [] = []
waiting (append line ∷ rest) = line ∷ waiting rest
waiting (finalize ∷ rest) = waiting rest

pub append_assoc : (xs ys zs : List Text) → (xs ++ ys) ++ zs ≡ xs ++ (ys ++ zs)
append_assoc [] ys zs = refl
append_assoc (x ∷ xs) ys zs = ap (λ l. x ∷ l) (append_assoc xs ys zs)

pub append_nil : (xs : List Text) → xs ++ [] ≡ xs
append_nil [] = refl
append_nil (x ∷ xs) = ap (λ l. x ∷ l) (append_nil xs)

pub waiting-append :
    (c : List Write) (line : Text) → waiting (c ++ append line ∷ []) ≡ waiting c ++ line ∷ []
waiting-append [] line = refl
waiting-append (append l ∷ c) line = ap (λ t. l ∷ t) (waiting-append c line)
waiting-append (finalize ∷ c) line = waiting-append c line

pub waiting-finalize : (c : List Write) → waiting (c ++ finalize ∷ []) ≡ waiting c
waiting-finalize [] = refl
waiting-finalize (append l ∷ c) = ap (λ t. l ∷ t) (waiting-finalize c)
waiting-finalize (finalize ∷ c) = waiting-finalize c

-- Every line that is stored or will be.
abbrev pub recorded : RequestState → List Text
recorded r = r.stored ++ waiting r.chain

-- A line to write goes to both, or to neither.
pub recorded-persist :
    (line : Text) (r : RequestState)
    → r.use_idempotency ≡ true
    → r.completion_started ≡ false
    → recorded (persist_line line r) ≡ recorded r ++ line ∷ []
unfolding persist_line
recorded-persist line r u c =
    rw (u, c)
      (ap (λ t. r.stored ++ t) (waiting-append r.chain line)
        ∙ sym (append_assoc r.stored (waiting r.chain) (line ∷ [])))

pub recorded_after :
    (r : RequestState) → r.use_idempotency ≡ true → recorded (complete_request r) ≡ recorded r
unfolding complete_request
recorded_after r u = elim (Bool-cases r.completion_started) [
  | inl c ↦ rw c
  | inr c ↦ rw (c, u) (ap (λ t. r.stored ++ t) (waiting-finalize r.chain))
]

-- The response so far is what is recorded; or the client has gone, and the record has more.
abbrev pub Synced : RequestState → Type 0
Synced r = recorded r ≡ r.written

abbrev pub Covered : RequestState → Type 0
Covered r = (tail : List Text) × (recorded r ≡ r.written ++ tail)

abbrev pub Recorded : RequestState → Type 0
Recorded r = (r.use_idempotency ≡ true) × (Synced r ⊎ ((r.response_closed ≡ true) × Covered r))

Recorded-frame :
    (r r' : RequestState)
    → r'.use_idempotency ≡ r.use_idempotency
    → recorded r' ≡ recorded r
    → r'.written ≡ r.written
    → (r'.response_closed ≡ r.response_closed) ⊎ (r'.response_closed ≡ true)
    → Recorded r
    → Recorded r'
Recorded-frame r r' eu er ew ec (u, inl s) = (eu ∙ u, inl (er ∙ s ∙ sym ew))
Recorded-frame r r' eu er ew (inl ec) (u, inr (c, (tail, p))) =
    (eu ∙ u, inr (ec ∙ c, (tail, rw ew (er ∙ p))))
Recorded-frame r r' eu er ew (inr ec) (u, inr (c, (tail, p))) =
    (eu ∙ u, inr (ec, (tail, rw ew (er ∙ p))))

complete-Recorded : (r : RequestState) → Recorded r → Recorded (complete_request r)
complete-Recorded r (u, s) = elim (Bool-cases r.completion_started) [
  | inl c ↦ rw (complete_request-again r c) (u, s)
  | inr c ↦ rw (complete_request-first r u c) (
      Recorded-frame r (record r { completion_started = true; chain = r.chain ++ finalize ∷ [] })
        refl (ap (λ t. r.stored ++ t) (waiting-finalize r.chain)) refl (inl refl) (u, s))
]

-- A line that is recorded while the client listens is written, too.
both-Recorded :
    (line : Text) (r : RequestState)
    → r.completion_started ≡ false
    → r.response_closed ≡ false
    → Recorded r
    → Recorded (record r { chain = r.chain ++ append line ∷ []; written = r.written ++ line ∷ [] })
both-Recorded line r c o (u, inl s) = (
  u,
  inl (
      ap (λ t. r.stored ++ t) (waiting-append r.chain line)
      ∙ sym (append_assoc r.stored (waiting r.chain) (line ∷ []))
      ∙ ap (λ t. t ++ line ∷ []) s),
)
both-Recorded line r c o (u, inr (closed, _)) = cc

kept-Recorded :
    (line : Text) (r : RequestState)
    → r.response_closed ≡ true
    → Recorded r
    → Recorded (record r { chain = r.chain ++ append line ∷ [] })
kept-Recorded line r closed (u, s) =
    let more : recorded (record r { chain = r.chain ++ append line ∷ [] })
        ≡ recorded r ++ line ∷ [] =
      ap (λ t. r.stored ++ t) (waiting-append r.chain line)
      ∙ sym (append_assoc r.stored (waiting r.chain) (line ∷ [])) in
    (u, inr (closed, covered more s))
  where
    covered :
        recorded (record r { chain = r.chain ++ append line ∷ [] }) ≡ recorded r ++ line ∷ []
        → Synced r ⊎ ((r.response_closed ≡ true) × Covered r)
        → Covered (record r { chain = r.chain ++ append line ∷ [] })
    covered more (inl e) = (line ∷ [], more ∙ ap (λ t. t ++ line ∷ []) e)
    covered more (inr (_, (tail, p))) = (
      tail ++ line ∷ [],
      more ∙ ap (λ t. t ++ line ∷ []) p ∙ append_assoc r.written tail (line ∷ []),
    )

line-Recorded :
    (line : Text) (r : RequestState) → Recorded r → Recorded (write_line line (persist_line line r))
line-Recorded line r (u, s) = elim (Bool-cases r.completion_started) [
  | inl c ↦ rw (persist_line-over line r c, write_line-over line r c) (u, s)
  | inr c ↦ elim (Bool-cases r.response_closed) [
    | inl o ↦
        rw
          (
            persist_line-waits line r u c,
            write_line-closed line (record r { chain = r.chain ++ append line ∷ [] }) o,
          )
          (kept-Recorded line r o (u, s))
    | inr o ↦
        rw
          (
            persist_line-waits line r u c,
            write_line-open line (record r { chain = r.chain ++ append line ∷ [] }) c o,
          )
          (both-Recorded line r c o (u, s))
  ]
]

error-Recorded :
    (text : Text) (r : RequestState)
    → r.completion_started ≡ false
    → Recorded r
    → Recorded (write_error_line text r)
error-Recorded text r c (u, s) = elim (Bool-cases r.response_closed) [
  | inl o ↦ rw (write_error_line-closed text r o) (u, s)
  | inr o ↦
      rw (write_error_line-open text r u c o)
        (both-Recorded (build_server_error text r.request_id) r c o (u, s))
]

-- Both timers write one line and complete.
expire-Recorded :
    (text : Text) (r : RequestState)
    → r.completion_started ≡ false
    → Recorded r
    → Recorded (complete_request (write_error_line text r))
expire-Recorded text r c h = complete-Recorded (write_error_line text r) (error-Recorded text r c h)

-- A write that Redis does not fail.
abbrev pub is_lossless : Event → Bool
is_lossless (redis_event ok) = ok
is_lossless (result_event result) = true
is_lossless request_timeout_event = true
is_lossless idle_timeout_event = true
is_lossless close_event = true
is_lossless (platform_event id) = true

settle-Recorded :
    (c : List Write) (r : RequestState) → r.chain ≡ c → Recorded r → Recorded (settle_link true c r)
unfolding cleanup close_response
settle-Recorded [] r e h = h
settle-Recorded (append line ∷ rest) r e h =
    Recorded-frame r (settle_link true (append line ∷ rest) r) refl
      (append_assoc r.stored (line ∷ []) (waiting rest) ∙ ap (λ c. r.stored ++ waiting c) (sym e))
      refl (inl refl) h
settle-Recorded (finalize ∷ rest) r e h =
    Recorded-frame r (settle_link true (finalize ∷ rest) r) refl
      (ap (λ c. r.stored ++ waiting c) (sym e)) refl (inr refl) h

pub step-Recorded :
    (idle_ms : ℕ) (e : Event) (r : RequestState)
    → is_lossless e ≡ true
    → Recorded r
    → Recorded (step idle_ms e r)
unfolding step write_result on_request_timeout on_idle_timeout on_close on_platform_instance
    close_response settle_write
step-Recorded idle_ms (result_event result) r ok h =
    let line = serialized result r.request_id in
    let h' = line-Recorded line r h in
    elim (Bool-cases (leb r.pending 1)) [
      | inl last ↦ rw last (complete-Recorded _ h')
      | inr more ↦ rw more h'
    ]
step-Recorded idle_ms request_timeout_event r ok h =
    elim (Bool-cases (not r.request_timeout || r.completion_started)) [
      | inl off ↦ rw off h
      | inr on ↦ rw on (
          expire-Recorded (codes "request timeout") (record r { request_timeout = false })
            (ground arith) h)
    ]
step-Recorded idle_ms idle_timeout_event r ok h =
    elim (Bool-cases (not r.idle_timeout || r.completion_started)) [
      | inl off ↦ rw off h
      | inr on ↦ rw on (
          expire-Recorded (codes "request idle timeout") (record r { idle_timeout = false })
            (ground arith) h)
    ]
step-Recorded idle_ms close_event r ok h = elim (Bool-cases (ltb 0 r.pending)) [
  | inl some_left ↦ rw some_left (Recorded-frame r (close_response r) refl refl refl (inr refl) h)
  | inr none_left ↦ rw none_left (complete-Recorded r h)
]
step-Recorded idle_ms (platform_event id) r ok h = elim (Bool-cases (member id r.platform_ids)) [
  | inl known ↦ rw known h
  | inr new ↦ rw new h
]
step-Recorded idle_ms (redis_event true) r ok h = settle-Recorded r.chain r refl h
step-Recorded idle_ms (redis_event false) r ok h = cc
