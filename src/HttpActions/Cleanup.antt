-- ===== src/HttpActions/Cleanup.antt =====
-- The platform sessions of a request: packages/server/src/http/session-registry.ts under the
-- callbacks of packages/server/src/http/actions.ts.
use sockethub.Base.{
  ℕ, suc, ◌+◌, ◌-◌, ◌≡◌, refl, Bool, true, false, ◌&&◌, ◌||◌, not, List, [], ◌∷◌, ◌++◌, arith, Text,
  codes, if◌then◌else◌, leb, ltb, Bool-cases, Option-cases, inl, inr, or_else, text_eq, nat_eq,
  ◌==◌, text_beq_iff,
}
use sockethub.Base.Table.{Table, get, get-set, get-delete}
use sockethub.Base.Group.{member, add, member-add, member-append}
use sockethub.ConnectionScope.{Scopes}
use sockethub.ProcessManager.{register_http_session, unregister_http_session}
use sockethub.HttpActions.Request.{
  RequestState, Write, append, finalize, Event, result_event, request_timeout_event,
  idle_timeout_event, close_event, platform_event, redis_event, step, run, start, complete_request,
  persist_line, write_line, write_error_line, write_result, on_request_timeout, on_idle_timeout,
  on_close, on_platform_instance, settle_write, cleanup, close_response, settle_link,
  unregister_all, serialized,
}

-- How many requests hold an instance.
abbrev pub holders : Text → Table Text ℕ → ℕ
holders id m = or_else (get id m) 0

abbrev pub one_if : Bool → ℕ
one_if b = if b then 1 else 0

pub holders-register :
    (id j : Text) (m : Table Text ℕ)
    → holders j (register_http_session id m) ≡ one_if (id == j) + holders j m
unfolding register_http_session
holders-register id j m =
    ground (arith, get-set id j (suc (or_else (get id m) 0)) m, text_beq_iff id j)

pub holders-unregister :
    (id j : Text) (m : Table Text ℕ)
    → holders j (unregister_http_session id m) ≡ holders j m - one_if (id == j)
unfolding unregister_http_session
holders-unregister id j m = elim (Option-cases (get id m)) [
  | inl absent ↦ rw absent (ground (arith, absent, text_beq_iff id j))
  | inr (n, present) ↦
      rw present
        (ground (arith, present, text_beq_iff id j, get-delete id j m, get-set id j (n - 1) m))
]

abbrev pub unique : List Text → Bool
unique [] = true
unique (id ∷ ids) = not (member id ids) && unique ids

unique-append :
    (ids : List Text) (id : Text)
    → unique ids ≡ true
    → member id ids ≡ false
    → unique (ids ++ id ∷ []) ≡ true
unfolding member
unique-append [] id u n = refl
unique-append (i ∷ ids) id u n = ground (
  arith,
  u,
  n,
  unique-append ids id,
  member-append i ids (id ∷ []),
  text_beq_iff i id,
  text_beq_iff id i,
)

unique-add : (ids : List Text) (id : Text) → unique ids ≡ true → unique (add id ids) ≡ true
unfolding add
unique-add ids id u = ground (arith, u, unique-append ids id u)

holders-unregister_all :
    (ids : List Text) (j : Text) (m : Table Text ℕ)
    → unique ids ≡ true
    → holders j (unregister_all ids m) ≡ holders j m - one_if (member j ids)
unfolding member unregister_all
holders-unregister_all [] j m u = omega arith
holders-unregister_all (id ∷ ids) j m u = ground (
  arith,
  u,
  holders-unregister_all ids j (unregister_http_session id m),
  holders-unregister id j m,
  text_beq_iff id j,
)

-- The request counts once for each instance that it tracks, over what was there before.
abbrev pub Tracks : Table Text ℕ → RequestState → Type 0
Tracks before r =
    (unique r.platform_ids ≡ true)
    × ((j : Text) → holders j r.http_sessions ≡ one_if (member j r.platform_ids) + holders j before)

module _ (before : Table Text ℕ) where
  cleanup-Tracks : (r : RequestState) → Tracks before r → Tracks before (cleanup r)
  unfolding cleanup member
  cleanup-Tracks r (u, h) =
      (refl, λ j. ground (arith, holders-unregister_all r.platform_ids j r.http_sessions u, h j))

  complete-Tracks : (r : RequestState) → Tracks before r → Tracks before (complete_request r)
  unfolding complete_request close_response
  complete-Tracks r h = elim (Bool-cases r.completion_started) [
    | inl c ↦ rw c h
    | inr c ↦ elim (Bool-cases r.use_idempotency) [
      | inl u ↦ rw (c, u) h
      | inr u ↦ rw (c, u) (cleanup-Tracks (record r { completion_started = true }) h)
    ]
  ]

  Tracks-same :
      (r r' : RequestState)
      → r'.platform_ids ≡ r.platform_ids
      → r'.http_sessions ≡ r.http_sessions
      → Tracks before r
      → Tracks before r'
  Tracks-same r r' e e' h = rw (e, e') h

  persist-Tracks :
      (line : Text) (r : RequestState) → Tracks before r → Tracks before (persist_line line r)
  unfolding persist_line
  persist-Tracks line r h = Tracks-same r (persist_line line r) (ground arith) (ground arith) h

  write-Tracks :
      (line : Text) (r : RequestState) → Tracks before r → Tracks before (write_line line r)
  write-Tracks line r h = Tracks-same r (write_line line r) (ground arith) (ground arith) h

  error-Tracks :
      (text : Text) (r : RequestState) → Tracks before r → Tracks before (write_error_line text r)
  unfolding write_error_line persist_line
  error-Tracks text r h = Tracks-same r (write_error_line text r) (ground arith) (ground arith) h

  pub platform-Tracks :
      (id : Text) (r : RequestState) → Tracks before r → Tracks before (on_platform_instance id r)
  unfolding on_platform_instance
  platform-Tracks id r (u, h) = elim (Bool-cases (member id r.platform_ids)) [
    | inl known ↦ rw known (u, h)
    | inr new ↦ rw new (
      unique-add r.platform_ids id u,
      λ j. ground (
        arith,
        new,
        h j,
        holders-register id j r.http_sessions,
        member-add id j r.platform_ids,
        text_beq_iff id j,
      ),
    )
  ]

  settle-Tracks :
      (ok : Bool) (c : List Write) (r : RequestState)
      → Tracks before r
      → Tracks before (settle_link ok c r)
  unfolding close_response cleanup
  settle-Tracks ok [] r h = h
  settle-Tracks ok (append line ∷ rest) r h = h
  settle-Tracks ok (finalize ∷ rest) r h =
      cleanup-Tracks (record r { chain = rest; complete = ok || r.complete }) h

  step-Tracks :
      (idle_ms : ℕ) (e : Event) (r : RequestState)
      → Tracks before r
      → Tracks before (step idle_ms e r)
  unfolding step write_result on_request_timeout on_idle_timeout on_close close_response
      settle_write
  step-Tracks idle_ms (result_event result) r h =
      let line = serialized result r.request_id in
      let r' = write_line line (persist_line line r) in
      let h' = write-Tracks line (persist_line line r) (persist-Tracks line r h) in
      elim (Bool-cases (leb r.pending 1)) [
        | inl last ↦ rw last (complete-Tracks (record r' { pending = r'.pending - 1 }) h')
        | inr more ↦ rw more h'
      ]
  step-Tracks idle_ms request_timeout_event r h =
      elim (Bool-cases (not r.request_timeout || r.completion_started)) [
        | inl off ↦ rw off h
        | inr on ↦ rw on (
            complete-Tracks
              (write_error_line (codes "request timeout") (record r { request_timeout = false }))
              (error-Tracks (codes "request timeout") (record r { request_timeout = false }) h))
      ]
  step-Tracks idle_ms idle_timeout_event r h =
      elim (Bool-cases (not r.idle_timeout || r.completion_started)) [
        | inl off ↦ rw off h
        | inr on ↦ rw on (
            complete-Tracks
              (write_error_line (codes "request idle timeout") (record r { idle_timeout = false }))
              (error-Tracks (codes "request idle timeout") (record r { idle_timeout = false }) h))
      ]
  step-Tracks idle_ms close_event r h = elim (Bool-cases (ltb 0 r.pending)) [
    | inl some_left ↦ rw some_left h
    | inr none_left ↦ rw none_left (complete-Tracks r h)
  ]
  step-Tracks idle_ms (platform_event id) r h = platform-Tracks id r h
  step-Tracks idle_ms (redis_event ok) r h = settle-Tracks ok r.chain r h

  pub run-Tracks :
      (idle_ms : ℕ) (es : List Event) (r : RequestState)
      → Tracks before r
      → Tracks before (run idle_ms es r)
  unfolding run
  run-Tracks idle_ms [] r h = h
  run-Tracks idle_ms (e ∷ es) r h =
      run-Tracks idle_ms es (step idle_ms e r) (step-Tracks idle_ms e r h)

-- At any point of any run, a request holds an instance once if it tracks it and not at all if not,
-- over what other requests hold: whatever is registered is what a cleanup takes back.
pub run-holders :
    (request_id session_id : Text) (use_idempotency : Bool) (payloads request_ms idle_ms : ℕ)
    (before : Table Text ℕ) (scopes : Scopes) (es : List Event) (j : Text)
    → let r =
        run idle_ms es
          (start request_id session_id use_idempotency payloads request_ms idle_ms before scopes) in
      (holders j r.http_sessions ≡ one_if (member j r.platform_ids) + holders j before)
      × (holders j (cleanup r).http_sessions ≡ holders j before)
unfolding start member cleanup
run-holders request_id session_id idem payloads request_ms idle_ms before scopes es j =
    let s = start request_id session_id idem payloads request_ms idle_ms before scopes in
    let h = run-Tracks before idle_ms es s (ground arith) in
    (h.1 j, omega (arith, (cleanup-Tracks before (run idle_ms es s) h).1 j))
