-- ===== src/HttpActions/Adds.antt =====
-- packages/server/src/http/actions.ts: what one step of a request, whose timers do not fire, records.
use sockethub.Base.{
  ℕ, ◌-◌, ◌<◌, ◌≡◌, refl, ◌⊎◌, Bool, true, false, ◌||◌, List, [], ◌∷◌, ◌++◌, arith, Text, leb, ltb,
  Bool-cases, inl, inr, sym, ◌∙◌, if◌then◌else◌, nat_eq, length, text_eq,
}
use sockethub.Base.Group.{member}
use sockethub.HttpActions.Writes.{
  complete_request-first, complete_request-again, persist_line-over, write_line-over,
}
use sockethub.HttpActions.Stream.{
  recorded, recorded_after, recorded-persist, append_assoc, append_nil,
}
use sockethub.HttpActions.Request.{
  RequestState, Write, append, finalize, Result, Event, result_event, request_timeout_event,
  idle_timeout_event, close_event, platform_event, redis_event, step, complete_request,
  persist_line, write_line, write_result, on_close, on_platform_instance, settle_write, cleanup,
  close_response, serialized, settle_link, schedule_idle_timeout,
}

-- No timer fires, and Redis fails no write.
abbrev pub is_plain : Event → Bool
is_plain (result_event result) = true
is_plain request_timeout_event = false
is_plain idle_timeout_event = false
is_plain close_event = true
is_plain (platform_event id) = true
is_plain (redis_event ok) = ok

-- The results of a history, in order, as they are serialized.
abbrev pub line_in : Text → Event → List Text
line_in id (result_event result) = serialized result id ∷ []
line_in id request_timeout_event = []
line_in id idle_timeout_event = []
line_in id close_event = []
line_in id (platform_event other) = []
line_in id (redis_event ok) = []

abbrev pub lines_in : Text → List Event → List Text
lines_in id [] = []
lines_in id (e ∷ es) = line_in id e ++ lines_in id es

-- How many results are still written.
abbrev pub remaining : RequestState → ℕ
remaining r = if r.completion_started then 0 else r.pending

abbrev pub Open : RequestState → Type 0
Open r = (r.use_idempotency ≡ true) × ((r.completion_started ≡ true) ⊎ (0 < r.pending))

-- What a step records, and how many results it uses up.
abbrev pub Adds : List Text → ℕ → RequestState → RequestState → Type 0
Adds ls k r s =
    (recorded s ≡ recorded r ++ ls)
    × (remaining s ≡ remaining r - k)
    × Open s
    × (s.request_id ≡ r.request_id)

persist-kept :
    (line : Text) (r : RequestState)
    → r.use_idempotency ≡ true
    → r.completion_started ≡ false
    → let s = write_line line (persist_line line r) in
      (recorded s ≡ recorded r ++ line ∷ [])
      × (s.completion_started ≡ false)
      × (s.pending ≡ r.pending)
      × (s.use_idempotency ≡ true)
      × (s.request_id ≡ r.request_id)
unfolding persist_line
persist-kept line r u c =
    let (a, b, d, e, f) = write_line-kept line (persist_line line r) in
    let (b', d', e', f') = persist_kept in
    (a ∙ recorded-persist line r u c, b ∙ b', d ∙ d', e ∙ e', f ∙ f')
  where
    write_line-kept :
        (line : Text) (r : RequestState)
        → let s = write_line line r in
          (recorded s ≡ recorded r)
          × (s.completion_started ≡ r.completion_started)
          × (s.pending ≡ r.pending)
          × (s.use_idempotency ≡ r.use_idempotency)
          × (s.request_id ≡ r.request_id)
    write_line-kept line r = elim (Bool-cases (r.response_closed || r.completion_started)) [
      | inl y ↦ rw y (refl, refl, refl, refl, refl)
      | inr n ↦ rw n (refl, refl, refl, refl, refl)
    ]

    persist_kept :
        ((persist_line line r).completion_started ≡ false)
        × ((persist_line line r).pending ≡ r.pending)
        × ((persist_line line r).use_idempotency ≡ true)
        × ((persist_line line r).request_id ≡ r.request_id)
    persist_kept = rw (u, c) (refl, refl, refl, refl)

-- The last result that is waited for.
complete-Adds :
    (ls : List Text) (r s : RequestState)
    → recorded s ≡ recorded r ++ ls
    → s.completion_started ≡ false
    → s.use_idempotency ≡ true
    → s.request_id ≡ r.request_id
    → (k : ℕ) → remaining r - k ≡ 0
    → Adds ls k r (complete_request s)
complete-Adds ls r s a c u i k z = (
  recorded_after s u ∙ a,
  rw (complete_request-first s u c) (sym z),
  rw (complete_request-first s u c) (u, inl refl),
  rw (complete_request-first s u c) i,
)

-- A result before the last one.
pending-Adds :
    (ls : List Text) (idle_ms : ℕ) (r s : RequestState)
    → recorded s ≡ recorded r ++ ls
    → s.completion_started ≡ false
    → s.pending ≡ r.pending
    → s.use_idempotency ≡ true
    → s.request_id ≡ r.request_id
    → r.completion_started ≡ false
    → leb r.pending 1 ≡ false
    → Adds ls 1 r (schedule_idle_timeout idle_ms (record s { pending = s.pending - 1 }))
pending-Adds ls idle_ms r s a c p u i c' more =
    (a, rw (c, c', p) refl, (u, inr (rw p (ground (arith, more)))), i)

settle-Adds :
    (c : List Write) (r : RequestState) → r.chain ≡ c → Open r → Adds [] 0 r (settle_link true c r)
unfolding cleanup close_response
settle-Adds [] r e h = (sym (append_nil (recorded r)), omega arith, h, refl)
settle-Adds (append line ∷ rest) r e h =
    (rw e (append_assoc r.stored (line ∷ []) _ ∙ sym (append_nil _)), omega arith, h, refl)
settle-Adds (finalize ∷ rest) r e h = (rw e (sym (append_nil _)), omega arith, h, refl)

result-Adds :
    (idle_ms : ℕ) (result : Result) (r : RequestState)
    → r.completion_started ≡ false
    → Open r
    → Adds (serialized result r.request_id ∷ []) 1 r (write_result idle_ms result r)
unfolding write_result
result-Adds idle_ms result r c (u, inl y) = cc
result-Adds idle_ms result r c (u, inr p) =
    let line = serialized result r.request_id in
    let (rec, s, q, v, i) = persist-kept line r u c in
    let s' = write_line line (persist_line line r) in
    elim (Bool-cases (leb r.pending 1)) [
      | inl last ↦ rw last (
          complete-Adds (line ∷ []) r (record s' { pending = s'.pending - 1 }) rec s v i 1
            (rw c (ground (arith, last))))
      | inr more ↦ rw more (pending-Adds (line ∷ []) idle_ms r s' rec s q v i c more)
    ]

same-Adds : (r : RequestState) → Open r → Adds [] 0 r r
same-Adds r h = (sym (append_nil (recorded r)), omega arith, h, refl)

close-Adds : (r : RequestState) → Open r → Adds [] 0 r (on_close r)
unfolding on_close close_response
close-Adds r (u, inr p) = rw (lt_lem p) (same-Adds r (u, inr p))
  where
    lt_lem : 0 < r.pending → ltb 0 r.pending ≡ true
    lt_lem p = ground (arith, p)
close-Adds r (u, inl c) = elim (Bool-cases (ltb 0 r.pending)) [
  | inl some_left ↦ rw some_left (same-Adds r (u, inl c))
  | inr none_left ↦ rw (none_left, complete_request-again r c) (same-Adds r (u, inl c))
]

platform-Adds : (id : Text) (r : RequestState) → Open r → Adds [] 0 r (on_platform_instance id r)
unfolding on_platform_instance
platform-Adds id r h = elim (Bool-cases (member id r.platform_ids)) [
  | inl known ↦ rw known (same-Adds r h)
  | inr new ↦ rw new (same-Adds r h)
]

-- Once it is complete, a result changes nothing that is recorded.
result-over :
    (idle_ms : ℕ) (result : Result) (r : RequestState)
    → r.completion_started ≡ true
    → r.use_idempotency ≡ true
    → Adds [] 0 r (write_result idle_ms result r)
unfolding write_result
result-over idle_ms result r c u =
    let line = serialized result r.request_id in
    elim (Bool-cases (leb r.pending 1)) [
      | inl last ↦
          rw
            (
              persist_line-over line r c,
              write_line-over line r c,
              last,
              complete_request-again (record r { pending = r.pending - 1 }) c,
              c,
            )
            (sym (append_nil (recorded r)), refl, (u, inl refl), refl)
      | inr more ↦
          rw (persist_line-over line r c, write_line-over line r c, more, c)
            (sym (append_nil (recorded r)), refl, (u, inl refl), refl)
    ]

pub step-Adds :
    (idle_ms : ℕ) (e : Event) (r : RequestState)
    → is_plain e ≡ true
    → r.completion_started ≡ false
    → Open r
    → Adds (line_in r.request_id e) (length (line_in r.request_id e)) r (step idle_ms e r)
unfolding step settle_write
step-Adds idle_ms (result_event result) r ok c h = result-Adds idle_ms result r c h
step-Adds idle_ms request_timeout_event r ok c h = absurd (cc)
step-Adds idle_ms idle_timeout_event r ok c h = absurd (cc)
step-Adds idle_ms close_event r ok c h = close-Adds r h
step-Adds idle_ms (platform_event id) r ok c h = platform-Adds id r h
step-Adds idle_ms (redis_event true) r ok c h = settle-Adds r.chain r refl h
step-Adds idle_ms (redis_event false) r ok c h = absurd (cc)

pub step-over :
    (idle_ms : ℕ) (e : Event) (r : RequestState)
    → is_plain e ≡ true
    → r.completion_started ≡ true
    → Open r
    → Adds [] 0 r (step idle_ms e r)
unfolding step settle_write
step-over idle_ms (result_event result) r ok c h = result-over idle_ms result r c h.0
step-over idle_ms request_timeout_event r ok c h = absurd (cc)
step-over idle_ms idle_timeout_event r ok c h = absurd (cc)
step-over idle_ms close_event r ok c h = close-Adds r h
step-over idle_ms (platform_event id) r ok c h = platform-Adds id r h
step-over idle_ms (redis_event true) r ok c h = settle-Adds r.chain r refl h
step-over idle_ms (redis_event false) r ok c h = absurd (cc)
