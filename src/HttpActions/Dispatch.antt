-- ===== src/HttpActions/Dispatch.antt =====
-- packages/server/src/http/actions.ts: the order in which the payloads of a request reach their
-- handlers. Credentials go first, one at a time, each when the one before has called back.
use sockethub.Base.{
  ◌≡◌, refl, ◌⊎◌, inl, inr, Bool, true, false, ◌||◌, List, [], ◌∷◌, ◌++◌, if◌then◌else◌, ap, ◌∙◌,
  Bool-cases, map,
}
use sockethub.HttpActions.{Json, PayloadKind, credentials, message, unknown, classify_payload}

-- What happens to a payload: it goes to a handler, or is answered as unsupported.
pub data Call : Type 0 where
  credentials_call message_call unsupported : Json → Call

abbrev pub with_credentials : PayloadKind → Json → List Json → List Json
with_credentials credentials payload rest = payload ∷ rest
with_credentials message payload rest = rest
with_credentials unknown payload rest = rest

abbrev pub with_other : PayloadKind → Json → List Call → List Call
with_other credentials payload rest = rest
with_other message payload rest = message_call payload ∷ rest
with_other unknown payload rest = unsupported payload ∷ rest

-- The two passes over `classified`.
credentials_of : List Json → List Json
credentials_of [] = []
credentials_of (payload ∷ rest) =
    with_credentials (classify_payload payload) payload (credentials_of rest)

others_of : List Json → List Call
others_of [] = []
others_of (payload ∷ rest) = with_other (classify_payload payload) payload (others_of rest)

-- `busy` says that the handler of a credential has not called back, `over` that the route is done.
pub record Route : Type 0 where
  pub payloads : List Json
  pub queue : List Json
  pub busy : Bool
  pub over : Bool
  pub calls : List Call

abbrev pub next_call : List Json → Route → Route
unfolding others_of
next_call [] r = record r { over = true; calls = r.calls ++ others_of r.payloads }
next_call (payload ∷ rest) r = record r {
  queue = rest;
  busy = true;
  calls = r.calls ++ credentials_call payload ∷ [];
}

-- The head of the loop, and what follows the last credential; `completed` is `completionStarted`.
go_on : Bool → Route → Route
go_on completed r =
    if r.busy || r.over
    then r
    else if completed
    then record r { over = true }
    else next_call r.queue r

-- A credential's handler calls back; the request is finalized; the route goes on.
pub data RouteEvent : Type 0 where
  called_back finalized : RouteEvent
  goes_on : Bool → RouteEvent

route_step : RouteEvent → Route → Route
unfolding go_on
route_step called_back r = record r { busy = false }
route_step finalized r = record r { over = true }
route_step (goes_on completed) r = go_on completed r

unfoldable pub route_run : List RouteEvent → Route → Route
unfolding route_step
route_run [] r = r
route_run (e ∷ es) r = route_run es (route_step e r)

unfoldable pub route_start : List Json → Route
unfolding credentials_of
route_start payloads = record {
  payloads = payloads;
  queue = credentials_of payloads;
  busy = false;
  over = false;
  calls = [];
}

abbrev pub credentials_calls : List Json → List Call
credentials_calls [] = []
credentials_calls (payload ∷ rest) = credentials_call payload ∷ credentials_calls rest

-- The plan as the code builds it.
abbrev route_plan : List Json → List Call
route_plan payloads = credentials_calls (credentials_of payloads) ++ others_of payloads

abbrev asks_credentials : PayloadKind → Bool
asks_credentials credentials = true
asks_credentials message = false
asks_credentials unknown = false

abbrev asks_other : PayloadKind → Bool
asks_other credentials = false
asks_other message = true
asks_other unknown = true

-- The payloads whose kind passes a test, in their order.
abbrev of_kind : (PayloadKind → Bool) → List Json → List Json
of_kind test [] = []
of_kind test (payload ∷ rest) =
    if test (classify_payload payload) then payload ∷ of_kind test rest else of_kind test rest

abbrev other_call : PayloadKind → Json → Call
other_call credentials payload = credentials_call payload
other_call message payload = message_call payload
other_call unknown payload = unsupported payload

-- All credentials in the order of the payloads, then all others in that order, the messages to the
-- handler of messages and the payloads of no kind answered as unsupported.
abbrev pub plan : List Json → List Call
plan payloads =
    map credentials_call (of_kind asks_credentials payloads)
    ++ map (λ payload. other_call (classify_payload payload) payload) (of_kind asks_other payloads)

with_credentials-of_kind :
    (payload : Json) (rest : List Json) (k : PayloadKind)
    → credentials_calls (credentials_of rest) ≡ map credentials_call (of_kind asks_credentials rest)
    → credentials_calls (with_credentials k payload (credentials_of rest))
      ≡ map credentials_call (
          if asks_credentials k
          then payload ∷ of_kind asks_credentials rest
          else of_kind asks_credentials rest)
with_credentials-of_kind payload rest credentials h = ap (λ l. credentials_call payload ∷ l) h
with_credentials-of_kind payload rest message h = h
with_credentials-of_kind payload rest unknown h = h

credentials-of_kind :
    (payloads : List Json)
    → credentials_calls (credentials_of payloads)
      ≡ map credentials_call (of_kind asks_credentials payloads)
unfolding credentials_of
credentials-of_kind [] = refl
credentials-of_kind (payload ∷ rest) =
    with_credentials-of_kind payload rest (classify_payload payload) (credentials-of_kind rest)

abbrev answer_of : Json → Call
answer_of payload = other_call (classify_payload payload) payload

with_other-of_kind :
    (payload : Json) (rest : List Json) (k : PayloadKind)
    → classify_payload payload ≡ k
    → others_of rest ≡ map answer_of (of_kind asks_other rest)
    → with_other k payload (others_of rest)
      ≡ map answer_of
          (if asks_other k then payload ∷ of_kind asks_other rest else of_kind asks_other rest)
with_other-of_kind payload rest credentials e h = h
with_other-of_kind payload rest message e h = rw e (ap (λ l. message_call payload ∷ l) h)
with_other-of_kind payload rest unknown e h = rw e (ap (λ l. unsupported payload ∷ l) h)

others-of_kind :
    (payloads : List Json) → others_of payloads ≡ map answer_of (of_kind asks_other payloads)
unfolding others_of
others-of_kind [] = refl
others-of_kind (payload ∷ rest) =
    with_other-of_kind payload rest (classify_payload payload) refl (others-of_kind rest)

route_plan-plan : (payloads : List Json) → route_plan payloads ≡ plan payloads
route_plan-plan payloads = rw (credentials-of_kind payloads, others-of_kind payloads) refl

call_assoc : (xs ys zs : List Call) → (xs ++ ys) ++ zs ≡ xs ++ (ys ++ zs)
call_assoc [] ys zs = refl
call_assoc (x ∷ xs) ys zs = ap (λ l. x ∷ l) (call_assoc xs ys zs)

call_nil : (xs : List Call) → xs ++ [] ≡ xs
call_nil [] = refl
call_nil (x ∷ xs) = ap (λ l. x ∷ l) (call_nil xs)

-- The route has made the first calls of the plan, and the rest is ahead; or it has made all.
abbrev OnPlan : List Json → Route → Type 0
OnPlan payloads r =
    ((r.payloads ≡ payloads)
      × (r.calls ++ (credentials_calls r.queue ++ others_of payloads) ≡ route_plan payloads))
    ⊎ ((r.over ≡ true) × (r.calls ≡ route_plan payloads))

next_call-OnPlan :
    (payloads : List Json) (q : List Json) (r : Route)
    → r.queue ≡ q
    → r.payloads ≡ payloads
    → r.calls ++ (credentials_calls r.queue ++ others_of payloads) ≡ route_plan payloads
    → OnPlan payloads (next_call q r)
unfolding next_call
next_call-OnPlan payloads [] r e p h =
    let h' : r.calls ++ others_of payloads ≡ route_plan payloads = rw e at h in
    inr (refl, ap (λ l. r.calls ++ others_of l) p ∙ h')
next_call-OnPlan payloads (c ∷ q) r e p h =
    let h' : r.calls ++ (credentials_call c ∷ (credentials_calls q ++ others_of payloads))
        ≡ route_plan payloads =
      rw e at h in
    inl (
      p,
      call_assoc r.calls (credentials_call c ∷ []) (credentials_calls q ++ others_of payloads) ∙ h',
    )

next_call-over :
    (payloads : List Json) (r : Route)
    → (r.over ≡ true) × (r.calls ≡ route_plan payloads)
    → (completed : Bool) → OnPlan payloads (go_on completed r)
unfolding go_on
next_call-over payloads r (o, h) completed = elim (Bool-cases r.busy) [
  | inl b ↦ rw b (inr (o, h))
  | inr b ↦ rw (b, o) (inr (refl, h))
]

route_step-OnPlan :
    (payloads : List Json) (e : RouteEvent) (r : Route)
    → OnPlan payloads r
    → OnPlan payloads (route_step e r)
unfolding route_step go_on
route_step-OnPlan payloads called_back r h = h
route_step-OnPlan payloads finalized r (inl h) = inl h
route_step-OnPlan payloads finalized r (inr (o, h)) = inr (refl, h)
route_step-OnPlan payloads (goes_on completed) r (inr h) = next_call-over payloads r h completed
route_step-OnPlan payloads (goes_on completed) r (inl (p, h)) =
    elim (Bool-cases (r.busy || r.over)) [
      | inl waits ↦ rw waits (inl (p, h))
      | inr free ↦ elim (Bool-cases completed) [
        | inl c ↦ rw (free, c) (inl (p, h))
        | inr c ↦ rw (free, c) (next_call-OnPlan payloads r.queue r refl p h)
      ]
    ]

route_run-OnPlan :
    (payloads : List Json) (es : List RouteEvent) (r : Route)
    → OnPlan payloads r
    → OnPlan payloads (route_run es r)
unfolding route_run
route_run-OnPlan payloads [] r h = h
route_run-OnPlan payloads (e ∷ es) r h =
    route_run-OnPlan payloads es (route_step e r) (route_step-OnPlan payloads e r h)

first_calls :
    (payloads : List Json) (r : Route)
    → OnPlan payloads r
    → (later : List Call) × (r.calls ++ later ≡ route_plan payloads)
first_calls payloads r (inl (_, h)) = (credentials_calls r.queue ++ others_of payloads, h)
first_calls payloads r (inr (_, h)) = ([], call_nil r.calls ∙ h)

-- Whenever handlers call back and the request is finalized, the calls that the route has made are the
-- first ones of its plan: every credential in the order of the payloads, then the other payloads in
-- their order, each to the handler of its kind.
pub route_run-plan :
    (payloads : List Json) (es : List RouteEvent)
    → (later : List Call) × ((route_run es (route_start payloads)).calls ++ later ≡ plan payloads)
unfolding route_start
route_run-plan payloads es =
    let (later, h) =
      first_calls payloads (route_run es (route_start payloads))
        (route_run-OnPlan payloads es (route_start payloads) (inl (refl, refl))) in
    (later, h ∙ route_plan-plan payloads)
