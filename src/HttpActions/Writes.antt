-- ===== src/HttpActions/Writes.antt =====
-- What each write of a request changes, branch by branch.
use sockethub.Base.{◌≡◌, true, false, [], ◌∷◌, ◌++◌, Text, Bool-cases, inl, inr}
use sockethub.Base.{text_eq}
use sockethub.HttpActions.{build_server_error}
use sockethub.HttpActions.Request.{
  RequestState, append, finalize, complete_request, persist_line, write_line, write_error_line,
}

-- What a first completion changes, and what a line changes before it.
pub complete_request-first :
    (r : RequestState)
    → r.use_idempotency ≡ true
    → r.completion_started ≡ false
    → complete_request r ≡ record r { completion_started = true; chain = r.chain ++ finalize ∷ [] }
unfolding complete_request
complete_request-first r u c = rw (c, complete_request, u)

pub complete_request-again :
    (r : RequestState) → r.completion_started ≡ true → complete_request r ≡ r
unfolding complete_request
complete_request-again r c = rw (c, complete_request)

pub persist_line-waits :
    (line : Text) (r : RequestState)
    → r.use_idempotency ≡ true
    → r.completion_started ≡ false
    → persist_line line r ≡ record r { chain = r.chain ++ append line ∷ [] }
unfolding persist_line
persist_line-waits line r u c = rw (c, persist_line, u)

pub persist_line-over :
    (line : Text) (r : RequestState) → r.completion_started ≡ true → persist_line line r ≡ r
unfolding persist_line
persist_line-over line r c = elim (Bool-cases r.use_idempotency) [
  | inl u ↦ rw (c, persist_line, u)
  | inr u ↦ rw (c, persist_line, u)
]

pub write_line-closed :
    (line : Text) (r : RequestState) → r.response_closed ≡ true → write_line line r ≡ r
write_line-closed line r o = rw (o, write_line)

pub write_line-over :
    (line : Text) (r : RequestState) → r.completion_started ≡ true → write_line line r ≡ r
write_line-over line r c = elim (Bool-cases r.response_closed) [
  | inl o ↦ write_line-closed line r o
  | inr o ↦ rw (o, write_line, c)
]

pub write_line-open :
    (line : Text) (r : RequestState)
    → r.completion_started ≡ false
    → r.response_closed ≡ false
    → write_line line r ≡ record r { written = r.written ++ line ∷ [] }
write_line-open line r c o = rw (o, write_line, c)

pub write_error_line-closed :
    (text : Text) (r : RequestState) → r.response_closed ≡ true → write_error_line text r ≡ r
unfolding write_error_line
write_error_line-closed text r o = rw (o, write_error_line)

pub write_error_line-open :
    (text : Text) (r : RequestState)
    → r.use_idempotency ≡ true
    → r.completion_started ≡ false
    → r.response_closed ≡ false
    → write_error_line text r ≡ record r {
      chain = r.chain ++ append (build_server_error text r.request_id) ∷ [];
      written = r.written ++ build_server_error text r.request_id ∷ [];
    }
unfolding write_error_line
write_error_line-open text r u c o =
    rw (persist_line-waits (build_server_error text r.request_id) r u c, o)
