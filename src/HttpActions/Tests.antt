-- ===== src/HttpActions/Tests.antt =====
-- Requests on which the theorems apply.
use sockethub.Base.{
  suc, take, ◌+◌, ◌≤◌, ◌≡◌, refl, true, false, List, [], ◌∷◌, ◌++◌, some, arith, Text, codes,
  text_eq, nat_eq, text_beq,
}
use sockethub.Base.Table.{get}
use sockethub.Base.Group.{member}
use sockethub.ConnectionScope.{empty_scopes}
use sockethub.HttpActions.{
  Json, object, field, no_fields, string, Outcome, value, build_credentials_ack, resolved,
}
use sockethub.HttpActions.Claim.{Claim, starting, handle_get, replayed}
use sockethub.HttpActions.Request.{
  RequestState, Event, result_event, answered, failed, redis_event, close_event, platform_event,
  run, start, step, cleanup, on_platform_instance, complete_request, write_result, persist_line,
  settle_write, close_response, on_close,
}
use sockethub.HttpActions.Cached.{replay-exact, store_of}
use sockethub.HttpActions.Adds.{lines_in}
use sockethub.HttpActions.Results.{replay-results}
use sockethub.HttpActions.Exclusive.{claim_all, holding, taken, claim_all-holding}
use sockethub.HttpActions.Finish.{Closed, settlements, answered-completes}
use sockethub.HttpActions.Cleanup.{run-holders, holders, one_if}
use sockethub.HttpActions.Late.{late_platform_held}
use sockethub.HttpActions.Dispatch.{
  Call, called_back, goes_on, route_run, route_start, plan, route_run-plan, RouteEvent,
}
use sockethub.HttpActions.Acknowledge.{build_credentials_ack-blind}

abbrev id : Text
id = codes "req-1"

abbrev session : Text
session = codes "http:1"

-- A request with two payloads, whose client may leave, and whose last write completes it.
abbrev begin : RequestState
begin = start id session true 2 30000 15000 [] empty_scopes

abbrev two_answers : List Event
two_answers =
    result_event (answered (codes "a"))
    ∷ redis_event true
    ∷ result_event (failed (codes "no"))
    ∷ redis_event true
    ∷ redis_event true
    ∷ []

abbrev leaves_early : List Event
leaves_early =
    result_event (answered (codes "a"))
    ∷ close_event
    ∷ result_event (answered (codes "b"))
    ∷ redis_event true
    ∷ redis_event true
    ∷ redis_event true
    ∷ []

replay-exact_example :
    handle_get
      (resolved (run 15000 two_answers begin).request_id)
      (some (store_of (run 15000 two_answers begin)))
    ≡ replayed (run 15000 two_answers begin).written
unfolding run step write_result persist_line complete_request settle_write cleanup close_response
    start
replay-exact_example =
    replay-exact id session 2 30000 15000 [] empty_scopes two_answers
      (refl, (refl, (refl, (refl, (refl, tt))))) refl

replay-results_example :
    handle_get (resolved id) (some (store_of (run 15000 leaves_early begin)))
    ≡ replayed (take 2 (lines_in id leaves_early))
unfolding run step write_result persist_line complete_request settle_write cleanup close_response
    start on_close
replay-results_example =
    replay-results id session 2 30000 15000 [] empty_scopes leaves_early (omega arith)
      (refl, (refl, (refl, (refl, (refl, (refl, tt)))))) refl

abbrev clients : List Claim
clients = starting ∷ starting ∷ []

claim_all-holding_example :
    let (s', cs') =
      claim_all id (0 ∷ 1 ∷ 1 ∷ 0 ∷ []) clients (record { statuses = []; lists = [] }) in
    (holding cs' ≤ 1) × (holding cs' + taken id (record { statuses = []; lists = [] }) ≤ 1)
claim_all-holding_example =
    claim_all-holding id (0 ∷ 1 ∷ 1 ∷ 0 ∷ []) clients (record { statuses = []; lists = [] }) refl

-- Both results are in, and the three writes wait, of which Redis fails the first.
abbrev both_in : List Event
both_in =
    result_event (answered (codes "a")) ∷ close_event ∷ result_event (failed (codes "no")) ∷ []

answered-completes_example :
    Closed (run 15000 (settlements (false ∷ true ∷ true ∷ [])) (run 15000 both_in begin))
unfolding run step write_result persist_line complete_request settle_write cleanup close_response
    start on_close
answered-completes_example =
    answered-completes id session 2 30000 15000 [] empty_scopes both_in (false ∷ true ∷ true ∷ [])
      (omega arith) (omega arith) refl

abbrev irc : Text
irc = codes "irc:1"

abbrev touches : List Event
touches = platform_event irc ∷ result_event (answered (codes "a")) ∷ platform_event irc ∷ []

run-holders_example :
    (holders irc (run 15000 touches begin).http_sessions
      ≡ one_if (member irc (run 15000 touches begin).platform_ids) + holders irc [])
    × (holders irc (cleanup (run 15000 touches begin)).http_sessions ≡ holders irc [])
run-holders_example = run-holders id session true 2 30000 15000 [] empty_scopes touches irc

-- A request that has timed out and is cleaned up.
abbrev over : RequestState
over = record (start id session false 1 30000 15000 [] empty_scopes) {
  completion_started = true;
  response_closed = true;
}

late_platform_held_example :
    holders irc
      (run 15000
        (result_event (answered (codes "a")) ∷ close_event ∷ [])
        (on_platform_instance irc over)).http_sessions
    ≡ suc (holders irc [])
unfolding start member get
late_platform_held_example =
    late_platform_held [] 15000 irc (result_event (answered (codes "a")) ∷ close_event ∷ []) over
      (refl, λ j. refl) (refl, refl)

abbrev with_password : Text → Json
with_password p = object (
    field (codes "actor") (object (field (codes "id") (string (codes "jim")) no_fields))
      (field (codes "object") (object (field (codes "password") (string p) no_fields)) no_fields))

abbrev with_error : Text → Outcome
with_error p = value (
    object (
      field (codes "error") (string (codes "bad")) (field (codes "password") (string p) no_fields)))

build_credentials_ack-blind_example :
    build_credentials_ack (with_password (codes "hunter2")) (with_error (codes "hunter2"))
    ≡ build_credentials_ack (with_password (codes "swordfish")) (with_error (codes "swordfish"))
unfolding text_beq
build_credentials_ack-blind_example =
    build_credentials_ack-blind (with_password (codes "hunter2"))
      (with_password (codes "swordfish")) (with_error (codes "hunter2"))
      (with_error (codes "swordfish")) refl refl refl

-- A message, and behind it credentials, whose handler calls back.
abbrev mixed : List Json
mixed =
    object (
      field (codes "type") (string (codes "send"))
        (field (codes "actor") (string (codes "jim")) no_fields))
    ∷ object (
        field (codes "type") (string (codes "credentials"))
          (field (codes "actor") (string (codes "jim")) no_fields))
    ∷ []

abbrev route : List RouteEvent
route = goes_on false ∷ goes_on false ∷ called_back ∷ goes_on false ∷ []

route_run-plan_example :
    (later : List Call) × ((route_run route (route_start mixed)).calls ++ later ≡ plan mixed)
route_run-plan_example = route_run-plan mixed route
