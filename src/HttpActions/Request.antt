-- ===== src/HttpActions/Request.antt =====
-- packages/server/src/http/actions.ts: the run of one accepted request, as steps on the variables
-- that the POST handler's callbacks share. `chain` is what waits in `redisWriteChain`.
use sockethub.Base.{
  ℕ, ◌-◌, Bool, true, false, ◌||◌, not, List, [], ◌∷◌, ◌++◌, if◌then◌else◌, ltb, leb, Text, codes,
  nat_eq, text_eq,
}
use sockethub.Base.Table.{Table}
use sockethub.Base.Group.{member, add}
use sockethub.ConnectionScope.{Scopes, clear_session_scopes}
use sockethub.ProcessManager.{register_http_session, unregister_http_session}
use sockethub.HttpActions.{build_server_error}

-- A link of the chain: a line to append, or the mark that the request is complete.
pub data Write : Type 0 where
  append : Text → Write
  finalize : Write

-- `stored` and `complete` are what Redis has under the two keys, `written` the lines of the response,
-- `store_torn_down` says that the credentials store was dropped.
pub record RequestState : Type 0 where
  pub request_id : Text
  pub session_id : Text
  pub use_idempotency : Bool
  pub pending : ℕ
  pub response_closed : Bool
  pub completion_started : Bool
  pub request_timeout : Bool
  pub idle_timeout : Bool
  pub chain : List Write
  pub stored : List Text
  pub complete : Bool
  pub written : List Text
  pub platform_ids : List Text
  pub http_sessions : Table Text ℕ
  pub scopes : Scopes
  pub store_torn_down : Bool

unfoldable pub unregister_all : List Text → Table Text ℕ → Table Text ℕ
unfolding unregister_http_session
unregister_all [] m = m
unregister_all (id ∷ ids) m = unregister_all ids (unregister_http_session id m)

unfoldable pub cleanup : RequestState → RequestState
unfolding clear_session_scopes unregister_all
cleanup r = record r {
  http_sessions = unregister_all r.platform_ids r.http_sessions;
  platform_ids = [];
  scopes = clear_session_scopes r.session_id r.scopes;
  store_torn_down = true;
  request_timeout = false;
  idle_timeout = false;
}

unfoldable pub close_response : RequestState → RequestState
close_response r = record r { response_closed = true }

unfoldable pub complete_request : RequestState → RequestState
unfolding cleanup close_response
complete_request r =
    if r.completion_started
    then r
    else if r.use_idempotency
    then record r { completion_started = true; chain = r.chain ++ finalize ∷ [] }
    else close_response (cleanup (record r { completion_started = true }))

unfoldable pub persist_line : Text → RequestState → RequestState
persist_line line r =
    if not r.use_idempotency || r.completion_started
    then r
    else record r { chain = r.chain ++ append line ∷ [] }

unfoldable pub write_error_line : Text → RequestState → RequestState
unfolding persist_line build_server_error
write_error_line text r =
    if r.response_closed
    then r
    else (let line = build_server_error text r.request_id in
        record (persist_line line r) { written = r.written ++ line ∷ [] })

-- A timer that fires is no longer set.
unfoldable pub on_request_timeout : RequestState → RequestState
unfolding write_error_line complete_request
on_request_timeout r =
    if not r.request_timeout || r.completion_started
    then r
    else complete_request
        (write_error_line (codes "request timeout") (record r { request_timeout = false }))

unfoldable pub on_idle_timeout : RequestState → RequestState
unfolding write_error_line complete_request
on_idle_timeout r =
    if not r.idle_timeout || r.completion_started
    then r
    else complete_request
        (write_error_line (codes "request idle timeout") (record r { idle_timeout = false }))

-- A limit of 0 is no limit.
abbrev pub schedule_request_timeout : ℕ → RequestState → RequestState
schedule_request_timeout ms r = if ltb 0 ms then record r { request_timeout = true } else r

abbrev pub schedule_idle_timeout : ℕ → RequestState → RequestState
schedule_idle_timeout ms r = record r { idle_timeout = ltb 0 ms }

-- What a handler calls back with: an error, or a value as it is serialized.
pub data Result : Type 0 where
  failed answered : Text → Result

abbrev pub serialized : Result → Text → Text
unfolding build_server_error
serialized (failed e) request_id = build_server_error e request_id
serialized (answered t) request_id = t

abbrev pub write_line : Text → RequestState → RequestState
write_line line r =
    if r.response_closed || r.completion_started
    then r
    else record r { written = r.written ++ line ∷ [] }

unfoldable pub write_result : ℕ → Result → RequestState → RequestState
unfolding persist_line complete_request
write_result idle_ms result r =
    let line = serialized result r.request_id in
    let r' = write_line line (persist_line line r) in
    let r'' = record r' { pending = r'.pending - 1 } in
    if leb r.pending 1 then complete_request r'' else schedule_idle_timeout idle_ms r''

-- `req.on("close")`.
unfoldable pub on_close : RequestState → RequestState
unfolding close_response complete_request
on_close r = if ltb 0 r.pending then close_response r else complete_request r

-- `onPlatformInstance`, of a persistent platform.
unfoldable pub on_platform_instance : Text → RequestState → RequestState
unfolding register_http_session
on_platform_instance id r = if member id r.platform_ids then r else record r {
  platform_ids = add id r.platform_ids;
  http_sessions = register_http_session id r.http_sessions;
}

abbrev pub settle_link : Bool → List Write → RequestState → RequestState
unfolding cleanup close_response
settle_link ok [] r = r
settle_link ok (append line ∷ rest) r = record r {
  chain = rest;
  stored = if ok then r.stored ++ line ∷ [] else r.stored;
}
settle_link ok (finalize ∷ rest) r =
    close_response (cleanup (record r { chain = rest; complete = ok || r.complete }))

-- Redis is done with the first link, or fails it.
unfoldable pub settle_write : Bool → RequestState → RequestState
settle_write ok r = settle_link ok r.chain r

pub data Event : Type 0 where
  result_event : Result → Event
  request_timeout_event idle_timeout_event close_event : Event
  platform_event : Text → Event
  redis_event : Bool → Event

unfoldable pub step : ℕ → Event → RequestState → RequestState
unfolding write_result on_request_timeout on_idle_timeout on_close on_platform_instance settle_write
step idle_ms (result_event result) r = write_result idle_ms result r
step idle_ms request_timeout_event r = on_request_timeout r
step idle_ms idle_timeout_event r = on_idle_timeout r
step idle_ms close_event r = on_close r
step idle_ms (platform_event id) r = on_platform_instance id r
step idle_ms (redis_event ok) r = settle_write ok r

unfoldable pub run : ℕ → List Event → RequestState → RequestState
unfolding step
run idle_ms [] r = r
run idle_ms (e ∷ es) r = run idle_ms es (step idle_ms e r)

-- The state when the route's handler starts on the payloads.
unfoldable pub start : Text → Text → Bool → ℕ → ℕ → ℕ → Table Text ℕ → Scopes → RequestState
start request_id session_id use_idempotency payloads request_ms idle_ms http_sessions scopes =
    schedule_idle_timeout idle_ms (
      schedule_request_timeout request_ms (record {
        request_id = request_id;
        session_id = session_id;
        use_idempotency = use_idempotency;
        pending = payloads;
        response_closed = false;
        completion_started = false;
        request_timeout = false;
        idle_timeout = false;
        chain = [];
        stored = [];
        complete = false;
        written = [];
        platform_ids = [];
        http_sessions = http_sessions;
        scopes = scopes;
        store_torn_down = false;
      }))
