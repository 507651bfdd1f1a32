-- ===== src/PlatformInstance.antt =====
-- packages/server/src/platform-instance.ts: the operations on one instance that leave the rest of
-- the server alone, and what it sends. `Lifecycle` has those that do not.
pub mod Lifecycle
pub mod Handlers
pub mod Delivery
mod Tests
use sockethub.Base.{
  ℕ, suc, ◌+◌, ◌-◌, Bool, true, false, ◌&&◌, ◌||◌, not, List, [], ◌∷◌, ◌++◌, Option, none, some,
  is_some, or_else, if◌then◌else◌, ltb, leb, Text, codes, nat_eq, text_eq, ◌==◌,
}
use sockethub.Base.Table.{Table, get, set, delete}
use sockethub.Base.Group.{member, add, remove}
use sockethub.Identity.{truthy, given}
use sockethub.Context.{
  Activity, Actor, build_canonical_context, internal_platform_context_url, ContextRegistry,
}
use sockethub.Validator.{Ajv, validate_activity_stream_response}
use sockethub.World.{Instance, Process, Emission, emit, call, idle}

abbrev pub job_handler_ttl_ms : ℕ
job_handler_ttl_ms = 360000

pub record PlatformInstanceParams : Type 0 where
  pub identifier : Text
  pub platform : Text
  pub actor : Option Text

-- The constructor, and `initQueue` behind it, over the forked process.
unfoldable pub construct : PlatformInstanceParams → ℕ → Process → Instance
construct p now process = record {
  id = p.identifier;
  name = p.platform;
  actor = if given p.actor then p.actor else none;
  is_global = not (given p.actor);
  flagged_for_termination = false;
  initialized = false;
  replaced = false;
  shutdown_result = idle;
  queue = some p.identifier;
  completed_job_handlers = [];
  completed_job_handler_timestamps = [];
  sessions = [];
  session_ips = [];
  persist = false;
  require_credentials = [];
  context_url = none;
  heartbeat_last_seen = now;
  heartbeat_failure_handled = false;
  process = record process { listening = true };
}

unfoldable pub mark_replaced : Instance → Instance
mark_replaced i = record i { replaced = true; flagged_for_termination = true }

-- `registeredAt < cutoff`: no time is before a cutoff that would be negative.
prune_entries : ℕ → Table Text ℕ → Instance → Instance
prune_entries cutoff [] i = i
prune_entries cutoff ((title, registered_at) ∷ rest) i = prune_entries cutoff rest (
    if ltb registered_at cutoff
    then record i {
      completed_job_handlers = delete title i.completed_job_handlers;
      completed_job_handler_timestamps = delete title i.completed_job_handler_timestamps;
    }
    else i)

unfoldable pub prune_expired_job_handlers : ℕ → Instance → Instance
unfolding prune_entries
prune_expired_job_handlers now i =
    prune_entries (now - job_handler_ttl_ms) i.completed_job_handler_timestamps i

unfoldable pub register_completed_job_handler : ℕ → Text → ℕ → Instance → Instance
unfolding prune_expired_job_handlers
register_completed_job_handler now title handler i =
    let i' = prune_expired_job_handlers now i in
    record i' {
      completed_job_handlers = set title handler i'.completed_job_handlers;
      completed_job_handler_timestamps = set title now i'.completed_job_handler_timestamps;
    }

unfoldable pub take_completed_job_handler : Text → Instance → Instance × Option ℕ
take_completed_job_handler title i = elim (get title i.completed_job_handlers) [
  | none ↦ (i, none)
  | some handler ↦ (
    record i {
      completed_job_handlers = delete title i.completed_job_handlers;
      completed_job_handler_timestamps = delete title i.completed_job_handler_timestamps;
    },
    some handler,
  )
]

unfoldable pub register_session : Text → Option Text → Instance → Instance
register_session session_id client_ip i = record i {
  session_ips =
      if given client_ip
      then set session_id (or_else client_ip []) i.session_ips
      else i.session_ips;
  sessions = add session_id i.sessions;
}

unfoldable pub deregister_session : Text → Instance → Instance
deregister_session session_id i =
    if member session_id i.sessions
    then record i {
      sessions = remove session_id i.sessions;
      session_ips = delete session_id i.session_ips;
    }
    else i

-- `toExternalPayload`.
unfoldable pub to_external_payload : Instance → Activity → Activity
to_external_payload i payload = record payload {
  session_secret = none;
  old_context = none;
  context = build_canonical_context (or_else i.context_url internal_platform_context_url);
}

-- `{ id: this.actor ?? this.name, type: "service" }`.
abbrev pub service_actor : Instance → Actor
service_actor i = record { id = or_else i.actor i.name; kind = codes "service" }

abbrev pub is_error : Activity → Bool
is_error msg = msg.kind == codes "error"

-- What `sendToClient` makes of the message, in place, for a connected socket.
unfoldable pub prepare : Instance → Activity → Activity
unfolding to_external_payload
prepare i msg =
    let external = to_external_payload i msg in
    if is_error external && not (is_some external.actor)
    then record external { actor = some (service_actor i) }
    else external

module _ (ajv : Ajv) (g : ContextRegistry) (sockets : List Text) (i : Instance) where
  -- Only a protocol response is checked; a malformed one is dropped.
  abbrev pub is_dropped : Activity → Bool
  is_dropped msg =
      not (is_error msg)
      && not (is_some msg.error)
      && truthy (validate_activity_stream_response ajv g msg)

  -- The message as it is left, and what is sent.
  unfoldable pub send_to_client : Text → Activity → Activity × List Emission
  unfolding prepare
  send_to_client session_id msg =
      if member session_id sockets
      then (let msg' = prepare i msg in
          (msg', if is_dropped msg' then [] else emit session_id msg' ∷ []))
      else (msg, [])

  -- A loop of `sendToClient` over sessions, with one message object.
  unfoldable pub send_to_each : List Text → Activity → List Emission
  unfolding send_to_client
  send_to_each [] msg = []
  send_to_each (sid ∷ sids) msg =
      let (msg', es) = send_to_client sid msg in es ++ send_to_each sids msg'

  abbrev pub others : Text → List Text → List Text
  others session_id [] = []
  others session_id (sid ∷ sids) =
      if sid == session_id then others session_id sids else sid ∷ others session_id sids

  unfoldable pub broadcast_to_shared_peers : Text → Activity → List Emission
  unfolding send_to_each
  broadcast_to_shared_peers session_id msg = send_to_each (others session_id i.sessions) msg

  -- The error message of `broadcastFatalError`.
  abbrev pub fatal_error : Text → Activity
  fatal_error message = record {
    context = build_canonical_context (or_else i.context_url internal_platform_context_url);
    kind = codes "error";
    actor = some (service_actor i);
    error = some message;
    session_secret = none;
    old_context = none;
    rest = [];
  }

  unfoldable pub fatal_emissions : Text → List Emission
  unfolding send_to_each
  fatal_emissions message = send_to_each i.sessions (fatal_error message)
