-- ===== src/Client.antt =====
-- packages/client/src/sockethub-client.ts: the state of a client, what it emits, and its small
-- operations. Registry, Outbound and Init have the rest of the class; the other children have proofs.
pub mod Registry
pub mod Outbound
pub mod Init
pub mod Queue
pub mod Accounts
pub mod Steps
pub mod Lifetime
pub mod Replays
pub mod Updates
pub mod Order
pub mod Prepared
mod Tests
use sockethub.Base.{
  ℕ, Bool, true, false, List, [], ◌∷◌, ◌++◌, Option, none, some, is_some, if◌then◌else◌, Text,
  codes, text_eq, ◌==◌, ◌⊎◌, inl, inr,
}
use sockethub.Base.Table.{Table}
use sockethub.Stream.{Stream}
use sockethub.Validator.Schemas.{Schemas}

pub data InitState : Type 0 where
  idle initializing is_ready_state init_error closed : InitState

pub data ReadyReason : Type 0 where
  initial_connect reconnect schemas_update : ReadyReason

pub data InitErrorPhase : Type 0 where
  schemas_request schemas_apply timeout : InitErrorPhase

-- A promise that `ready` returned; `timed` where a timer runs for it.
pub record Waiter : Type 0 where
  pub promise : ℕ
  pub timed : Bool

-- What the application emits: an activity stream, or a value with no properties of its own.
pub data Content : Type 0 where
  stream : Stream → Content
  other : Text → Content

-- A callback is a number. Anything that is not a function is none.
pub record QueuedOutboundEvent : Type 0 where
  pub event : Text
  pub content : Content
  pub callback : Option ℕ
  pub enqueued_at : ℕ
  pub sequence : ℕ

pub record InitializationCycle : Type 0 where
  pub token : ℕ
  pub reason : ReadyReason
  pub started_at : ℕ
  pub replay_on_ready : Bool
  pub timed_out : Bool

pub record Options : Type 0 where
  pub init_timeout_ms : ℕ
  pub max_queued_outbound : ℕ
  pub max_queued_age_ms : ℕ

pub record PlatformRegistryEntry : Type 0 where
  pub id : Text
  pub version : Text
  pub context_url : Text
  pub context_version : Option Text
  pub schema_version : Option Text
  pub types : List Text
  pub credentials : Option Text
  pub messages : Option Text

pub record PlatformRegistryPayload : Type 0 where
  pub version : Option Text
  pub contexts : Option (Text × Text)
  pub platforms : List PlatformRegistryEntry

pub record PlatformSummary : Type 0 where
  pub id : Text
  pub version : Text
  pub context_url : Text
  pub context_version : Option Text
  pub schema_version : Option Text
  pub types : List Text

pub record ClientReadyInfo : Type 0 where
  pub reason : ReadyReason
  pub sockethub_version : Text
  pub as_context : Text
  pub sockethub_context : Text
  pub platforms : List PlatformSummary

-- What leaves the client. `sent` and `replayed` are the socket's `emit`, for an event of the
-- application and for a stored one; `failed` calls a callback with an error; `resolved` and `rejected`
-- settle a promise; the rest are events of the public emitter.
pub data Effect : Type 0 where
  sent : Text → Content → Option ℕ → Effect
  replayed : Text → Stream → Effect
  schemas_requested : Option Text → Effect
  failed : ℕ → Text → Effect
  client_error : Text → Text → Effect
  init_failed : Text → InitErrorPhase → Bool → Effect
  resolved : ℕ → ClientReadyInfo → Effect
  rejected : ℕ → Text → Effect
  on_connect on_connect_error on_disconnect : Effect
  on_ready : ClientReadyInfo → Effect
  on_schemas : PlatformRegistryPayload → Effect
  on_message : Stream → Effect

-- `EventMapping`.
pub record EventMapping : Type 0 where
  pub credentials : Table Text Stream
  pub connect : Table Text Stream
  pub join : Table Text Stream

-- `connected` is the public emitter's flag, `transport_connected` the socket's; `has_io` says whether
-- the socket has a manager; `init_timeout_timer` holds the token that its callback has captured;
-- `schemas` is the state of packages/schemas; `log` is what has left the client so far.
pub record Client : Type 0 where
  pub events : EventMapping
  pub connected : Bool
  pub transport_connected : Bool
  pub has_io : Bool
  pub options : Options
  pub platform_registry : Table Text PlatformRegistryEntry
  pub as_context_url : Option Text
  pub sockethub_context_url : Option Text
  pub sockethub_version : Option Text
  pub init_state : InitState
  pub has_ready_once : Bool
  pub init_cycle : Option InitializationCycle
  pub init_token_counter : ℕ
  pub init_timeout_timer : Option ℕ
  pub waiting_warning_timer : Bool
  pub ready_waiters : List Waiter
  pub outbound_queue : List QueuedOutboundEvent
  pub outbound_sequence : ℕ
  pub registry_fingerprint : Option Text
  pub latest_ready_info : Option ClientReadyInfo
  pub schemas : Schemas
  pub log : List Effect

-- A new client on a socket that is not connected yet.
abbrev pub new_client : Options → Bool → Schemas → Client
new_client options has_io schemas = record {
  events = record { credentials = []; connect = []; join = [] };
  connected = false;
  transport_connected = false;
  has_io = has_io;
  options = options;
  platform_registry = [];
  as_context_url = none;
  sockethub_context_url = none;
  sockethub_version = none;
  init_state = idle;
  has_ready_once = false;
  init_cycle = none;
  init_token_counter = 0;
  init_timeout_timer = none;
  waiting_warning_timer = false;
  ready_waiters = [];
  outbound_queue = [];
  outbound_sequence = 0;
  registry_fingerprint = none;
  latest_ready_info = none;
  schemas = schemas;
  log = [];
}

-- The defaults of the constructor.
abbrev pub default_options : Options
default_options = record {
  init_timeout_ms = 5000;
  max_queued_outbound = 1000;
  max_queued_age_ms = 30000;
}

abbrev pub in_ready : InitState → Bool
in_ready is_ready_state = true
in_ready _ = false

abbrev pub in_idle : InitState → Bool
in_idle idle = true
in_idle _ = false

abbrev pub in_closed : InitState → Bool
in_closed closed = true
in_closed _ = false

-- `isReady`.
abbrev pub is_ready : Client → Bool
is_ready c = in_ready c.init_state

unfoldable pub emit : Effect → Client → Client
emit e c = record c { log = c.log ++ e ∷ [] }

unfoldable pub emit_all : List Effect → Client → Client
emit_all es c = record c { log = c.log ++ es }

unfoldable pub clear_credentials : Client → Client
clear_credentials c = record c { events = record c.events { credentials = [] } }

unfoldable pub clear_init_timers : Client → Client
clear_init_timers c = record c { init_timeout_timer = none; waiting_warning_timer = false }

unfoldable pub start_waiting_warnings : Client → Client
start_waiting_warnings c = record c { waiting_warning_timer = true }

-- The interval of the warnings; its report on the console is left out.
unfoldable pub waiting_warning : Client → Client
waiting_warning c =
    if is_ready c
    then clear_init_timers c
    else if in_closed c.init_state
    then clear_init_timers c
    else c

unfoldable pub emit_init_error : Text → InitErrorPhase → Bool → Client → Client
emit_init_error error phase retrying c = emit (init_failed error phase retrying) c

abbrev pub error_effect : Text → Option ℕ → Text → Effect
error_effect event (some callback) message = failed callback message
error_effect event none message = client_error event message

unfoldable pub emit_client_error : Text → Option ℕ → Text → Client → Client
emit_client_error event callback message c = emit (error_effect event callback message) c
