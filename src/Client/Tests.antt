-- ===== src/Client/Tests.antt =====
-- A client on which the theorems apply.
use sockethub.Base.{
  ◌≡◌, refl, true, false, List, [], ◌∷◌, ◌++◌, none, some, if◌then◌else◌, is_some, arith, Text,
  codes, text_eq, text_beq, ◌==◌, length, map,
}
use sockethub.Base.Table.{Table, get, has}
use sockethub.Validator.Schemas.{Schemas, AjvLibrary, schema_ref}
use sockethub.Stream.{Stream, empty_stream, normalize_activity_stream, plain, object, no_object}
use sockethub.Client.{
  Client, Options, new_client, stream, other, QueuedOutboundEvent, is_ready_state, initializing,
  initial_connect, InitializationCycle, ClientReadyInfo, Effect, resolved, on_ready, emit,
  clear_init_timers,
}
use sockethub.Client.Registry.{
  PlatformOffer, RegistryOffer, apply_registry, build_ready_info, get_registered_platforms,
}
use sockethub.Client.Outbound.{prepared, Library}
use sockethub.Client.Init.{
  Emission, Event, emits, connects, receives_schemas, disconnects, run, emissions, ready_begin,
  mark_ready,
}
use sockethub.Client.Queue.{answers}
use sockethub.Client.Accounts.{IsSound, IsCounted}
use sockethub.Client.Lifetime.{run_new-IsSound}
use sockethub.Client.Replays.{messages, last_word, name_in, messages-last_word}
use sockethub.Client.Updates.{apply_registry-schemas_kept}
use sockethub.Client.Prepared.{prepared-normal}
use sockethub.Client.Order.{mark_ready-order, stored_effects}

-- AJV with a validator, which accepts, for each schema that was added.
abbrev ajv : AjvLibrary
ajv = record {
  validators = λ added ref. if has ref added then some (λ msg. none) else none;
  refusal = λ ref schema. none;
}

abbrev lib : Library
lib = record {
  ajv = ajv;
  serialize = λ s. s.rest;
  reserved = λ event. if event == codes "connect" then some (codes "reserved") else none;
  digits = λ n. [];
}

abbrev no_schemas : Schemas
no_schemas = record {
  contexts = record { platform_ids = []; schema_ids = []; credentials_schema_ids = [] };
  added = [];
  system_contexts_registered = false;
}

abbrev small : Options
small = record { init_timeout_ms = 5000; max_queued_outbound = 2; max_queued_age_ms = 100 }

abbrev irc : PlatformOffer
irc = record {
  id = codes "irc";
  version = codes "1";
  context_url = codes "c";
  context_version = none;
  schema_version = none;
  types = none;
  credentials = none;
  messages = some (codes "new");
}

abbrev offer : RegistryOffer
offer = record {
  version = some (codes "5");
  fingerprint = none;
  unchanged = false;
  as_context = some (codes "a");
  sockethub_context = some (codes "s");
  platforms = some (some irc ∷ []);
}

abbrev ping : Emission
ping = record { event = codes "ping"; content = other []; callback = none; now = 1 }

abbrev life : List Event
life =
    connects 0
    ∷ emits ping
    ∷ emits ping
    ∷ emits ping
    ∷ receives_schemas (some offer) (ping ∷ []) 2
    ∷ disconnects
    ∷ emits ping
    ∷ []

run_new-IsSound_example : IsSound (run lib life (new_client small true no_schemas))
run_new-IsSound_example = run_new-IsSound lib small true no_schemas life

abbrev alice : Stream
alice = record empty_stream {
  kind = some (codes "join");
  actor = object (record no_object { id = some (codes "alice") });
}

abbrev cycle : InitializationCycle
cycle = record {
  token = 1;
  reason = initial_connect;
  started_at = 0;
  replay_on_ready = true;
  timed_out = false;
}

abbrev queued : QueuedOutboundEvent
queued = record {
  event = codes "ping";
  content = other [];
  callback = none;
  enqueued_at = 0;
  sequence = 0;
}

-- A client in its first cycle, with one emission that waits and one join to replay.
abbrev waiting : Client
waiting = record (new_client small true no_schemas) {
  connected = true;
  transport_connected = true;
  init_state = initializing;
  init_cycle = some cycle;
  as_context_url = some (codes "a");
  sockethub_context_url = some (codes "s");
  sockethub_version = some (codes "5");
  events = record { credentials = []; connect = []; join = (codes ":alice-", alice) ∷ [] };
  outbound_queue = queued ∷ [];
  outbound_sequence = 1;
}

waiting-IsCounted : IsCounted waiting
unfolding answers
waiting-IsCounted = record {
  bounded = omega arith;
  ordered = (omega arith, omega arith);
  counted = omega arith;
}

abbrev info : ClientReadyInfo
info = record {
  reason = initial_connect;
  sockethub_version = codes "5";
  as_context = codes "a";
  sockethub_context = codes "s";
  platforms = [];
}

info-built : build_ready_info initial_connect (ready_begin waiting) ≡ some info
unfolding build_ready_info ready_begin clear_init_timers get_registered_platforms
info-built = refl

abbrev handled : Client
handled = emissions lib (ping ∷ []) (emit (on_ready info) (ready_begin waiting))

mark_ready-order_example :
    (rest : List Effect) × ((mark_ready lib initial_connect (ping ∷ []) 3 waiting).log
      ≡ handled.log
        ++ (map (λ w. resolved w.promise info) handled.ready_waiters
            ++ (stored_effects handled ++ rest)))
    × (answers rest ≡ length handled.outbound_queue)
mark_ready-order_example =
    mark_ready-order lib 3 initial_connect (ping ∷ []) waiting info waiting-IsCounted refl
      info-built

abbrev running : Client
running = record waiting { init_state = is_ready_state; init_cycle = none }

abbrev alice_leaves : Stream
alice_leaves = record alice { kind = some (codes "leave") }

messages-last_word_example :
    (get (codes ":alice-") (messages lib (alice ∷ alice_leaves ∷ []) running).events.join
      ≡ last_word
          (name_in lib no_schemas.contexts)
          (codes "join")
          (codes "leave")
          (codes ":alice-")
          (alice ∷ alice_leaves ∷ [])
          (get (codes ":alice-") running.events.join))
    × (get (codes ":alice-") (messages lib (alice ∷ alice_leaves ∷ []) running).events.connect
        ≡ last_word
            (name_in lib no_schemas.contexts)
            (codes "connect")
            (codes "disconnect")
            (codes ":alice-")
            (alice ∷ alice_leaves ∷ [])
            (get (codes ":alice-") running.events.connect))
messages-last_word_example =
    messages-last_word lib (codes ":alice-") (alice ∷ alice_leaves ∷ []) running refl

-- An older schema of the platform's messages is registered.
abbrev updated : Client
updated = record running {
  schemas = record no_schemas { added = (schema_ref (codes "irc/messages"), codes "old") ∷ [] };
}

ajv_lem :
    (added : Table Text Text) (ref : Text)
    → has ref added ≡ true
    → is_some (ajv.validators added ref) ≡ true
ajv_lem added ref h = rw h

apply_registry-schemas_kept_example :
    get
      (schema_ref (codes "irc/messages"))
      (apply_registry ajv offer (codes "a") (codes "s") (some irc ∷ []) updated).schemas.added
    ≡ some (codes "old")
apply_registry-schemas_kept_example =
    apply_registry-schemas_kept ajv ajv_lem (schema_ref (codes "irc/messages")) (codes "old") offer
      (codes "a") (codes "s") (some irc ∷ []) updated (unfold get text_beq in refl)

-- A join whose actor is a plain text.
abbrev plain_join : Stream
plain_join = record alice { actor = plain (codes "alice") }

prepared-normal_example :
    normalize_activity_stream (prepared (codes "message") (stream plain_join))
    ≡ prepared (codes "message") (stream plain_join)
prepared-normal_example = prepared-normal (codes "message") (stream plain_join)
