-- ===== src/Client/Init.antt =====
-- packages/client/src/sockethub-client.ts: initialization cycles, the promises of `ready`, the handlers
-- of the socket's events, and all of a client's events as steps.
use sockethub.Base.{
  ℕ, suc, Bool, true, false, ◌&&◌, ◌||◌, not, List, [], ◌∷◌, ◌++◌, Option, none, some, is_some,
  if◌then◌else◌, ltb, Text, codes, text_eq, nat_eq, ◌==◌, map, any, length,
}
use sockethub.Identity.{given}
use sockethub.Stream.{Stream, normalize_activity_stream}
use sockethub.Client.{
  Client, Content, Waiter, InitializationCycle, ReadyReason, initial_connect, reconnect,
  schemas_update, schemas_request, schemas_apply, timeout, idle, initializing, is_ready_state,
  init_error, ClientReadyInfo, schemas_requested, resolved, rejected, on_connect, on_connect_error,
  on_disconnect, on_ready, on_message, is_ready, in_ready, in_idle, in_closed, emit, emit_all,
  clear_credentials, clear_init_timers, start_waiting_warnings, waiting_warning, emit_init_error,
}
use sockethub.Client.Registry.{RegistryOffer, build_ready_info, apply_platform_registry}
use sockethub.Client.Outbound.{Library, handle_public_emit, flush_outbound_queue, replay}

unfoldable pub resolve_ready_waiters : ClientReadyInfo → Client → Client
resolve_ready_waiters info c =
    emit_all (map (λ w. resolved w.promise info) c.ready_waiters) (record c { ready_waiters = [] })

unfoldable pub reject_ready_waiters : Text → Client → Client
reject_ready_waiters error c =
    emit_all (map (λ w. rejected w.promise error) c.ready_waiters) (record c { ready_waiters = [] })

abbrev pub is_current : ℕ → Option InitializationCycle → Bool
is_current token none = false
is_current token (some cycle) = cycle.token == token

abbrev pub timed_out_cycle : Option InitializationCycle → Option InitializationCycle
timed_out_cycle none = none
timed_out_cycle (some cycle) = some (record cycle { timed_out = true })

abbrev pub first_reason : Client → ReadyReason
first_reason c = if c.has_ready_once then reconnect else initial_connect

abbrev pub replays : Option InitializationCycle → Bool
replays none = false
replays (some cycle) = cycle.replay_on_ready

abbrev pub reason_of : Option InitializationCycle → ReadyReason
reason_of none = schemas_update
reason_of (some cycle) = cycle.reason

-- A call of the public `emit`, with the time of the call.
pub record Emission : Type 0 where
  pub event : Text
  pub content : Content
  pub callback : Option ℕ
  pub now : ℕ

unfoldable pub without : ℕ → List Waiter → List Waiter
without promise [] = []
without promise (w ∷ ws) =
    let rest = without promise ws in if w.promise == promise then rest else w ∷ rest

-- `markReady` up to the event `ready`.
unfoldable pub ready_begin : Client → Client
ready_begin c = record (clear_init_timers (record c { init_cycle = none })) {
  init_state = is_ready_state;
  has_ready_once = true;
}

unfoldable pub replay_all : Client → Client
replay_all c = replay (codes "message") c.events.join (
    replay (codes "message") c.events.connect (replay (codes "credentials") c.events.credentials c))

abbrev pub same_fingerprint : Option Text → Option Text → Bool
same_fingerprint (some a) (some b) = given (some a) && (a == b)
same_fingerprint _ _ = false

abbrev pub settled : Client → Bool
settled c = in_ready c.init_state && not (is_some c.init_cycle)

unfoldable pub invalid_payload : Client → Client
invalid_payload c = start_waiting_warnings (
    emit_init_error (codes "Received invalid schemas payload from server") schemas_apply true
      (record c { init_state = init_error }))

-- A payload that comes while the client is ready takes it back to initializing.
abbrev pub reopened : Client → Client
reopened c = if settled c then record c { init_state = initializing } else c

-- The events of a client's life: the application's calls, the socket's events, and the timers.
pub data Event : Type 0 where
  emits : Emission → Event
  clears_credentials : Event
  asks_ready : ℕ → ℕ → ℕ → Event
  ready_times_out : ℕ → ℕ → Event
  connects : ℕ → Event
  fails_to_connect disconnects : Event
  receives_schemas : Option RegistryOffer → List Emission → ℕ → Event
  receives_message : Stream → Event
  init_times_out : ℕ → Event
  warns : Event

unfoldable pub socket_disconnect : Client → Client
socket_disconnect c = emit on_disconnect (
    clear_init_timers (record c {
      connected = false;
      transport_connected = false;
      init_state = if in_closed c.init_state then c.init_state else idle;
    }))

module _ (lib : Library) where
  -- The callback of the initialization's timeout, for the token that it captured.
  unfoldable pub init_timeout : ℕ → Client → Client
  init_timeout token c =
      if is_current token c.init_cycle
      then start_waiting_warnings (
          emit_init_error
            (codes "Initialization timed out after "
              ++ (lib.digits c.options.init_timeout_ms ++ codes "ms waiting for schemas"))
            timeout false
            (record c { init_cycle = timed_out_cycle c.init_cycle; init_state = init_error }))
      else c

  abbrev pub request_unless : Option Text → Client → Client
  request_unless none c = emit (schemas_requested c.registry_fingerprint) c
  request_unless (some error) c =
      start_waiting_warnings
        (emit_init_error error schemas_request false (record c { init_state = init_error }))

  -- With the `catch` of its one caller.
  unfoldable pub request_schema_registry : Client → Client
  request_schema_registry c =
      if not c.has_io then c else request_unless (lib.reserved (codes "schemas")) c

  unfoldable pub start_initialization : ReadyReason → Bool → ℕ → Client → Client
  start_initialization reason replay_on_ready now c =
      if not c.connected || in_closed c.init_state
      then c
      else request_schema_registry (record c {
        init_token_counter = suc c.init_token_counter;
        init_cycle = some (record {
          token = suc c.init_token_counter;
          reason = reason;
          started_at = now;
          replay_on_ready = replay_on_ready;
          timed_out = false;
        });
        init_state = initializing;
        init_timeout_timer = some (suc c.init_token_counter);
        waiting_warning_timer = false;
      })

  abbrev pub wait_ready : ℕ → ℕ → ℕ → Client → Client
  wait_ready promise timeout_ms now c =
      let c' : Client = record c {
        ready_waiters =
            c.ready_waiters ++ record { promise = promise; timed = ltb 0 timeout_ms } ∷ [];
      } in
      if c.connected && in_idle c.init_state
      then start_initialization (first_reason c) true now c'
      else c'

  abbrev pub ready_unless : Option ClientReadyInfo → ℕ → ℕ → ℕ → Client → Client
  ready_unless (some info) promise timeout_ms now c = emit (resolved promise info) c
  ready_unless none promise timeout_ms now c = wait_ready promise timeout_ms now c

  -- A timed promise is settled by `ready_timeout` at the latest.
  unfoldable pub ready : ℕ → ℕ → ℕ → Client → Client
  ready promise timeout_ms now c =
      ready_unless (if is_ready c then c.latest_ready_info else none) promise timeout_ms now c

  -- The timer of a promise. It is cleared when the promise is settled.
  unfoldable pub ready_timeout : ℕ → ℕ → Client → Client
  ready_timeout promise timeout_ms c =
      if any (λ w. w.promise == promise && w.timed) c.ready_waiters
      then emit
          (rejected promise (
            codes "SockethubClient ready() timed out after "
            ++ (lib.digits timeout_ms ++ codes "ms")))
          (record c { ready_waiters = without promise c.ready_waiters })
      else c

  -- Calls that the application's handlers make.
  unfoldable pub emissions : List Emission → Client → Client
  emissions [] c = c
  emissions (e ∷ es) c = emissions es (handle_public_emit lib e.event e.content e.callback e.now c)

  -- `markReady` after the handlers of the event `ready`.
  unfoldable pub ready_end : ClientReadyInfo → Bool → ℕ → Client → Client
  ready_end info replay_on_ready now c =
      let c' = resolve_ready_waiters info (record c { latest_ready_info = some info }) in
      flush_outbound_queue lib now (if replay_on_ready then replay_all c' else c')

  -- `c` is as `ready_begin` leaves it.
  abbrev pub announce : Option ClientReadyInfo → Bool → List Emission → ℕ → Client → Client
  announce none replay_on_ready reactions now c =
      reject_ready_waiters (codes "Failed to build ready payload") (
        emit_init_error (codes "Failed to build ready payload") schemas_apply true
          (record c { init_state = init_error }))
  announce (some info) replay_on_ready reactions now c =
      ready_end info replay_on_ready now (emissions reactions (emit (on_ready info) c))

  -- `reactions` are what the handlers of the event `ready` emit.
  unfoldable pub mark_ready : ReadyReason → List Emission → ℕ → Client → Client
  mark_ready reason reactions now c =
      announce (build_ready_info reason (ready_begin c)) (replays c.init_cycle) reactions now
        (ready_begin c)

  abbrev pub adopt : Option Client → List Emission → ℕ → Client → Client
  adopt none reactions now c = invalid_payload c
  adopt (some c') reactions now c = mark_ready (reason_of c'.init_cycle) reactions now c'

  unfoldable pub apply_payload : RegistryOffer → List Emission → ℕ → Client → Client
  apply_payload offer reactions now c =
      adopt (apply_platform_registry lib.ajv offer (reopened c)) reactions now (reopened c)

  -- None is a payload that is no object.
  unfoldable pub handle_schemas_payload : Option RegistryOffer → List Emission → ℕ → Client → Client
  handle_schemas_payload none reactions now c = c
  handle_schemas_payload (some offer) reactions now c =
      if offer.unchanged && (is_some c.registry_fingerprint && ltb 0 (length c.platform_registry))
      then if settled c then c else mark_ready (reason_of c.init_cycle) reactions now c
      else if settled c && same_fingerprint offer.fingerprint c.registry_fingerprint
      then c
      else apply_payload offer reactions now c

  unfoldable pub socket_connect : ℕ → Client → Client
  socket_connect now c =
      start_initialization (first_reason c) true now
        (emit on_connect (record c { connected = true; transport_connected = true }))

  unfoldable pub step : Event → Client → Client
  step (emits e) c = handle_public_emit lib e.event e.content e.callback e.now c
  step clears_credentials c = clear_credentials c
  step (asks_ready promise timeout_ms now) c = ready promise timeout_ms now c
  step (ready_times_out promise timeout_ms) c = ready_timeout promise timeout_ms c
  step (connects now) c = socket_connect now c
  step fails_to_connect c = emit on_connect_error c
  step disconnects c = socket_disconnect c
  step (receives_schemas payload reactions now) c = handle_schemas_payload payload reactions now c
  step (receives_message s) c = emit (on_message (normalize_activity_stream s)) c
  step (init_times_out token) c = if is_some c.init_timeout_timer then init_timeout token c else c
  step warns c = if c.waiting_warning_timer then waiting_warning c else c

  unfoldable pub run : List Event → Client → Client
  run [] c = c
  run (e ∷ es) c = run es (step e c)
