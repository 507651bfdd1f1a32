-- ===== src/Client/Outbound.antt =====
-- packages/client/src/sockethub-client.ts: what the application emits is queued until the client is
-- ready, then prepared, checked, remembered for a replay, and sent.
use sockethub.Base.{
  ℕ, suc, ◌-◌, Bool, true, false, ◌&&◌, ◌||◌, List, [], ◌∷◌, ◌++◌, Option, none, some,
  if◌then◌else◌, or_else, leb, ltb, Text, codes, text_eq, ◌==◌, ◌⊎◌, inl, inr, length,
}
use sockethub.Base.Table.{Table, set, delete}
use sockethub.Identity.{truthy, given}
use sockethub.Context.{Activity, ContextRegistry, resolve_platform_id}
use sockethub.Validator.{validate_activity_stream, validate_credentials}
use sockethub.Validator.Schemas.{AjvLibrary}
use sockethub.Stream.{Stream, Ref, object, empty_stream, normalize_activity_stream, is_given, shown}
use sockethub.Client.{
  Client, EventMapping, Content, stream, other, QueuedOutboundEvent, sent, replayed, is_ready, emit,
  emit_client_error,
}

-- What the client calls: AJV, the serialization of a stream, the error of the socket's `emit` for an
-- event name that it reserves, and the decimal digits of a number.
pub record Library : Type 0 where
  pub ajv : AjvLibrary
  pub serialize : Stream → Text
  pub reserved : Text → Option Text
  pub digits : ℕ → Text

abbrev pub as_activity : Library → Stream → Activity
as_activity lib s = record {
  context = s.context;
  kind = or_else s.kind [];
  actor = none;
  error = none;
  session_secret = none;
  old_context = none;
  rest = lib.serialize s;
}

-- `normalizeActivityStream` on any value.
abbrev pub normalized : Content → Stream
normalized (stream s) = normalize_activity_stream s
normalized (other t) = empty_stream

abbrev pub with_type : Text → Stream → Stream
with_type event s =
    if event == codes "credentials" && not_given s.kind
    then record s { kind = some (codes "credentials") }
    else s
  where
    not_given : Option Text → Bool
    not_given t = if given t then false else true

abbrev pub with_actor_type : Ref → Ref
with_actor_type (object o) =
    if given o.kind then object o else object (record o { kind = some (codes "person") })
with_actor_type r = r

-- The stream that is sent for an event `credentials` or `message`.
unfoldable pub prepared : Text → Content → Stream
prepared event content =
    let s = with_type event (normalized content) in record s { actor = with_actor_type s.actor }

-- The key under which a stream is remembered; `inl` is an exception.
unfoldable pub get_key : ContextRegistry → Activity → Stream → Text ⊎ Text
get_key g activity s =
    if is_given s.actor
    then inr (
        or_else (resolve_platform_id g activity) []
        ++ (codes ":" ++ (shown s.actor ++ (codes "-" ++ shown s.target))))
    else inl (
        codes "actor property not present for message type: " ++ or_else s.kind (codes "undefined"))

abbrev pub is_kind : Text → Stream → Bool
is_kind kind s = or_else s.kind [] == kind

abbrev pub is_credentials : Ref → Bool
is_credentials (object o) = or_else o.kind [] == codes "credentials"
is_credentials r = false

-- The maps after `eventCredentials`, and after `eventMessage` on a connected socket.
unfoldable pub store_credentials : Text → Stream → EventMapping → EventMapping
store_credentials key s m = record m { credentials = set key s m.credentials }

unfoldable pub store_message : Text → Stream → EventMapping → EventMapping
store_message key s m =
    if is_kind (codes "join") s
    then record m { join = set key s m.join }
    else if is_kind (codes "connect") s
    then record m { connect = set key s m.connect }
    else if is_kind (codes "leave") s
    then record m { join = delete key m.join }
    else if is_kind (codes "disconnect") s
    then record m { connect = delete key m.connect }
    else m

abbrev pub store_with :
    (Text → Stream → EventMapping → EventMapping) → Stream → Client → Text ⊎ Text → Text ⊎ Client
store_with store s c (inl error) = inl error
store_with store s c (inr key) = inr (record c { events = store key s c.events })

abbrev pub drop_oldest : List QueuedOutboundEvent → Client → Client
drop_oldest [] c = c
drop_oldest (dropped ∷ rest) c =
    emit_client_error dropped.event dropped.callback
      (codes "SockethubClient queue overflow before ready") (record c { outbound_queue = rest })

unfoldable pub enqueue_outbound : QueuedOutboundEvent → Client → Client
enqueue_outbound e c =
    let queue = c.outbound_queue ++ e ∷ [] in
    if leb (length queue) c.options.max_queued_outbound
    then record c { outbound_queue = queue }
    else drop_oldest queue (record c { outbound_queue = queue })

-- `Array.sort` is stable.
unfoldable pub insert_by_sequence :
    QueuedOutboundEvent → List QueuedOutboundEvent → List QueuedOutboundEvent
insert_by_sequence e [] = e ∷ []
insert_by_sequence e (f ∷ fs) =
    let rest = insert_by_sequence e fs in if leb e.sequence f.sequence then e ∷ f ∷ fs else f ∷ rest

unfoldable pub sort_by_sequence : List QueuedOutboundEvent → List QueuedOutboundEvent
sort_by_sequence [] = []
sort_by_sequence (e ∷ es) = insert_by_sequence e (sort_by_sequence es)

-- `replay`: a stored stream goes out in its normal form.
unfoldable pub replay : Text → Table Text Stream → Client → Client
replay name [] c = c
replay name ((key, s) ∷ stored) c =
    replay name stored (emit (replayed name (normalize_activity_stream s)) c)

module _ (lib : Library) where
  abbrev pub key_of : Stream → Client → Text ⊎ Text
  key_of s c = get_key c.schemas.contexts (as_activity lib s) s

  unfoldable pub event_credentials : Stream → Client → Text ⊎ Client
  event_credentials s c =
      if is_credentials s.content then store_with store_credentials s c (key_of s c) else inr c

  unfoldable pub event_message : Stream → Client → Text ⊎ Client
  event_message s c =
      if c.transport_connected then store_with store_message s c (key_of s c) else inr c

  -- `validateActivity`, when a registry is loaded.
  unfoldable pub validation_error : Stream → Client → Text
  validation_error s c =
      let ajv = lib.ajv.validators c.schemas.added in
      if leb (length c.platform_registry) 0
      then []
      else if is_kind (codes "credentials") s
      then validate_credentials ajv c.schemas.contexts (as_activity lib s)
      else validate_activity_stream ajv c.schemas.contexts (as_activity lib s)

  abbrev pub transmit_unless : Option Text → QueuedOutboundEvent → Content → Client → Client
  transmit_unless none e outgoing c = emit (sent e.event outgoing e.callback) c
  transmit_unless (some error) e outgoing c = emit_client_error e.event e.callback error c

  -- The socket's `emit`, inside the `try`.
  unfoldable pub transmit : QueuedOutboundEvent → Content → Client → Client
  transmit e outgoing c = transmit_unless (lib.reserved e.event) e outgoing c

  abbrev pub finish_send : QueuedOutboundEvent → Stream → Client → Text ⊎ Client → Client
  finish_send e s c (inl error) = emit_client_error e.event e.callback error c
  finish_send e s c (inr c') = transmit e (stream s) c'

  unfoldable pub send_activity : QueuedOutboundEvent → Stream → Client → Client
  send_activity e s c =
      let error = validation_error s c in
      if truthy error
      then emit_client_error e.event e.callback
          (codes "SockethubClient validation failed: " ++ error) c
      else finish_send e s c
          (if e.event == codes "credentials" then event_credentials s c else event_message s c)

  unfoldable pub send_outbound : QueuedOutboundEvent → Client → Client
  send_outbound e c =
      if e.event == codes "credentials" || e.event == codes "message"
      then send_activity e (prepared e.event e.content) c
      else transmit e e.content c

  unfoldable pub handle_public_emit : Text → Content → Option ℕ → ℕ → Client → Client
  handle_public_emit event content callback now c =
      let e : QueuedOutboundEvent = record {
        event = event;
        content = content;
        callback = callback;
        enqueued_at = now;
        sequence = c.outbound_sequence;
      } in
      let c' = record c { outbound_sequence = suc c.outbound_sequence } in
      if is_ready c then send_outbound e c' else enqueue_outbound e c'

  -- `now - entry.enqueuedAt > maxQueuedAgeMs`; no entry expires where the clock went back.
  unfoldable pub flush_entry : ℕ → QueuedOutboundEvent → Client → Client
  flush_entry now e c =
      if ltb c.options.max_queued_age_ms (now - e.enqueued_at)
      then emit_client_error e.event e.callback
          (codes "SockethubClient queued message expired after "
            ++ (lib.digits c.options.max_queued_age_ms ++ codes "ms before initialization"))
          c
      else send_outbound e c

  unfoldable pub flush_entries : ℕ → List QueuedOutboundEvent → Client → Client
  flush_entries now [] c = c
  flush_entries now (e ∷ es) c = flush_entries now es (flush_entry now e c)

  unfoldable pub flush_outbound_queue : ℕ → Client → Client
  flush_outbound_queue now c =
      if is_ready c
      then flush_entries now (sort_by_sequence c.outbound_queue) (record c { outbound_queue = [] })
      else c
