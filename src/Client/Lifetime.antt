-- ===== src/Client/Lifetime.antt =====
-- packages/client/src/sockethub-client.ts: every event of a client's life keeps the accounts of its
-- queue.
use sockethub.Base.{
  ℕ, refl, Bool, true, List, [], ◌∷◌, Option, none, some, arith, Text, codes, sym, or_else, if_both,
  ap, ◌∙◌, is_some,
}
use sockethub.Stream.{normalize_activity_stream}
use sockethub.Validator.Schemas.{Schemas}
use sockethub.Client.{
  Client, Options, new_client, in_ready, emit, clear_credentials, on_schemas, on_connect,
  on_connect_error, on_message,
}
use sockethub.Client.Registry.{
  RegistryOffer, PlatformOffer, apply_platform, apply_platforms, apply_registry, apply_checked,
  apply_platform_registry, build_platform_registry_payload,
}
use sockethub.Client.Outbound.{Library, handle_public_emit}
use sockethub.Client.Init.{
  first_reason, reason_of, Emission, settled, adopt, reopened, apply_payload,
  handle_schemas_payload, Event, emits, clears_credentials, asks_ready, ready_times_out, connects,
  fails_to_connect, disconnects, receives_schemas, receives_message, init_times_out, warns,
  socket_connect, step, run,
}
use sockethub.Client.Queue.{answers, Answers, Answers-refl, Grown-refl, Answers-trans, emit-Answers}
use sockethub.Client.Accounts.{
  IsCounted, IsSound, Answers-IsCounted, Answers-IsSound, handle_public_emit-IsCounted,
  handle_public_emit-ready, handle_public_emit-state,
}
use sockethub.Client.Steps.{
  mark_ready-IsSound, invalid_payload-IsSound, ready-IsSound, ready_timeout-IsSound,
  start_initialization-IsSound, init_timeout-IsSound, socket_disconnect-IsSound,
  waiting_warning-IsSound,
}

module _ (lib : Library) where
  apply_platforms-Answers :
      (ps : List (Option PlatformOffer)) (c : Client) → Answers 0 c (apply_platforms lib.ajv ps c)
  unfolding apply_platforms apply_platform
  apply_platforms-Answers [] c = Answers-refl c
  apply_platforms-Answers (none ∷ ps) c = apply_platforms-Answers ps c
  apply_platforms-Answers (some p ∷ ps) c =
      let d = apply_platform lib.ajv (some p) c in
      let one : Answers 0 c d = record {
        queue = refl;
        sequence = refl;
        options = refl;
        state = refl;
        count = omega arith;
        grown = Grown-refl c.log;
      } in
      Answers-trans 0 0 c d (apply_platforms lib.ajv ps d) one (apply_platforms-Answers ps d)

  apply_registry-Answers :
      (offer : RegistryOffer) (a b : Text) (ps : List (Option PlatformOffer)) (c : Client)
      → Answers 0 c (apply_registry lib.ajv offer a b ps c)
  unfolding apply_registry
  apply_registry-Answers offer a b ps c =
      let c0 : Client = record c {
        sockethub_version = some (or_else offer.version (codes "unknown"));
        as_context_url = some a;
        sockethub_context_url = some b;
        platform_registry = [];
      } in
      let d = apply_platforms lib.ajv ps c0 in
      let d' : Client = record d { registry_fingerprint = offer.fingerprint } in
      let k = apply_platforms-Answers ps c0 in
      Answers-trans 0 0 c d' (emit (on_schemas (build_platform_registry_payload d)) d')
        (record {
          queue = k.queue;
          sequence = k.sequence;
          options = k.options;
          state = k.state;
          count = k.count;
          grown = k.grown;
        })
        (emit-Answers (on_schemas (build_platform_registry_payload d)) d')

  adopt-IsSound :
      (offer : RegistryOffer) (reactions : List Emission) (now : ℕ) (c : Client)
      (as_context sockethub_context : Option Text) (ps : Option (List (Option PlatformOffer)))
      → IsCounted c
      → IsSound (
          adopt lib (apply_checked lib.ajv offer as_context sockethub_context ps c) reactions now c)
  adopt-IsSound offer reactions now c (some a) (some b) (some ps) h =
      let d = apply_registry lib.ajv offer a b ps c in
      mark_ready-IsSound lib (reason_of d.init_cycle) reactions now d
        (Answers-IsCounted c d (apply_registry-Answers offer a b ps c) h)
  adopt-IsSound offer reactions now c none b ps h = invalid_payload-IsSound c h
  adopt-IsSound offer reactions now c (some a) none ps h = invalid_payload-IsSound c h
  adopt-IsSound offer reactions now c (some a) (some b) none h = invalid_payload-IsSound c h

  apply_payload-IsSound :
      (offer : RegistryOffer) (reactions : List Emission) (now : ℕ) (c : Client)
      → IsSound c
      → IsSound (apply_payload lib offer reactions now c)
  unfolding apply_payload apply_platform_registry
  apply_payload-IsSound offer reactions now c h =
      adopt-IsSound offer reactions now (reopened c) offer.as_context offer.sockethub_context
        offer.platforms (if_both IsCounted (settled c) h.counted h.counted)

  handle_schemas_payload-IsSound :
      (payload : Option RegistryOffer) (reactions : List Emission) (now : ℕ) (c : Client)
      → IsSound c
      → IsSound (handle_schemas_payload lib payload reactions now c)
  unfolding handle_schemas_payload
  handle_schemas_payload-IsSound none reactions now c h = h
  handle_schemas_payload-IsSound (some offer) reactions now c h =
      if_both IsSound _
        (if_both IsSound (settled c) h
          (mark_ready-IsSound lib (reason_of c.init_cycle) reactions now c h.counted))
        (if_both IsSound _ h (apply_payload-IsSound offer reactions now c h))

  handle_public_emit-IsSound :
      (e : Emission) (c : Client)
      → IsSound c
      → IsSound (handle_public_emit lib e.event e.content e.callback e.now c)
  handle_public_emit-IsSound e c h = record {
    counted = handle_public_emit-IsCounted lib e.event e.content e.callback e.now c h.counted;
    flushed = λ r.
        let was = sym (handle_public_emit-state lib e.event e.content e.callback e.now c) in
        let ready_before = ap in_ready was ∙ r in
        (handle_public_emit-ready lib e.event e.content e.callback e.now c ready_before).0
        ∙ h.flushed ready_before;
  }

  step-IsSound : (e : Event) (c : Client) → IsSound c → IsSound (step lib e c)
  step-IsSound (emits e) c h = unfold step in handle_public_emit-IsSound e c h
  step-IsSound clears_credentials c h =
      unfold step clear_credentials in record { counted = h.counted; flushed = h.flushed }
  step-IsSound (asks_ready promise timeout_ms now) c h =
      unfold step in ready-IsSound lib promise timeout_ms now c h
  step-IsSound (ready_times_out promise timeout_ms) c h =
      unfold step in ready_timeout-IsSound lib promise timeout_ms c h
  step-IsSound (connects now) c h =
      let b : Client = record c { connected = true; transport_connected = true } in
      let d = emit on_connect b in
      unfold step socket_connect in
      start_initialization-IsSound lib (first_reason c) true now d (
        Answers-IsSound b d (emit-Answers on_connect b)
          (record { counted = h.counted; flushed = h.flushed }))
  step-IsSound fails_to_connect c h =
      unfold step in Answers-IsSound c (emit on_connect_error c) (emit-Answers on_connect_error c) h
  step-IsSound disconnects c h = unfold step in socket_disconnect-IsSound c h
  step-IsSound (receives_schemas payload reactions now) c h =
      unfold step in handle_schemas_payload-IsSound payload reactions now c h
  step-IsSound (receives_message s) c h =
      unfold step in
      Answers-IsSound c _ (emit-Answers (on_message (normalize_activity_stream s)) c) h
  step-IsSound (init_times_out token) c h =
      unfold step in
      if_both IsSound (is_some c.init_timeout_timer) (init_timeout-IsSound lib token c h) h
  step-IsSound warns c h = unfold step in waiting_warning-IsSound c h

  run-IsSound : (es : List Event) (c : Client) → IsSound c → IsSound (run lib es c)
  unfolding run
  run-IsSound [] c h = h
  run-IsSound (e ∷ es) c h = run-IsSound es (step lib e c) (step-IsSound e c h)

new_client-IsSound :
    (options : Options) (has_io : Bool) (schemas : Schemas)
    → IsSound (new_client options has_io schemas)
unfolding answers
new_client-IsSound options has_io schemas = record {
  counted = record { bounded = omega arith; ordered = omega arith; counted = omega arith };
  flushed = λ _. refl;
}

-- From a new client, whatever events come: the queue is within its bound and in the order of
-- emission, it is empty while the client is ready, and as many emissions are waiting or answered as
-- the application has made.
pub run_new-IsSound :
    (lib : Library) (options : Options) (has_io : Bool) (schemas : Schemas) (es : List Event)
    → IsSound (run lib es (new_client options has_io schemas))
run_new-IsSound lib options has_io schemas es =
    run-IsSound lib es (new_client options has_io schemas)
      (new_client-IsSound options has_io schemas)
