-- ===== src/Client/Steps.antt =====
-- packages/client/src/sockethub-client.ts: the steps of an initialization keep the accounts of the
-- queue.
use sockethub.Base.{
  ℕ, ◌≡◌, refl, Bool, true, false, not, List, [], ◌∷◌, Option, none, some, if◌then◌else◌, arith,
  Text, codes, if_both, ap, ◌∙◌, ◌++◌, map, ◌||◌, ◌&&◌,
}
use sockethub.Client.{
  InitState, closed, Client, in_ready, in_idle, in_closed, is_ready, emit, emit_init_error,
  start_waiting_warnings, waiting_warning, clear_init_timers, Waiter, Effect, schemas_requested,
  resolved, rejected, on_ready, on_disconnect, init_failed, ClientReadyInfo, ReadyReason,
  InitErrorPhase, initializing, init_error, idle, is_ready_state, timeout, schemas_request,
  schemas_apply,
}
use sockethub.Client.Registry.{build_ready_info}
use sockethub.Client.Outbound.{Library, replay}
use sockethub.Client.Init.{
  resolve_ready_waiters, reject_ready_waiters, is_current, timed_out_cycle, first_reason, replays,
  Emission, init_timeout, request_unless, request_schema_registry, start_initialization, wait_ready,
  ready_unless, ready, without, ready_timeout, ready_begin, emissions, replay_all, ready_end,
  announce, mark_ready, invalid_payload, socket_disconnect,
}
use sockethub.Client.Queue.{
  answers, Answers, Answers-refl, Answers-trans, emit-Answers, emit_all-Answers, replay-Answers,
}
use sockethub.Client.Accounts.{
  IsCounted, IsSound, Answers-IsCounted, Answers-IsSound, handle_public_emit-IsCounted,
  handle_public_emit-ready, flush_outbound_queue-IsSound,
}

Answers-unready :
    (c d : Client) → Answers 0 c d → IsCounted c → in_ready c.init_state ≡ false → IsSound d
Answers-unready c d a h u = record {
  counted = Answers-IsCounted c d a h;
  flushed = λ r. ground (arith, a.state, u, r);
}

resolved-answers :
    (info : ClientReadyInfo) (ws : List Waiter)
    → answers (map (λ w. resolved w.promise info) ws) ≡ 0
unfolding answers
resolved-answers info [] = refl
resolved-answers info (w ∷ ws) = omega (arith, resolved-answers info ws)

rejected-answers :
    (error : Text) (ws : List Waiter) → answers (map (λ w. rejected w.promise error) ws) ≡ 0
unfolding answers
rejected-answers error [] = refl
rejected-answers error (w ∷ ws) = omega (arith, rejected-answers error ws)

pub resolve_ready_waiters-Answers :
    (info : ClientReadyInfo) (c : Client) → Answers 0 c (resolve_ready_waiters info c)
unfolding resolve_ready_waiters
resolve_ready_waiters-Answers info c =
    let b : Client = record c { ready_waiters = [] } in
    let a =
      emit_all-Answers (map (λ w. resolved w.promise info) c.ready_waiters) b
        (resolved-answers info c.ready_waiters) in
    record {
      queue = a.queue;
      sequence = a.sequence;
      options = a.options;
      state = a.state;
      count = a.count;
      grown = a.grown;
    }

reject_ready_waiters-Answers :
    (error : Text) (c : Client) → Answers 0 c (reject_ready_waiters error c)
unfolding reject_ready_waiters
reject_ready_waiters-Answers error c =
    let b : Client = record c { ready_waiters = [] } in
    let a =
      emit_all-Answers (map (λ w. rejected w.promise error) c.ready_waiters) b
        (rejected-answers error c.ready_waiters) in
    record {
      queue = a.queue;
      sequence = a.sequence;
      options = a.options;
      state = a.state;
      count = a.count;
      grown = a.grown;
    }

emit_init_error-Answers :
    (error : Text) (phase : InitErrorPhase) (retrying : Bool) (c : Client)
    → Answers 0 c (emit_init_error error phase retrying c)
unfolding emit_init_error
emit_init_error-Answers error phase retrying c = emit-Answers (init_failed error phase retrying) c

-- A failed initialization, with its warnings.
failed-IsSound :
    (error : Text) (phase : InitErrorPhase) (retrying : Bool) (c : Client)
    → IsCounted c
    → in_ready c.init_state ≡ false
    → IsSound (start_waiting_warnings (emit_init_error error phase retrying c))
unfolding start_waiting_warnings
failed-IsSound error phase retrying c h u =
    let s =
      Answers-unready c (emit_init_error error phase retrying c)
        (emit_init_error-Answers error phase retrying c) h u in
    record { counted = s.counted; flushed = s.flushed }

pub invalid_payload-IsSound : (c : Client) → IsCounted c → IsSound (invalid_payload c)
unfolding invalid_payload
invalid_payload-IsSound c h =
    failed-IsSound (codes "Received invalid schemas payload from server") schemas_apply true
      (record c { init_state = init_error }) h refl

disconnected_lem : (s : InitState) → in_ready (if in_closed s then s else idle) ≡ false
disconnected_lem idle = refl
disconnected_lem initializing = refl
disconnected_lem is_ready_state = refl
disconnected_lem init_error = refl
disconnected_lem closed = refl

pub socket_disconnect-IsSound : (c : Client) → IsSound c → IsSound (socket_disconnect c)
unfolding socket_disconnect clear_init_timers
socket_disconnect-IsSound c h =
    Answers-unready _ _ (emit-Answers on_disconnect _) h.counted (disconnected_lem c.init_state)

pub waiting_warning-IsSound :
    (c : Client) → IsSound c → IsSound (if c.waiting_warning_timer then waiting_warning c else c)
unfolding waiting_warning clear_init_timers
waiting_warning-IsSound c h =
    let k : IsSound (clear_init_timers c) = record { counted = h.counted; flushed = h.flushed } in
    if_both IsSound c.waiting_warning_timer
      (if_both IsSound (is_ready c) k (if_both IsSound (in_closed c.init_state) k h)) h

module _ (lib : Library) where
  request_unless-IsSound :
      (o : Option Text) (c : Client)
      → IsCounted c
      → in_ready c.init_state ≡ false
      → IsSound (request_unless lib o c)
  request_unless-IsSound none c h u =
      Answers-unready c (emit (schemas_requested c.registry_fingerprint) c)
        (emit-Answers (schemas_requested c.registry_fingerprint) c) h u
  request_unless-IsSound (some error) c h u =
      failed-IsSound error schemas_request false (record c { init_state = init_error }) h refl

  request_schema_registry-IsSound :
      (c : Client)
      → IsCounted c
      → in_ready c.init_state ≡ false
      → IsSound (request_schema_registry lib c)
  unfolding request_schema_registry
  request_schema_registry-IsSound c h u =
      if_both IsSound (not c.has_io) (Answers-unready c c (Answers-refl c) h u)
        (request_unless-IsSound (lib.reserved (codes "schemas")) c h u)

  pub start_initialization-IsSound :
      (reason : ReadyReason) (replay_on_ready : Bool) (now : ℕ) (c : Client)
      → IsSound c
      → IsSound (start_initialization lib reason replay_on_ready now c)
  unfolding start_initialization
  start_initialization-IsSound reason replay_on_ready now c h =
      if_both IsSound (not c.connected || in_closed c.init_state) h
        (request_schema_registry-IsSound _ h.counted refl)

  pub init_timeout-IsSound :
      (token : ℕ) (c : Client) → IsSound c → IsSound (init_timeout lib token c)
  unfolding init_timeout
  init_timeout-IsSound token c h =
      if_both IsSound (is_current token c.init_cycle)
        (failed-IsSound _ timeout false
          (record c { init_cycle = timed_out_cycle c.init_cycle; init_state = init_error })
          h.counted refl)
        h

  wait_ready-IsSound :
      (promise timeout_ms now : ℕ) (c : Client)
      → IsSound c
      → IsSound (wait_ready lib promise timeout_ms now c)
  wait_ready-IsSound promise timeout_ms now c h =
      if_both IsSound (c.connected && in_idle c.init_state)
        (start_initialization-IsSound (first_reason c) true now _
          (record { counted = h.counted; flushed = h.flushed }))
        (record { counted = h.counted; flushed = h.flushed })

  pub ready-IsSound :
      (promise timeout_ms now : ℕ) (c : Client)
      → IsSound c
      → IsSound (ready lib promise timeout_ms now c)
  unfolding ready
  ready-IsSound promise timeout_ms now c h =
      ready_unless-IsSound (if is_ready c then c.latest_ready_info else none)
    where
      ready_unless-IsSound :
          (o : Option ClientReadyInfo) → IsSound (ready_unless lib o promise timeout_ms now c)
      ready_unless-IsSound none = wait_ready-IsSound promise timeout_ms now c h
      ready_unless-IsSound (some info) =
          Answers-IsSound c _ (emit-Answers (resolved promise info) c) h

  pub ready_timeout-IsSound :
      (promise timeout_ms : ℕ) (c : Client)
      → IsSound c
      → IsSound (ready_timeout lib promise timeout_ms c)
  unfolding ready_timeout
  ready_timeout-IsSound promise timeout_ms c h =
      let b : Client = record c { ready_waiters = without promise c.ready_waiters } in
      let e : Effect = rejected promise (
        codes "SockethubClient ready() timed out after "
        ++ (lib.digits timeout_ms ++ codes "ms")) in
      if_both IsSound _
        (Answers-IsSound b (emit e b) (emit-Answers e b)
          (record { counted = h.counted; flushed = h.flushed }))
        h

  pub emissions-IsCounted :
      (es : List Emission) (c : Client) → IsCounted c → IsCounted (emissions lib es c)
  unfolding emissions
  emissions-IsCounted [] c h = h
  emissions-IsCounted (e ∷ es) c h =
      emissions-IsCounted es _
        (handle_public_emit-IsCounted lib e.event e.content e.callback e.now c h)

  pub emissions-ready :
      (es : List Emission) (c : Client) → is_ready c ≡ true → is_ready (emissions lib es c) ≡ true
  unfolding emissions
  emissions-ready [] c r = r
  emissions-ready (e ∷ es) c r =
      emissions-ready es _
        (ap in_ready (handle_public_emit-ready lib e.event e.content e.callback e.now c r).1 ∙ r)

  pub replay_all-Answers : (c : Client) → Answers 0 c (replay_all c)
  unfolding replay_all
  replay_all-Answers c =
      let c1 = replay (codes "credentials") c.events.credentials c in
      let c2 = replay (codes "message") c.events.connect c1 in
      Answers-trans 0 0 c c2 _
        (Answers-trans 0 0 c c1 c2 (replay-Answers (codes "credentials") c.events.credentials c)
          (replay-Answers (codes "message") c.events.connect c1))
        (replay-Answers (codes "message") c.events.join c2)

  ready_end-IsSound :
      (info : ClientReadyInfo) (replay_on_ready : Bool) (now : ℕ) (c : Client)
      → is_ready c ≡ true
      → IsCounted c
      → IsSound (ready_end lib info replay_on_ready now c)
  unfolding ready_end
  ready_end-IsSound info replay_on_ready now c r h =
      let b : Client = record c { latest_ready_info = some info } in
      let c' = resolve_ready_waiters info b in
      let a = resolve_ready_waiters-Answers info b in
      let d : Client = if replay_on_ready then replay_all c' else c' in
      let k : Answers 0 c' d =
        if_both (Answers 0 c') replay_on_ready (replay_all-Answers c') (Answers-refl c') in
      let k2 = Answers-trans 0 0 b c' d a k in
      flush_outbound_queue-IsSound lib now d (ap in_ready k2.state ∙ r) (Answers-IsCounted b d k2 h)

  announce-IsSound :
      (o : Option ClientReadyInfo) (replay_on_ready : Bool) (reactions : List Emission) (now : ℕ)
      (c : Client)
      → is_ready c ≡ true
      → IsCounted c
      → IsSound (announce lib o replay_on_ready reactions now c)
  announce-IsSound none replay_on_ready reactions now c r h =
      let text = codes "Failed to build ready payload" in
      let b : Client = record c { init_state = init_error } in
      let d = emit_init_error text schemas_apply true b in
      Answers-unready b (reject_ready_waiters text d)
        (Answers-trans 0 0 b d (reject_ready_waiters text d)
          (emit_init_error-Answers text schemas_apply true b) (reject_ready_waiters-Answers text d))
        h refl
  announce-IsSound (some info) replay_on_ready reactions now c r h =
      let b = emit (on_ready info) c in
      let a = emit-Answers (on_ready info) c in
      ready_end-IsSound info replay_on_ready now (emissions lib reactions b)
        (emissions-ready reactions b (ap in_ready a.state ∙ r))
        (emissions-IsCounted reactions b (Answers-IsCounted c b a h))

  pub mark_ready-IsSound :
      (reason : ReadyReason) (reactions : List Emission) (now : ℕ) (c : Client)
      → IsCounted c
      → IsSound (mark_ready lib reason reactions now c)
  unfolding mark_ready
  mark_ready-IsSound reason reactions now c h =
      announce-IsSound (build_ready_info reason (ready_begin c)) (replays c.init_cycle) reactions
        now (ready_begin c) (unfold ready_begin in refl) (unfold ready_begin clear_init_timers in h)
