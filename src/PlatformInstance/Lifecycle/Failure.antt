-- ===== src/PlatformInstance/Lifecycle/Failure.antt =====
-- Who is told of a child process that dies or hangs.
use sockethub.Base.{
  ℕ, ◌≡◌, refl, Bool, true, false, List, [], ◌++◌, map, some, arith, Text, nat_eq, text_eq,
  if◌then◌else◌, Bool-cases, Option-cases, inl, inr, ap, ◌∙◌,
}
use sockethub.Base.Table.{get, set, get-set_self}
use sockethub.Context.{ContextRegistry}
use sockethub.Validator.{Ajv}
use sockethub.World.{Instance, World, Emission, emit, idle, modify}
use sockethub.World.Laws.{modify-some}
use sockethub.PlatformInstance.{fatal_error, prepare}
use sockethub.PlatformInstance.Delivery.{fatal_emissions_lem, connected_only}
use sockethub.PlatformInstance.Lifecycle.{
  queue_end, teardown_begin, shutdown, broadcast_fatal_error, close_message, handle_process_close,
  is_hung, heartbeat_tick,
}
use sockethub.PlatformInstance.Lifecycle.Teardown.{
  closing_instance, shutdown-idle, get-teardown_begin, shutdown-busy, Shutdown-cases,
  shutdown_single_flight,
}

if_true : {A : Type 0} (x y : A) (b : Bool) → b ≡ true → x ≡ (if b then x else y)
if_true x y true e = refl
if_true x y false e = cc

if_false : {A : Type 0} (x y : A) (b : Bool) → b ≡ false → y ≡ (if b then x else y)
if_false x y false e = refl
if_false x y true e = cc

pub shutdown-outbox : (ref : ℕ) (w : World) → (shutdown ref w).outbox ≡ w.outbox
unfolding shutdown teardown_begin
shutdown-outbox ref w = elim (Option-cases (get ref w.heap)) [
  | inl e ↦ rw (e, shutdown)
  | inr (i, e) ↦ rw (e, shutdown) (ground arith)
]

-- The error that each connected session of an instance gets, in order.
abbrev pub reports : Ajv → ContextRegistry → Instance → World → Text → List Emission
reports ajv g i w text =
    map (λ sid. emit sid (prepare i (fatal_error ajv g w.sockets i text)))
      (connected_only ajv g w.sockets i i.sessions)

module _ (ajv : Ajv) (g : ContextRegistry) (ref : ℕ) (i : Instance) (w : World)
    (at : get ref w.heap ≡ some i) where
  abbrev reported : Text → World
  reported text = record w {
    heap = set ref (record i { sessions = [] }) w.heap;
    outbox = w.outbox ++ reports ajv g i w text;
  }

  broadcast_fatal_error-some :
      (text : Text) → broadcast_fatal_error ajv g text ref w ≡ shutdown ref (reported text)
  unfolding broadcast_fatal_error
  broadcast_fatal_error-some text =
      rw
        (
          at,
          broadcast_fatal_error,
          modify-some ref (λ j. record j { sessions = [] }) w i at,
          fatal_emissions_lem ajv g w.sockets i text,
        )
        refl

  -- A fatal error goes to each connected session once, the sessions are let go, and the instance
  -- begins its teardown, if none is under way.
  pub broadcast_fatal_error-reports :
      (text : Text)
      → i.shutdown_result ≡ idle
      → let w' = broadcast_fatal_error ajv g text ref w in
        (w'.outbox ≡ w.outbox ++ reports ajv g i w text)
        × (get ref w'.heap
            ≡ some (
                closing_instance
                  (queue_end ref (record i { sessions = [] }) (reported text))
                  (record i { sessions = [] })))
  broadcast_fatal_error-reports text fresh =
      let at' = get-set_self ref (record i { sessions = [] }) w.heap in
      rw (broadcast_fatal_error-some text) (
        shutdown-outbox ref (reported text),
        rw (shutdown-idle ref (record i { sessions = [] }) (reported text) at' fresh)
            (get-teardown_begin ref (record i { sessions = [] }) (reported text) at'),
      )

  close-flagged :
      (e : Text)
      → i.flagged_for_termination ≡ true
      → handle_process_close ajv g e ref w ≡ shutdown ref w
  unfolding handle_process_close
  close-flagged e f = rw (at, handle_process_close, f)

  close-unflagged :
      (e : Text)
      → i.flagged_for_termination ≡ false
      → handle_process_close ajv g e ref w
        ≡ broadcast_fatal_error ajv g (close_message ajv g e) ref w
  unfolding handle_process_close
  close-unflagged e f =
      rw (at, handle_process_close, f, broadcast_fatal_error-some (close_message ajv g e))
        (shutdown_single_flight ref (reported (close_message ajv g e)))

  -- When the process ends, the connected sessions are told so exactly if the instance is not flagged
  -- for termination.
  pub handle_process_close-outbox :
      (e : Text)
      → (handle_process_close ajv g e ref w).outbox ≡ (
          if i.flagged_for_termination
          then w.outbox
          else w.outbox ++ reports ajv g i w (close_message ajv g e))
  handle_process_close-outbox e = elim (Bool-cases i.flagged_for_termination) [
    | inl f ↦
        rw (close-flagged e f) (shutdown-outbox ref w ∙ if_true _ _ i.flagged_for_termination f)
    | inr f ↦
        rw (close-unflagged e f, broadcast_fatal_error-some (close_message ajv g e))
          (shutdown-outbox ref (reported (close_message ajv g e))
            ∙ if_false _ _ i.flagged_for_termination f)
  ]

module _ (timeout_ms now ref : ℕ) (i : Instance) (w : World) (at : get ref w.heap ≡ some i) where
  tick-hung :
      is_hung timeout_ms now i ≡ true
      → heartbeat_tick timeout_ms now ref w
        ≡ shutdown ref (
            modify ref
              (λ j. record j { heartbeat_failure_handled = true; flagged_for_termination = true })
              w)
  unfolding heartbeat_tick
  tick-hung hung = rw (at, heartbeat_tick, hung)

  tick-flagged : i.flagged_for_termination ≡ true → heartbeat_tick timeout_ms now ref w ≡ w
  unfolding heartbeat_tick
  tick-flagged f = rw (at, heartbeat_tick, f)

-- A monitor acts once at most: behind its failure no tick does anything.
heartbeat_tick_once :
    (timeout_ms now later ref : ℕ) (i : Instance) (w : World)
    → get ref w.heap ≡ some i
    → is_hung timeout_ms now i ≡ true
    → heartbeat_tick timeout_ms later ref (heartbeat_tick timeout_ms now ref w)
      ≡ heartbeat_tick timeout_ms now ref w
heartbeat_tick_once timeout_ms now later ref i w at hung =
    let i' = record i { heartbeat_failure_handled = true; flagged_for_termination = true } in
    let w' = record w { heap = set ref i' w.heap } in
    let at' = get-set_self ref i' w.heap in
    let once : heartbeat_tick timeout_ms now ref w ≡ shutdown ref w' =
      rw (tick-hung timeout_ms now ref i w at hung)
        (ap (shutdown ref) (modify-some ref _ w i at)) in
    rw once (elim (Shutdown-cases i.shutdown_result) [
      | inl fresh ↦ rw (shutdown-idle ref i' w' at' fresh) (
          tick-flagged timeout_ms later ref (closing_instance (queue_end ref i' w') i')
            (teardown_begin ref i' w') (get-teardown_begin ref i' w' at') refl)
      | inr busy ↦
          rw (shutdown-busy ref i' w' at' busy) (tick-flagged timeout_ms later ref i' w' at' refl)
    ])
