-- ===== src/Client/Order.antt =====
-- packages/client/src/sockethub-client.ts: in which order a client that becomes ready sends.
use mathlib.Core.List.{append_assoc, append-nil}
use sockethub.Base.{
  ℕ, ◌≡◌, refl, sym, ap, ◌∙◌, true, List, [], ◌∷◌, ◌++◌, some, arith, Text, codes, length, map,
}
use sockethub.Base.Table.{Table}
use sockethub.Stream.{Stream, normalize_activity_stream}
use sockethub.Client.{
  Client, Effect, replayed, resolved, on_ready, in_ready, is_ready, emit, emit_all, ClientReadyInfo,
  ReadyReason, clear_init_timers,
}
use sockethub.Client.Registry.{build_ready_info}
use sockethub.Client.Outbound.{Library, replay, flush_entries, flush_outbound_queue}
use sockethub.Client.Init.{
  Emission, ready_begin, emissions, resolve_ready_waiters, replay_all, ready_end, replays,
  mark_ready,
}
use sockethub.Client.Queue.{
  answers, answers-append, flush_entries-Answers, Answers-trans, emit-Answers,
}
use sockethub.Client.Steps.{
  resolve_ready_waiters-Answers, replay_all-Answers, emissions-IsCounted, emissions-ready,
}
use sockethub.Client.Accounts.{IsCounted, sort-Ascends, Answers-IsCounted}

-- What a replay of stored streams sends.
abbrev pub replays_of : Text → Table Text Stream → List Effect
replays_of name stored = map (λ row. replayed name (normalize_activity_stream row.1)) stored

replay_lem :
    (name : Text) (stored : Table Text Stream) (c : Client)
    → replay name stored c ≡ emit_all (replays_of name stored) c
unfolding replay emit emit_all
replay_lem name [] c = ap (λ l. record c { log = l }) (sym (append-nil c.log))
replay_lem name ((key, s) ∷ stored) c =
    let first = replayed name (normalize_activity_stream s) in
    replay_lem name stored (emit first c)
    ∙ ap (λ l. record c { log = l }) (append_assoc c.log (first ∷ []) (replays_of name stored))

-- Everything that is replayed: the credentials, then the connections, then the joins.
abbrev pub stored_effects : Client → List Effect
stored_effects c =
    replays_of (codes "credentials") c.events.credentials
    ++ (replays_of (codes "message") c.events.connect ++ replays_of (codes "message") c.events.join)

replay_all_lem : (c : Client) → replay_all c ≡ emit_all (stored_effects c) c
unfolding replay_all emit_all
replay_all_lem c =
    let a = replays_of (codes "credentials") c.events.credentials in
    let b = replays_of (codes "message") c.events.connect in
    let j = replays_of (codes "message") c.events.join in
    rw
      (
        replay_lem (codes "credentials") c.events.credentials c,
        replay_lem (codes "message") c.events.connect (emit_all a c),
        replay_lem (codes "message") c.events.join (emit_all b (emit_all a c)),
      )
      (ap (λ l. record c { log = l })
        (append_assoc (c.log ++ a) b j ∙ append_assoc c.log a (b ++ j)))

-- A client whose accounts are in order flushes its queue in the order in which the application emitted:
-- the sort changes nothing.
flush_outbound_queue-in_order :
    (lib : Library) (now : ℕ) (c : Client)
    → IsCounted c
    → is_ready c ≡ true
    → flush_outbound_queue lib now c
      ≡ flush_entries lib now c.outbound_queue (record c { outbound_queue = [] })
unfolding flush_outbound_queue
flush_outbound_queue-in_order lib now c h r =
    rw (r, sort-Ascends 0 c.outbound_sequence c.outbound_queue h.ordered)

module _ (lib : Library) (now : ℕ) where
  flush_lem :
      (c : Client)
      → IsCounted c
      → is_ready c ≡ true
      → (rest : List Effect) × ((flush_outbound_queue lib now c).log ≡ c.log ++ rest)
        × (answers rest ≡ length c.outbound_queue)
  flush_lem c h r =
      let b : Client = record c { outbound_queue = [] } in
      let a = flush_entries-Answers lib now c.outbound_queue b in
      rw (flush_outbound_queue-in_order lib now c h r) (
        a.grown.0,
        a.grown.1,
        omega (arith, a.count, ap answers a.grown.1, answers-append c.log a.grown.0),
      )

  ready_end_lem :
      (info : ClientReadyInfo) (c : Client)
      → IsCounted c
      → is_ready c ≡ true
      → (rest : List Effect) × ((ready_end lib info true now c).log
          ≡ c.log
            ++ (map (λ w. resolved w.promise info) c.ready_waiters ++ (stored_effects c ++ rest)))
        × (answers rest ≡ length c.outbound_queue)
  unfolding ready_end resolve_ready_waiters emit_all
  ready_end_lem info c h r =
      let ws = map (λ w. resolved w.promise info) c.ready_waiters in
      let b : Client = record c { latest_ready_info = some info } in
      let c' = resolve_ready_waiters info b in
      let d = replay_all c' in
      let a =
        Answers-trans 0 0 b c' d (resolve_ready_waiters-Answers info b)
          (replay_all-Answers lib c') in
      let (rest, grown, all) = flush_lem d (Answers-IsCounted b d a h) (ap in_ready a.state ∙ r) in
      let log : d.log ≡ (c.log ++ ws) ++ stored_effects c =
        ap (λ (x : Client). x.log) (replay_all_lem c') in
      (
        rest,
        grown
            ∙ ap (λ l. l ++ rest) log
            ∙ append_assoc (c.log ++ ws) (stored_effects c) rest
            ∙ append_assoc c.log ws (stored_effects c ++ rest),
        all ∙ ap length a.queue,
      )

  -- A client whose accounts are in order and that becomes ready in a cycle with replay: what the
  -- application's handlers of the event emit goes out first; then the promises of `ready` are resolved;
  -- then the stored credentials, connections and joins are replayed; then each waiting emission is
  -- answered.
  pub mark_ready-order :
      (reason : ReadyReason) (reactions : List Emission) (c : Client) (info : ClientReadyInfo)
      → IsCounted c
      → replays c.init_cycle ≡ true
      → build_ready_info reason (ready_begin c) ≡ some info
      → let b = emissions lib reactions (emit (on_ready info) (ready_begin c)) in
        (rest : List Effect) × ((mark_ready lib reason reactions now c).log
          ≡ b.log
            ++ (map (λ w. resolved w.promise info) b.ready_waiters ++ (stored_effects b ++ rest)))
        × (answers rest ≡ length b.outbound_queue)
  unfolding mark_ready
  mark_ready-order reason reactions c info h y e =
      let a = emit-Answers (on_ready info) (ready_begin c) in
      let b0 = emit (on_ready info) (ready_begin c) in
      let b = emissions lib reactions b0 in
      rw (e, y)
        (ready_end_lem info b
          (emissions-IsCounted lib reactions b0
            (Answers-IsCounted (ready_begin c) b0 a (unfold ready_begin clear_init_timers in h)))
          (emissions-ready lib reactions b0 (ap in_ready a.state ∙ (unfold ready_begin in refl))))
