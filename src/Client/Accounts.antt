-- ===== src/Client/Accounts.antt =====
-- packages/client/src/sockethub-client.ts: the queue of a client is bounded, in the order of emission,
-- empty while the client is ready, and every emission is waiting or answered.
use sockethub.Base.{
  ℕ, suc, ◌+◌, ◌≤◌, ◌≡◌, refl, true, false, List, [], ◌∷◌, ◌++◌, Option, arith, Text, length,
  length-append, if_both, if_cases, leb, ◌∙◌, ap,
}
use sockethub.Client.{Client, Content, QueuedOutboundEvent, Effect, is_ready}
use sockethub.Client.Outbound.{
  Library, send_outbound, drop_oldest, enqueue_outbound, handle_public_emit, insert_by_sequence,
  sort_by_sequence, flush_entries, flush_outbound_queue,
}
use sockethub.Client.Queue.{
  answers, Answers, emit_client_error-Answers, send_outbound-Answers, flush_entries-Answers,
}

-- Sequence numbers that ascend from `lo`, all below `hi`.
abbrev pub Ascends : ℕ → List QueuedOutboundEvent → ℕ → Type 0
Ascends lo [] hi = lo ≤ hi
Ascends lo (e ∷ es) hi = (lo ≤ e.sequence) × Ascends (suc e.sequence) es hi

Ascends-snoc :
    (lo hi : ℕ) (es : List QueuedOutboundEvent) (e : QueuedOutboundEvent)
    → Ascends lo es hi
    → e.sequence ≡ hi
    → Ascends lo (es ++ e ∷ []) (suc hi)
Ascends-snoc lo hi [] e h q = ground (arith, h, q)
Ascends-snoc lo hi (f ∷ es) e h q = (h.0, Ascends-snoc (suc f.sequence) hi es e h.1 q)

Ascends-weaken :
    (lo lo' hi : ℕ) (es : List QueuedOutboundEvent)
    → lo' ≤ lo
    → Ascends lo es hi
    → Ascends lo' es hi
Ascends-weaken lo lo' hi [] l h = omega (arith, l, h)
Ascends-weaken lo lo' hi (e ∷ es) l h = (omega (arith, l, h.0), h.1)

Ascends-tail :
    (lo hi : ℕ) (e : QueuedOutboundEvent) (es : List QueuedOutboundEvent)
    → Ascends lo (e ∷ es) hi
    → Ascends lo es hi
Ascends-tail lo hi e es h = Ascends-weaken (suc e.sequence) lo hi es (omega (arith, h.0)) h.1

insert-least :
    (e : QueuedOutboundEvent) (es : List QueuedOutboundEvent) (hi : ℕ)
    → Ascends (suc e.sequence) es hi
    → insert_by_sequence e es ≡ e ∷ es
unfolding insert_by_sequence
insert-least e [] hi h = refl
insert-least e (f ∷ es) hi h = ground (arith, h.0)

-- A queue in the order of emission is sorted already.
pub sort-Ascends :
    (lo hi : ℕ) (es : List QueuedOutboundEvent) → Ascends lo es hi → sort_by_sequence es ≡ es
unfolding sort_by_sequence
sort-Ascends lo hi [] h = refl
sort-Ascends lo hi (e ∷ es) h =
    ap (insert_by_sequence e) (sort-Ascends (suc e.sequence) hi es h.1) ∙ insert-least e es hi h.1

-- With room for `max`, `n` emitted so far, and the effects so far.
pub record Counted (max n : ℕ) (queue : List QueuedOutboundEvent) (log : List Effect) : Type 0 where
  pub bounded : length queue ≤ max
  pub ordered : Ascends 0 queue n
  pub counted : answers log + length queue ≡ n

abbrev pub IsCounted : Client → Type 0
IsCounted c = Counted c.options.max_queued_outbound c.outbound_sequence c.outbound_queue c.log

-- Between two events of its life a client that is ready has nothing waiting.
pub record IsSound (c : Client) : Type 0 where
  pub counted : IsCounted c
  pub flushed : is_ready c ≡ true → c.outbound_queue ≡ []

-- After `n` answers to what is neither waiting nor answered.
answered-IsCounted :
    (n : ℕ) (c d : Client)
    → Answers n c d
    → length c.outbound_queue ≤ c.options.max_queued_outbound
    → Ascends 0 c.outbound_queue c.outbound_sequence
    → n + answers c.log + length c.outbound_queue ≡ c.outbound_sequence
    → IsCounted d
answered-IsCounted n c d a b o q = record {
  bounded = rw (a.queue, a.options) b;
  ordered = rw (a.queue, a.sequence) o;
  counted = rw (a.queue, a.sequence) (omega (arith, a.count, q));
}

pub Answers-IsCounted : (c d : Client) → Answers 0 c d → IsCounted c → IsCounted d
Answers-IsCounted c d a h =
    answered-IsCounted 0 c d a h.bounded h.ordered (omega (arith, h.counted))

pub Answers-IsSound : (c d : Client) → Answers 0 c d → IsSound c → IsSound d
Answers-IsSound c d a h = record {
  counted = Answers-IsCounted c d a h.counted;
  flushed = rw (a.state, a.queue) h.flushed;
}

Ascends-suc :
    (lo hi : ℕ) (es : List QueuedOutboundEvent) → Ascends lo es hi → Ascends lo es (suc hi)
Ascends-suc lo hi [] h = omega (arith, h)
Ascends-suc lo hi (e ∷ es) h = (h.0, Ascends-suc (suc e.sequence) hi es h.1)

drop_oldest-IsCounted :
    (queue : List QueuedOutboundEvent) (c : Client)
    → length queue ≤ suc c.options.max_queued_outbound
    → Ascends 0 queue c.outbound_sequence
    → answers c.log + length queue ≡ c.outbound_sequence
    → leb (length queue) c.options.max_queued_outbound ≡ false
    → IsCounted (drop_oldest queue c)
drop_oldest-IsCounted [] c b o q full = ground (arith, full)
drop_oldest-IsCounted (e ∷ es) c b o q full =
    answered-IsCounted 1 (record c { outbound_queue = es }) (drop_oldest (e ∷ es) c)
      (emit_client_error-Answers e.event e.callback _ (record c { outbound_queue = es }))
      (omega (arith, b)) (Ascends-tail 0 c.outbound_sequence e es o) (omega (arith, q))

enqueue_outbound-IsCounted :
    (e : QueuedOutboundEvent) (c : Client)
    → Counted c.options.max_queued_outbound e.sequence c.outbound_queue c.log
    → c.outbound_sequence ≡ suc e.sequence
    → IsCounted (enqueue_outbound e c)
unfolding enqueue_outbound
enqueue_outbound-IsCounted e c h s =
    let queue : List QueuedOutboundEvent = c.outbound_queue ++ e ∷ [] in
    let long = length-append c.outbound_queue (e ∷ []) in
    let order : Ascends 0 queue c.outbound_sequence =
      rw s (Ascends-snoc 0 e.sequence c.outbound_queue e h.ordered refl) in
    let total : answers c.log + length queue ≡ c.outbound_sequence =
      omega (arith, h.counted, long, s) in
    if_cases IsCounted (leb (length queue) c.options.max_queued_outbound)
      (λ room. record { bounded = ground (arith, room); ordered = order; counted = total })
      (drop_oldest-IsCounted queue (record c { outbound_queue = queue })
        (omega (arith, h.bounded, long)) order total)

drop_oldest-state :
    (queue : List QueuedOutboundEvent) (c : Client)
    → (drop_oldest queue c).init_state ≡ c.init_state
drop_oldest-state [] c = refl
drop_oldest-state (e ∷ es) c =
    (emit_client_error-Answers e.event e.callback _ (record c { outbound_queue = es })).state

enqueue_outbound-state :
    (e : QueuedOutboundEvent) (c : Client) → (enqueue_outbound e c).init_state ≡ c.init_state
unfolding enqueue_outbound
enqueue_outbound-state e c =
    let queue : List QueuedOutboundEvent = c.outbound_queue ++ e ∷ [] in
    if_both (λ (d : Client). d.init_state ≡ c.init_state)
      (leb (length queue) c.options.max_queued_outbound) refl
      (drop_oldest-state queue (record c { outbound_queue = queue }))

module _ (lib : Library) where
  pub handle_public_emit-IsCounted :
      (event : Text) (content : Content) (callback : Option ℕ) (now : ℕ) (c : Client)
      → IsCounted c
      → IsCounted (handle_public_emit lib event content callback now c)
  unfolding handle_public_emit
  handle_public_emit-IsCounted event content callback now c h =
      let e : QueuedOutboundEvent = record {
        event = event;
        content = content;
        callback = callback;
        enqueued_at = now;
        sequence = c.outbound_sequence;
      } in
      let c' : Client = record c { outbound_sequence = suc c.outbound_sequence } in
      if_both IsCounted (is_ready c)
        (answered-IsCounted 1 c' (send_outbound lib e c') (send_outbound-Answers lib e c') h.bounded
          (Ascends-suc 0 c.outbound_sequence c.outbound_queue h.ordered) (omega (arith, h.counted)))
        (enqueue_outbound-IsCounted e c' h refl)

  -- A client that is ready sends at once.
  pub handle_public_emit-ready :
      (event : Text) (content : Content) (callback : Option ℕ) (now : ℕ) (c : Client)
      → is_ready c ≡ true
      → let d = handle_public_emit lib event content callback now c in
        (d.outbound_queue ≡ c.outbound_queue) × (d.init_state ≡ c.init_state)
  unfolding handle_public_emit
  handle_public_emit-ready event content callback now c r =
      let e : QueuedOutboundEvent = record {
        event = event;
        content = content;
        callback = callback;
        enqueued_at = now;
        sequence = c.outbound_sequence;
      } in
      let c' : Client = record c { outbound_sequence = suc c.outbound_sequence } in
      let a = send_outbound-Answers lib e c' in rw r (a.queue, a.state)

  pub handle_public_emit-state :
      (event : Text) (content : Content) (callback : Option ℕ) (now : ℕ) (c : Client)
      → (handle_public_emit lib event content callback now c).init_state ≡ c.init_state
  unfolding handle_public_emit
  handle_public_emit-state event content callback now c =
      let e : QueuedOutboundEvent = record {
        event = event;
        content = content;
        callback = callback;
        enqueued_at = now;
        sequence = c.outbound_sequence;
      } in
      let c' : Client = record c { outbound_sequence = suc c.outbound_sequence } in
      if_both (λ (d : Client). d.init_state ≡ c.init_state) (is_ready c)
        (send_outbound-Answers lib e c').state (enqueue_outbound-state e c')

  pub flush_outbound_queue-IsSound :
      (now : ℕ) (c : Client)
      → is_ready c ≡ true
      → IsCounted c
      → IsSound (flush_outbound_queue lib now c)
  unfolding flush_outbound_queue
  flush_outbound_queue-IsSound now c r h =
      let b : Client = record c { outbound_queue = [] } in
      let a = flush_entries-Answers lib now c.outbound_queue b in
      rw (r, sort-Ascends 0 c.outbound_sequence c.outbound_queue h.ordered)
        (record {
          counted =
              answered-IsCounted (length c.outbound_queue) b
                (flush_entries lib now c.outbound_queue b) a (omega arith) (omega arith)
                (omega (arith, h.counted));
          flushed = λ _. a.queue;
        })
