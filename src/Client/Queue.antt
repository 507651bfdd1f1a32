-- ===== src/Client/Queue.antt =====
-- packages/client/src/sockethub-client.ts: what the operations of a client do to its queue, and how
-- many emissions of the application they answer.
use sockethub.Base.{
  ℕ, suc, ◌+◌, ◌≡◌, refl, List, [], ◌∷◌, ◌++◌, Option, none, some, arith, Text, text_eq, ◌==◌,
  length, ◌⊎◌, inl, inr, ◌∙◌, sym, ap, if_both, ltb, ◌-◌, codes,
}
use sockethub.Base.Table.{Table}
use mathlib.Core.List.{append-nil, append_assoc}
use sockethub.Identity.{truthy}
use sockethub.Stream.{Stream, normalize_activity_stream}
use sockethub.Client.{
  Client, Content, stream, QueuedOutboundEvent, Effect, sent, replayed, failed, client_error,
  EventMapping, emit, emit_all, emit_client_error,
}
use sockethub.Client.Outbound.{
  Library, transmit, finish_send, send_activity, send_outbound, prepared, flush_entry,
  flush_entries, replay, event_credentials, event_message, validation_error, store_with, key_of,
  store_credentials, store_message, transmit_unless, is_credentials,
}

-- An emission is answered when it is sent, or when its error is reported.
abbrev pub answer : Effect → ℕ
answer (sent event content callback) = 1
answer (failed callback message) = 1
answer (client_error event message) = 1
answer _ = 0

unfoldable pub answers : List Effect → ℕ
answers [] = 0
answers (e ∷ es) = answer e + answers es

pub answers-append : (es fs : List Effect) → answers (es ++ fs) ≡ answers es + answers fs
unfolding answers
answers-append [] fs = omega arith
answers-append (e ∷ es) fs = omega (arith, answers-append es fs)

pub answers-snoc : (es : List Effect) (e : Effect) → answers (es ++ e ∷ []) ≡ answer e + answers es
unfolding answers
answers-snoc es e = omega (arith, answers-append es (e ∷ []))

-- What has left stays, and more may leave.
abbrev pub Grown : List Effect → List Effect → Type 0
Grown before later = (es : List Effect) × (later ≡ before ++ es)

pub Grown-refl : (es : List Effect) → Grown es es
Grown-refl es = ([], sym (append-nil es))

pub Grown-trans : (a b c : List Effect) → Grown a b → Grown b c → Grown a c
Grown-trans a b c h k = (h.0 ++ k.0, k.1 ∙ ap (λ l. l ++ k.0) h.1 ∙ append_assoc a h.0 k.0)

-- `n` emissions are answered, and neither the queue nor the state of the initialization changes.
pub record Answers (n : ℕ) (c d : Client) : Type 0 where
  pub queue : d.outbound_queue ≡ c.outbound_queue
  pub sequence : d.outbound_sequence ≡ c.outbound_sequence
  pub options : d.options ≡ c.options
  pub state : d.init_state ≡ c.init_state
  pub count : answers d.log ≡ n + answers c.log
  pub grown : Grown c.log d.log

pub Answers-refl : (c : Client) → Answers 0 c c
Answers-refl c = record {
  queue = refl;
  sequence = refl;
  options = refl;
  state = refl;
  count = omega arith;
  grown = Grown-refl c.log;
}

pub Answers-trans : (m n : ℕ) (b c d : Client) → Answers m b c → Answers n c d → Answers (m + n) b d
Answers-trans m n b c d h k = record {
  queue = k.queue ∙ h.queue;
  sequence = k.sequence ∙ h.sequence;
  options = k.options ∙ h.options;
  state = k.state ∙ h.state;
  count = omega (arith, h.count, k.count);
  grown = Grown-trans b.log c.log d.log h.grown k.grown;
}

-- One more.
pub Answers-cons : (n : ℕ) (b c d : Client) → Answers 1 b c → Answers n c d → Answers (suc n) b d
Answers-cons n b c d h k = record {
  queue = k.queue ∙ h.queue;
  sequence = k.sequence ∙ h.sequence;
  options = k.options ∙ h.options;
  state = k.state ∙ h.state;
  count = omega (arith, h.count, k.count);
  grown = Grown-trans b.log c.log d.log h.grown k.grown;
}

pub emit-Answers : (e : Effect) (c : Client) → Answers (answer e) c (emit e c)
unfolding emit
emit-Answers e c = record {
  queue = refl;
  sequence = refl;
  options = refl;
  state = refl;
  count = answers-snoc c.log e;
  grown = (e ∷ [], refl);
}

pub emit_client_error-Answers :
    (event : Text) (callback : Option ℕ) (message : Text) (c : Client)
    → Answers 1 c (emit_client_error event callback message c)
unfolding emit_client_error
emit_client_error-Answers event none text c = emit-Answers (client_error event text) c
emit_client_error-Answers event (some callback) text c = emit-Answers (failed callback text) c

-- What holds of a result unless it is an error.
abbrev pub Right : (Client → Type 0) → Text ⊎ Client → Type 0
Right P (inl error) = Unit
Right P (inr d) = P d

-- Remembering a stream for a replay answers nothing.
store-Answers :
    (store : Text → Stream → EventMapping → EventMapping) (s : Stream) (c : Client)
    (key : Text ⊎ Text)
    → Right (Answers 0 c) (store_with store s c key)
store-Answers store s c (inl error) = tt
store-Answers store s c (inr key) = record {
  queue = refl;
  sequence = refl;
  options = refl;
  state = refl;
  count = omega arith;
  grown = Grown-refl c.log;
}

module _ (lib : Library) where
  transmit_unless-Answers :
      (o : Option Text) (e : QueuedOutboundEvent) (outgoing : Content) (c : Client)
      → Answers 1 c (transmit_unless lib o e outgoing c)
  transmit_unless-Answers none e outgoing c = emit-Answers (sent e.event outgoing e.callback) c
  transmit_unless-Answers (some text) e outgoing c =
      emit_client_error-Answers e.event e.callback text c

  transmit-Answers :
      (e : QueuedOutboundEvent) (outgoing : Content) (c : Client)
      → Answers 1 c (transmit lib e outgoing c)
  unfolding transmit
  transmit-Answers e outgoing c = transmit_unless-Answers (lib.reserved e.event) e outgoing c

  event_credentials-Answers :
      (s : Stream) (c : Client) → Right (Answers 0 c) (event_credentials lib s c)
  unfolding event_credentials
  event_credentials-Answers s c =
      if_both (Right (Answers 0 c)) (is_credentials s.content)
        (store-Answers store_credentials s c (key_of lib s c)) (Answers-refl c)

  event_message-Answers : (s : Stream) (c : Client) → Right (Answers 0 c) (event_message lib s c)
  unfolding event_message
  event_message-Answers s c =
      if_both (Right (Answers 0 c)) c.transport_connected
        (store-Answers store_message s c (key_of lib s c)) (Answers-refl c)

  finish_send-Answers :
      (e : QueuedOutboundEvent) (s : Stream) (c : Client) (r : Text ⊎ Client)
      → Right (Answers 0 c) r
      → Answers 1 c (finish_send lib e s c r)
  finish_send-Answers e s c (inl error) h = emit_client_error-Answers e.event e.callback error c
  finish_send-Answers e s c (inr d) h =
      Answers-trans 0 1 c d (transmit lib e (stream s) d) h (transmit-Answers e (stream s) d)

  send_activity-Answers :
      (e : QueuedOutboundEvent) (s : Stream) (c : Client) → Answers 1 c (send_activity lib e s c)
  unfolding send_activity
  send_activity-Answers e s c =
      if_both (Answers 1 c) (truthy (validation_error lib s c))
        (emit_client_error-Answers e.event e.callback _ c)
        (finish_send-Answers e s c _ (
          if_both (Right (Answers 0 c)) (e.event == codes "credentials")
            (event_credentials-Answers s c) (event_message-Answers s c)))

  -- Whatever is sent out is answered once: it goes to the server, or its error is reported.
  pub send_outbound-Answers :
      (e : QueuedOutboundEvent) (c : Client) → Answers 1 c (send_outbound lib e c)
  unfolding send_outbound
  send_outbound-Answers e c =
      if_both (Answers 1 c) _ (send_activity-Answers e (prepared e.event e.content) c)
        (transmit-Answers e e.content c)

  flush_entry-Answers :
      (now : ℕ) (e : QueuedOutboundEvent) (c : Client) → Answers 1 c (flush_entry lib now e c)
  unfolding flush_entry
  flush_entry-Answers now e c =
      if_both (Answers 1 c) (ltb c.options.max_queued_age_ms (now - e.enqueued_at))
        (emit_client_error-Answers e.event e.callback _ c) (send_outbound-Answers e c)

  pub flush_entries-Answers :
      (now : ℕ) (es : List QueuedOutboundEvent) (c : Client)
      → Answers (length es) c (flush_entries lib now es c)
  unfolding flush_entries
  flush_entries-Answers now [] c = Answers-refl c
  flush_entries-Answers now (e ∷ es) c =
      Answers-cons (length es) c (flush_entry lib now e c) _ (flush_entry-Answers now e c)
        (flush_entries-Answers now es (flush_entry lib now e c))

pub replay-Answers :
    (name : Text) (stored : Table Text Stream) (c : Client) → Answers 0 c (replay name stored c)
unfolding replay
replay-Answers name [] c = Answers-refl c
replay-Answers name ((key, s) ∷ stored) c =
    let sent_one = replayed name (normalize_activity_stream s) in
    Answers-trans 0 0 c (emit sent_one c) _ (emit-Answers sent_one c)
      (replay-Answers name stored (emit sent_one c))

pub emit_all-Answers :
    (es : List Effect) (c : Client) → answers es ≡ 0 → Answers 0 c (emit_all es c)
unfolding emit_all
emit_all-Answers es c h = record {
  queue = refl;
  sequence = refl;
  options = refl;
  state = refl;
  count = omega (arith, answers-append c.log es, h);
  grown = (es, refl);
}
