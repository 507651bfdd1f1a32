-- ===== src/Client/Replays.antt =====
-- packages/client/src/sockethub-client.ts: what is remembered for a replay is, for each key, what the
-- last message about it says.
use sockethub.Base.{
  ◌≡◌, refl, true, false, List, [], ◌∷◌, Option, none, some, if◌then◌else◌, or_else, arith, Text,
  codes, text_eq, text_beq, ◌==◌, beq_of_ne, ne_of_beq, eq_of_beq, ◌⊎◌, inl, inr, ◌∙◌, sym, ap,
}
use sockethub.Base.Table.{get, get-set, get-delete}
use sockethub.Stream.{Stream}
use sockethub.Context.{ContextRegistry}
use sockethub.Validator.Schemas.{Schemas}
use sockethub.Client.{Client, EventMapping}
use sockethub.Client.Outbound.{
  Library, store_message, store_with, event_message, get_key, as_activity,
}

-- The specification: one message changes what is held for its key, and nothing else. `start` and
-- `stop` are the types of the messages that set and clear it.
abbrev pub heard : Text → Text → Text → Stream → Option Stream → Option Stream
heard start stop kind s held = if kind == start then some s else if kind == stop then none else held

abbrev pub told : Text → Text → Text → Text ⊎ Text → Stream → Option Stream → Option Stream
told start stop k (inl error) s held = held
told start stop k (inr key) s held =
    if key == k then heard start stop (or_else s.kind []) s held else held

-- A text is not two literals at once.
one_text : (t a b : Text) → (a == b) ≡ false → (t == a) ≡ true → (t == b) ≡ false
one_text t a b n h = beq_of_ne t b (λ e. ne_of_beq a b n (sym (eq_of_beq t a h) ∙ e))

module _ (k key : Text) (s : Stream) (m : EventMapping) where
  store_message-join :
      get k (store_message key s m).join
      ≡ told (codes "join") (codes "leave") k (inr key) s (get k m.join)
  unfolding store_message text_beq
  store_message-join = ground (
    arith,
    get-set key k s m.join,
    get-delete key k m.join,
    one_text (or_else s.kind []) (codes "connect") (codes "leave") refl,
  )

  store_message-connect :
      get k (store_message key s m).connect
      ≡ told (codes "connect") (codes "disconnect") k (inr key) s (get k m.connect)
  unfolding store_message text_beq
  store_message-connect = ground (
    arith,
    get-set key k s m.connect,
    get-delete key k m.connect,
    one_text (or_else s.kind []) (codes "join") (codes "connect") refl,
    one_text (or_else s.kind []) (codes "join") (codes "disconnect") refl,
    one_text (or_else s.kind []) (codes "leave") (codes "disconnect") refl,
  )

-- What is held after a list of messages, each under the key that it names.
unfoldable pub last_word :
    (Stream → Text ⊎ Text) → Text → Text → Text → List Stream → Option Stream → Option Stream
last_word name start stop k [] held = held
last_word name start stop k (s ∷ ss) held =
    last_word name start stop k ss (told start stop k (name s) s held)

-- A message without an actor has no key; its sender is told, and the client stays as it is.
abbrev pub after : Client → Text ⊎ Client → Client
after c (inl error) = c
after c (inr d) = d

module _ (lib : Library) where
  unfoldable pub messages : List Stream → Client → Client
  messages [] c = c
  messages (s ∷ ss) c = messages ss (after c (event_message lib s c))

  -- The key of a stream, where `g` is the state of the contexts.
  abbrev pub name_in : ContextRegistry → Stream → Text ⊎ Text
  name_in g s = get_key g (as_activity lib s) s

  event_message-connected :
      (s : Stream) (c : Client)
      → c.transport_connected ≡ true
      → event_message lib s c ≡ store_with store_message s c (name_in c.schemas.contexts s)
  unfolding event_message
  event_message-connected s c t = rw t

  module _ (k : Text) where
    heard_lem :
        (s : Stream) (c : Client) (key : Text ⊎ Text)
        → let d = after c (store_with store_message s c key) in
          (get k d.events.join ≡ told (codes "join") (codes "leave") k key s (get k c.events.join))
          × (get k d.events.connect
              ≡ told (codes "connect") (codes "disconnect") k key s (get k c.events.connect))
          × (d.transport_connected ≡ c.transport_connected)
          × (d.schemas ≡ c.schemas)
    heard_lem s c (inl error) = (refl, refl, refl, refl)
    heard_lem s c (inr key) =
        (store_message-join k key s c.events, store_message-connect k key s c.events, refl, refl)

    messages_lem :
        (g : ContextRegistry) (ss : List Stream) (c : Client)
        → c.schemas.contexts ≡ g
        → c.transport_connected ≡ true
        → (get k (messages ss c).events.join
            ≡ last_word (name_in g) (codes "join") (codes "leave") k ss (get k c.events.join))
          × (get k (messages ss c).events.connect
              ≡ last_word
                  (name_in g)
                  (codes "connect")
                  (codes "disconnect")
                  k
                  ss
                  (get k c.events.connect))
    unfolding messages last_word
    messages_lem g [] c q t = (refl, refl)
    messages_lem g (s ∷ ss) c q t =
        let d : Client = after c (store_with store_message s c (name_in g s)) in
        let (joins, connects, wire, same) = heard_lem s c (name_in g s) in
        let (later_joins, later_connects) =
          messages_lem g ss d (ap (λ (x : Schemas). x.contexts) same ∙ q) (wire ∙ t) in
        let e : event_message lib s c ≡ store_with store_message s c (name_in g s) =
          event_message-connected s c t ∙ ap (λ h. store_with store_message s c (name_in h s)) q in
        rw (messages, e)
          (
            later_joins ∙ ap (last_word (name_in g) (codes "join") (codes "leave") k ss) joins,
            later_connects
                ∙ ap (last_word (name_in g) (codes "connect") (codes "disconnect") k ss) connects,
          )

    -- Over any messages that a connected client sends, what it holds for a replay under a key refines
    -- a specification that reads the messages one by one: a join or a connect under that key is held
    -- until the next one, or until a leave or a disconnect under it clears it; other messages and
    -- other keys change nothing.
    pub messages-last_word :
        (ss : List Stream) (c : Client)
        → c.transport_connected ≡ true
        → (get k (messages ss c).events.join
            ≡ last_word
                (name_in c.schemas.contexts)
                (codes "join")
                (codes "leave")
                k
                ss
                (get k c.events.join))
          × (get k (messages ss c).events.connect
              ≡ last_word
                  (name_in c.schemas.contexts)
                  (codes "connect")
                  (codes "disconnect")
                  k
                  ss
                  (get k c.events.connect))
    messages-last_word ss c t = messages_lem c.schemas.contexts ss c refl t
