-- ===== src/PlatformInstance/Delivery.antt =====
-- What a message looks like when it leaves the server, and to whom it goes.
use sockethub.Base.{
  ◌≡◌, refl, ◌≢◌, true, false, ◌&&◌, not, List, [], ◌∷◌, ◌++◌, none, arith, Text, text_eq, ◌==◌,
  ne_of_beq, map, ◌∙◌, if◌then◌else◌, or_else, All, Bool-cases, inl, inr, text_beq,
}
use sockethub.Base.Group.{member}
use sockethub.Context.{
  Activity, ContextRegistry, build_canonical_context, internal_platform_context_url,
}
use sockethub.Validator.{Ajv}
use sockethub.World.{Instance, Emission, emit, call}
use sockethub.PlatformInstance.{
  to_external_payload, prepare, send_to_client, send_to_each, broadcast_to_shared_peers, is_dropped,
  others, fatal_emissions, fatal_error,
}

-- Internal fields are gone, and the context is the instance's canonical one.
pub record IsExternal (i : Instance) (msg : Activity) : Type 0 where
  pub no_secret : msg.session_secret ≡ none
  pub no_old_context : msg.old_context ≡ none
  pub canonical :
      msg.context ≡ build_canonical_context (or_else i.context_url internal_platform_context_url)

pub to_external_payload-IsExternal :
    (i : Instance) (msg : Activity) → IsExternal i (to_external_payload i msg)
unfolding to_external_payload
to_external_payload-IsExternal i msg = record {
  no_secret = refl;
  no_old_context = refl;
  canonical = refl;
}

pub prepare-IsExternal : (i : Instance) (msg : Activity) → IsExternal i (prepare i msg)
unfolding prepare
prepare-IsExternal i msg = ground arith

-- Preparing a message a second time, for the next session, changes nothing.
pub prepare_idem : (i : Instance) (msg : Activity) → prepare i (prepare i msg) ≡ prepare i msg
unfolding prepare
prepare_idem i msg = ground arith

-- A message goes to a session with the property, whose socket is connected, and is external.
abbrev pub Delivers : (Text → Type 0) → Instance → List Text → Emission → Type 0
Delivers P i sockets (emit sid msg) = P sid × (member sid sockets ≡ true) × IsExternal i msg
Delivers P i sockets (call handler msg) = ⊥

module _ (ajv : Ajv) (g : ContextRegistry) (sockets : List Text) (i : Instance) where
  abbrev pub emissions_of : Text → Activity → List Emission
  emissions_of sid msg = (send_to_client ajv g sockets i sid msg).1

  -- The specification of a broadcast: each connected session gets the prepared message, in order,
  -- unless it is malformed.
  abbrev pub broadcast_spec : List Text → Activity → List Emission
  broadcast_spec [] msg = []
  broadcast_spec (sid ∷ sids) msg =
      if member sid sockets && not (is_dropped ajv g sockets i (prepare i msg))
      then emit sid (prepare i msg) ∷ broadcast_spec sids msg
      else broadcast_spec sids msg

  broadcast_spec-prepare :
      (sids : List Text) (msg : Activity)
      → broadcast_spec sids (prepare i msg) ≡ broadcast_spec sids msg
  broadcast_spec-prepare [] msg = refl
  broadcast_spec-prepare (sid ∷ sids) msg = rw (prepare_idem i msg, broadcast_spec-prepare sids msg)

  pub send_to_each_lem :
      (sids : List Text) (msg : Activity)
      → send_to_each ajv g sockets i sids msg ≡ broadcast_spec sids msg
  unfolding send_to_each
  send_to_each_lem [] msg = refl
  send_to_each_lem (sid ∷ sids) msg = ground (
    arith,
    send_to_each_lem sids msg,
    send_to_each_lem sids (prepare i msg),
    broadcast_spec-prepare sids msg,
  )

All-emissions-append :
    (P : Emission → Type 0) (xs ys : List Emission) → All P xs → All P ys → All P (xs ++ ys)
All-emissions-append P [] ys hx hy = hy
All-emissions-append P (x ∷ xs) ys hx hy = (hx.0, All-emissions-append P xs ys hx.1 hy)

-- What must hold of everything that leaves: the session's secret and the legacy field are gone.
abbrev pub Clean : Emission → Type 0
Clean (emit sid msg) = (msg.session_secret ≡ none) × (msg.old_context ≡ none)
Clean (call handler msg) = (msg.session_secret ≡ none) × (msg.old_context ≡ none)

module _ (ajv : Ajv) (g : ContextRegistry) (sockets : List Text) (i : Instance) where
  pub broadcast_spec-Delivers :
      (P : Text → Type 0) (sids : List Text) (msg : Activity)
      → All P sids
      → All (Delivers P i sockets) (broadcast_spec ajv g sockets i sids msg)
  broadcast_spec-Delivers P [] msg h = tt
  broadcast_spec-Delivers P (sid ∷ sids) msg h = elim (Bool-cases (member sid sockets)) [
    | inl connected ↦ elim (Bool-cases (is_dropped ajv g sockets i (prepare i msg))) [
      | inl dropped ↦ rw (connected, dropped) (broadcast_spec-Delivers P sids msg h.1)
      | inr kept ↦
          rw (connected, kept)
            ((h.0, connected, prepare-IsExternal i msg), broadcast_spec-Delivers P sids msg h.1)
    ]
    | inr away ↦ rw away (broadcast_spec-Delivers P sids msg h.1)
  ]

  others-ne :
      (session : Text) (sids : List Text)
      → All (λ s. s ≢ session) (others ajv g sockets i session sids)
  others-ne session [] = tt
  others-ne session (sid ∷ sids) = elim (Bool-cases (sid == session)) [
    | inl same ↦ rw same (others-ne session sids)
    | inr other ↦ rw other (ne_of_beq sid session other, others-ne session sids)
  ]

  -- Peers get the message in external form, and the session that asked does not get it again.
  pub broadcast_to_shared_peers-Delivers :
      (session : Text) (msg : Activity)
      → All
          (Delivers (λ s. s ≢ session) i sockets)
          (broadcast_to_shared_peers ajv g sockets i session msg)
  unfolding broadcast_to_shared_peers
  broadcast_to_shared_peers-Delivers session msg =
      rw (send_to_each_lem ajv g sockets i (others ajv g sockets i session i.sessions) msg) (
        broadcast_spec-Delivers (λ s. s ≢ session) (others ajv g sockets i session i.sessions) msg
          (others-ne session i.sessions))

  pub send_to_each-Clean :
      (sids : List Text) (msg : Activity) → All Clean (send_to_each ajv g sockets i sids msg)
  send_to_each-Clean sids msg =
      rw (send_to_each_lem ajv g sockets i sids msg) (broadcast_spec-Clean sids msg)
    where
      broadcast_spec-Clean :
          (sids : List Text) (msg : Activity) → All Clean (broadcast_spec ajv g sockets i sids msg)
      broadcast_spec-Clean [] msg = tt
      broadcast_spec-Clean (sid ∷ sids) msg =
          let x = prepare-IsExternal i msg in
          ground (arith, broadcast_spec-Clean sids msg, x.no_secret, x.no_old_context)

  -- A fatal error is exempt from validation: each connected session gets it.
  fatal_not_dropped :
      (message : Text)
      → is_dropped ajv g sockets i (prepare i (fatal_error ajv g sockets i message)) ≡ false
  unfolding prepare text_beq
  fatal_not_dropped message = refl

  abbrev pub connected_only : List Text → List Text
  connected_only [] = []
  connected_only (sid ∷ sids) =
      if member sid sockets then sid ∷ connected_only sids else connected_only sids

  pub fatal_emissions_lem :
      (message : Text)
      → fatal_emissions ajv g sockets i message
        ≡ map
            (λ sid. emit sid (prepare i (fatal_error ajv g sockets i message)))
            (connected_only i.sessions)
  unfolding fatal_emissions
  fatal_emissions_lem message = send_to_each_lem ajv g sockets i i.sessions _ ∙ each i.sessions
    where
      each :
          (sids : List Text)
          → broadcast_spec ajv g sockets i sids (fatal_error ajv g sockets i message)
            ≡ map
                (λ sid. emit sid (prepare i (fatal_error ajv g sockets i message)))
                (connected_only sids)
      each [] = refl
      each (sid ∷ sids) = ground (arith, each sids, fatal_not_dropped message)
