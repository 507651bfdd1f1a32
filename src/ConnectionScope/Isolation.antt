-- ===== src/ConnectionScope/Isolation.antt =====
-- Who gets which session-derived scope.
use sockethub.Base.{
  ◌≡◌, ◌≢◌, true, false, List, Option, none, some, arith, Text, text_eq, ◌==◌, eq_refl, beq_of_ne,
  ◌∙◌,
}
use mathlib.Core.Bool.{and-false}
use sockethub.Base.Table.{get, get-set_self}
use sockethub.Base.Group.{member}
use sockethub.Identity.{truthy, normalize_ip, build_resumption_key}
use sockethub.ConnectionScope.{
  Scopes, ScopeRequest, AnonymousRecord, ResumptionRef, scoped, anonymous_scope, resumption_of,
  remember_anonymous_scope, recorded_scope, socket_is_live,
}

-- The reference under which a socket with this address records its scope.
abbrev pub ref_of : Text → Text → ScopeRequest → ResumptionRef
ref_of platform actor r =
    let ip = normalize_ip r.session_ip in
    record { key = build_resumption_key platform actor ip; ip = ip }

module _ (platform actor : Text) (r : ScopeRequest) where
  resumption-socket :
      (socket : Text)
      → r.socket_session_id ≡ some socket
      → truthy socket ≡ true
      → truthy (normalize_ip r.session_ip) ≡ true
      → resumption_of platform actor r ≡ some (ref_of platform actor r)
  resumption-socket socket e t i = rw (e, t, i)

  anonymous-socket :
      (live : Option (List Text)) (s : Scopes) (socket : Text)
      → r.socket_session_id ≡ some socket
      → truthy socket ≡ true
      → truthy (normalize_ip r.session_ip) ≡ true
      → anonymous_scope live platform actor r s
        ≡ recorded_scope live platform r
            (ref_of platform actor r)
            (get (ref_of platform actor r).key s.anonymous_scopes)
  unfolding anonymous_scope
  anonymous-socket live s socket e t i = rw (resumption-socket socket e t i)

  -- Anonymous credentials of an HTTP request get a scope of their own, that no other request can
  -- resume, whatever is recorded.
  anonymous-http :
      (live : Option (List Text)) (s : Scopes) (session : Text)
      → r.socket_session_id ≡ none
      → r.credential_session_id ≡ some session
      → truthy session ≡ true
      → anonymous_scope live platform actor r s
        ≡ scoped (record { scope = session; resumption = none })
  unfolding anonymous_scope
  anonymous-http live s session e c t = rw (e, and-false (truthy (normalize_ip r.session_ip)), c, t)

module _ (platform : Text) (live : Option (List Text)) (r : ScopeRequest) (socket : Text)
    (ref : ResumptionRef) (record_ : AnonymousRecord) (o : Option AnonymousRecord)
    (recorded : o ≡ some record_) (of_socket : r.socket_session_id ≡ some socket)
    (named : truthy socket ≡ true) where
  recorded-foreign :
      (record_.session_id == socket) ≡ false
      → socket_is_live live record_.session_id ≡ true
      → recorded_scope live platform r ref o
        ≡ scoped (record { scope = socket; resumption = some ref })
  unfolding recorded_scope
  recorded-foreign foreign l = rw (recorded, of_socket, foreign, l, named)

  recorded-own :
      (record_.session_id == socket) ≡ true
      → recorded_scope live platform r ref o
        ≡ scoped (record { scope = record_.scope; resumption = some ref })
  unfolding recorded_scope
  recorded-own own = rw (recorded, of_socket, own)

  recorded-gone :
      socket_is_live live record_.session_id ≡ false
      → recorded_scope live platform r ref o
        ≡ scoped (record { scope = record_.scope; resumption = some ref })
  unfolding recorded_scope
  recorded-gone gone = ground arith

module _ (live : Option (List Text)) (ref : ResumptionRef) (scope instance_id session : Text)
    (s : Scopes) (record_ : AnonymousRecord)
    (recorded : get ref.key s.anonymous_scopes ≡ some record_) where
  remember-foreign :
      (record_.session_id == session) ≡ false
      → socket_is_live live record_.session_id ≡ true
      → remember_anonymous_scope live ref scope instance_id session s ≡ s
  unfolding remember_anonymous_scope
  remember-foreign foreign l = ground arith

  remember-gone :
      truthy scope ≡ true
      → truthy session ≡ true
      → socket_is_live live record_.session_id ≡ false
      → get ref.key (remember_anonymous_scope live ref scope instance_id session s).anonymous_scopes
        ≡ some
            (record { scope = scope; instance_id = instance_id; session_id = session; ip = ref.ip })
  unfolding remember_anonymous_scope
  remember-gone sc se gone = ground (
    arith,
    get-set_self ref.key
        (record { scope = scope; instance_id = instance_id; session_id = session; ip = ref.ip })
        s.anonymous_scopes,
  )

module _ (sockets : List Text) (platform actor : Text) (r : ScopeRequest) (s : Scopes)
    (socket : Text) (record_ : AnonymousRecord) (of_socket : r.socket_session_id ≡ some socket)
    (named : truthy socket ≡ true) (addressed : truthy (normalize_ip r.session_ip) ≡ true)
    (recorded : get (ref_of platform actor r).key s.anonymous_scopes ≡ some record_) where
  -- While the holder of a recorded scope is connected, another socket with the same platform, actor
  -- and address gets a scope of its own, and cannot take the record over.
  pub live_holder_keeps :
      (scope instance_id : Text)
      → member record_.session_id sockets ≡ true
      → record_.session_id ≢ socket
      → (anonymous_scope (some sockets) platform actor r s
          ≡ scoped (record { scope = socket; resumption = some (ref_of platform actor r) }))
        × (remember_anonymous_scope
              (some sockets)
              (ref_of platform actor r)
              scope
              instance_id
              socket
              s
            ≡ s)
  unfolding anonymous_scope remember_anonymous_scope
  live_holder_keeps scope instance_id live other =
      let foreign = beq_of_ne record_.session_id socket other in
      (
        anonymous-socket platform actor r (some sockets) s socket of_socket named addressed
            ∙ recorded-foreign platform (some sockets) r socket (ref_of platform actor r) record_ _
                recorded of_socket named foreign live,
        remember-foreign (some sockets) (ref_of platform actor r) scope instance_id socket s record_
            recorded foreign live,
      )

  -- Once the holder is gone, a socket with the same platform, actor and address gets the recorded
  -- scope, as a refresh does, and keeps it from then on, while a third socket gets its own.
  pub reclaim_lem :
      (later : List Text) (r' : ScopeRequest) (instance_id socket' : Text)
      → truthy record_.scope ≡ true
      → member record_.session_id sockets ≡ false
      → r'.socket_session_id ≡ some socket'
      → truthy socket' ≡ true
      → normalize_ip r'.session_ip ≡ normalize_ip r.session_ip
      → member socket later ≡ true
      → socket ≢ socket'
      → let ref = ref_of platform actor r in
        let s' = remember_anonymous_scope (some sockets) ref record_.scope instance_id socket s in
        (anonymous_scope (some sockets) platform actor r s
          ≡ scoped (record { scope = record_.scope; resumption = some ref }))
        × (anonymous_scope (some later) platform actor r s'
            ≡ scoped (record { scope = record_.scope; resumption = some ref }))
        × (anonymous_scope (some later) platform actor r' s'
            ≡ scoped (record { scope = socket'; resumption = some ref }))
  reclaim_lem later r' instance_id socket' sc gone of_socket' named' same live other =
      let ref = ref_of platform actor r in
      let s' = remember_anonymous_scope (some sockets) ref record_.scope instance_id socket s in
      let kept =
        remember-gone (some sockets) ref record_.scope instance_id socket s record_ recorded sc
          named gone in
      (
        anonymous-socket platform actor r (some sockets) s socket of_socket named addressed
            ∙ recorded-gone platform (some sockets) r socket ref record_ _ recorded of_socket named
                gone,
        anonymous-socket platform actor r (some later) s' socket of_socket named addressed
            ∙ recorded-own platform (some later) r socket ref _ _ kept of_socket named
                (eq_refl socket),
        anonymous-socket platform actor r' (some later) s' socket' of_socket' named'
              (rw same addressed)
            ∙ rw same (
                recorded-foreign platform (some later) r' socket' ref _ _ kept of_socket' named'
                  (beq_of_ne socket socket' other) live),
      )
