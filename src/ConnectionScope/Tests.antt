-- ===== src/ConnectionScope/Tests.antt =====
-- Connections on which the theorems apply.
use sockethub.Base.{◌≡◌, refl, [], ◌∷◌, none, some, Text, codes, text_beq, text_eq, ne_of_beq}
use sockethub.Base.Table.{get, set, get-set_self}
use sockethub.Base.Group.{member}
use sockethub.Identity.{normalize_ip}
use sockethub.ConnectionScope.{
  Scopes, ScopeRequest, AnonymousRecord, ResumptionRef, CredentialObject, scoped, empty_scopes,
  anonymous_scope, remember_anonymous_scope, FieldValue,
}
use sockethub.ConnectionScope.Isolation.{ref_of, live_holder_keeps}

abbrev irc : Text
irc = codes "irc"

abbrev jim : Text
jim = codes "jim"

-- A socket, its address, and the number of a digest.
abbrev from_socket : Text → ScopeRequest
from_socket socket = record {
  credential_session_id = some socket;
  socket_session_id = some socket;
  session_ip = some (codes "::1");
}

abbrev from_http : ScopeRequest
from_http = record {
  credential_session_id = some (codes "http:1");
  socket_session_id = none;
  session_ip = some (codes "::1");
}

abbrev with_password : CredentialObject
with_password = (codes "password", FieldValue.text (codes "x")) ∷ []

abbrev digest : CredentialObject → Text
digest object = codes "digest"

-- The scope that socket s1 has recorded.
abbrev held : AnonymousRecord
held = record {
  scope = codes "s1";
  instance_id = codes "i1";
  session_id = codes "s1";
  ip = codes "::1";
}

abbrev ref : ResumptionRef
ref = ref_of irc jim (from_socket (codes "s2"))

abbrev holding : Scopes
holding = record empty_scopes { anonymous_scopes = set ref.key held [] }

recorded_there : get ref.key holding.anonymous_scopes ≡ some held
recorded_there = get-set_self ref.key held []

live_holder_keeps_example :
    (anonymous_scope
        (some (codes "s1" ∷ codes "s2" ∷ []))
        irc
        jim
        (from_socket (codes "s2"))
        holding
      ≡ scoped (record { scope = codes "s2"; resumption = some ref }))
    × (remember_anonymous_scope
          (some (codes "s1" ∷ codes "s2" ∷ []))
          ref
          (codes "s2")
          (codes "i2")
          (codes "s2")
          holding
        ≡ holding)
unfolding get member normalize_ip text_beq
live_holder_keeps_example =
    live_holder_keeps (codes "s1" ∷ codes "s2" ∷ []) irc jim (from_socket (codes "s2")) holding
      (codes "s2") held refl refl refl recorded_there (codes "s2") (codes "i2") refl
      (ne_of_beq (codes "s1") (codes "s2") refl)

abbrev moved : AnonymousRecord
moved = record held { instance_id = codes "i2" }

abbrev before : Scopes
before = record empty_scopes { anonymous_scopes = (codes "k", moved) ∷ [] }
