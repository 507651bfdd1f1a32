-- ===== src/ConnectionScope.antt =====
-- packages/server/src/connection-scope.ts: the server-derived scope of a persistent instance.
-- A promise is a cell of `promises`, found by its number; a handle is that number. `live` is
-- `listener.io?.sockets?.sockets`. The digest of a credential object is a parameter.
pub mod Promises
pub mod Isolation
pub mod Records
mod Tests
use sockethub.Base.{
  ℕ, suc, Bool, true, false, ◌&&◌, ◌||◌, not, List, [], ◌∷◌, ◌++◌, Option, none, some,
  if◌then◌else◌, Text, codes, nat_eq, text_eq, ◌==◌, or_else,
}
use sockethub.Base.Table.{Table, get, set, delete}
use sockethub.Base.Group.{member}
use sockethub.Identity.{truthy, given, scope_key, build_resumption_key, normalize_ip}

-- A field of a credential object: a string, or any other value, as it is serialized.
pub data FieldValue : Type 0 where
  text other : Text → FieldValue

abbrev pub CredentialObject : Type 0
CredentialObject = Table Text FieldValue

pub record AnonymousRecord : Type 0 where
  pub scope : Text
  pub instance_id : Text
  pub session_id : Text
  pub ip : Text

pub record ResumptionRef : Type 0 where
  pub key : Text
  pub ip : Text

pub record ConnectionScope : Type 0 where
  pub scope : Text
  pub resumption : Option ResumptionRef

-- A settled promise does not change any more.
pub data Promise : Type 0 where
  pending : Promise
  resolved : Option Text → Promise
  rejected : Text → Promise

pub record Scopes : Type 0 where
  pub pending_scopes : Table Text (Table Text ℕ)
  pub anonymous_scopes : Table Text AnonymousRecord
  pub promises : Table ℕ Promise
  pub next_promise : ℕ

pub record ScopeRequest : Type 0 where
  pub credential_session_id : Option Text
  pub socket_session_id : Option Text
  pub session_ip : Option Text

abbrev pub empty_scopes : Scopes
empty_scopes = record {
  pending_scopes = [];
  anonymous_scopes = [];
  promises = [];
  next_promise = 0;
}

abbrev pub is_secret : Option FieldValue → Bool
is_secret (some (text s)) = truthy s
is_secret (some (other _)) = false
is_secret none = false

abbrev pub has_secret : CredentialObject → Bool
has_secret object =
    is_secret (get (codes "password") object) || is_secret (get (codes "token") object)

module _ (object_hash : CredentialObject → Text) where
  -- `none` for a credential message without an `object`, and as the result.
  unfoldable pub fingerprint : Option CredentialObject → Option Text
  fingerprint none = none
  fingerprint (some object) = if has_secret object then some (object_hash object) else none

-- The new promise stands under the session's key at once.
unfoldable pub begin_credential_scope : Text → Text → Text → Scopes → Scopes × ℕ
begin_credential_scope session_id platform actor_id s =
    let handle = s.next_promise in
    let by_session = or_else (get session_id s.pending_scopes) [] in
    (
      record s {
        pending_scopes =
            set session_id (set (scope_key platform actor_id) handle by_session) s.pending_scopes;
        promises = set handle pending s.promises;
        next_promise = suc handle;
      },
      handle,
    )

abbrev pub settle_from : Option Promise → Promise → Promise
settle_from (some (resolved v)) p = resolved v
settle_from (some (rejected e)) p = rejected e
settle_from (some pending) p = p
settle_from none p = p

unfoldable pub settle : ℕ → Promise → Scopes → Scopes
settle handle p s = record s {
  promises = set handle (settle_from (get handle s.promises) p) s.promises;
}

module _ (object_hash : CredentialObject → Text) where
  -- The two functions of a `CredentialScopeHandle`.
  unfoldable pub resolve_scope : ℕ → Option CredentialObject → Scopes → Scopes
  unfolding settle fingerprint
  resolve_scope handle credentials s =
      settle handle (resolved (fingerprint object_hash credentials)) s

unfoldable pub reject_scope : ℕ → Text → Scopes → Scopes
unfolding settle
reject_scope handle err s = settle handle (rejected err) s

unfoldable pub clear_session_scopes : Text → Scopes → Scopes
clear_session_scopes session_id s = record s { pending_scopes = delete session_id s.pending_scopes }

abbrev pub socket_is_live : Option (List Text) → Text → Bool
socket_is_live none session_id = true
socket_is_live (some sockets) session_id = member session_id sockets

-- What a request for a scope comes to: it waits for a promise, fails, or has a scope.
pub data Resolution : Type 0 where
  waits : ℕ → Resolution
  fails : Text → Resolution
  scoped : ConnectionScope → Resolution

abbrev pub resumption_of : Text → Text → ScopeRequest → Option ResumptionRef
resumption_of platform actor_id r =
    let ip = normalize_ip r.session_ip in
    if truthy ip && given r.socket_session_id
    then some (record { key = build_resumption_key platform actor_id ip; ip = ip })
    else none

abbrev pub or_session : Option Text → Option Text → Option Text
or_session (some a) b = some a
or_session none b = b

abbrev pub no_session : Text → Text
no_session platform =
    codes "cannot resolve a connection scope for " ++ (platform ++ codes " without a session")

pub own_scope : Text → ScopeRequest → Option ResumptionRef → Resolution
own_scope platform r resumption =
    let scope = or_session r.socket_session_id r.credential_session_id in
    if given scope
    then scoped (record { scope = or_else scope []; resumption = resumption })
    else fails (no_session platform)

abbrev pub same_session : Text → Option Text → Bool
same_session session none = false
same_session session (some socket) = session == socket

-- A record may be taken over by its own session, and by anyone once that session is gone.
abbrev pub reclaimable : Option (List Text) → ScopeRequest → AnonymousRecord → Bool
reclaimable live r record_ =
    same_session record_.session_id r.socket_session_id
    || not (socket_is_live live record_.session_id)

pub recorded_scope :
    Option (List Text) → Text → ScopeRequest → ResumptionRef → Option AnonymousRecord → Resolution
unfolding own_scope
recorded_scope live platform r ref none = own_scope platform r (some ref)
recorded_scope live platform r ref (some record_) =
    if reclaimable live r record_
    then scoped (record { scope = record_.scope; resumption = some ref })
    else own_scope platform r (some ref)

pub anonymous_scope_from :
    Option (List Text) → Text → ScopeRequest → Option ResumptionRef → Scopes → Resolution
unfolding recorded_scope own_scope
anonymous_scope_from live platform r none s = own_scope platform r none
anonymous_scope_from live platform r (some ref) s =
    recorded_scope live platform r ref (get ref.key s.anonymous_scopes)

unfoldable pub anonymous_scope :
    Option (List Text) → Text → Text → ScopeRequest → Scopes → Resolution
unfolding anonymous_scope_from
anonymous_scope live platform actor_id r s =
    anonymous_scope_from live platform r (resumption_of platform actor_id r) s

-- The promise that a request finds for its session, at the time of the call.
abbrev pub pending_in : Text → Option (Table Text ℕ) → Option ℕ
pending_in key none = none
pending_in key (some by_session) = get key by_session

unfoldable pub find_pending : Text → Text → ScopeRequest → Scopes → Option ℕ
find_pending platform actor_id r s =
    if given r.credential_session_id
    then pending_in (scope_key platform actor_id)
        (get (or_else r.credential_session_id []) s.pending_scopes)
    else none

abbrev pub after_promise : Resolution → ℕ → Option Promise → Resolution
after_promise anonymous handle none = waits handle
after_promise anonymous handle (some pending) = waits handle
after_promise anonymous handle (some (rejected e)) = fails e
after_promise anonymous handle (some (resolved none)) = anonymous
after_promise anonymous handle (some (resolved (some v))) =
    if truthy v then scoped (record { scope = v; resumption = none }) else anonymous

-- What follows the `await`, in the state of that later time: `found` is what `find_pending` gave
-- when the call was made.
unfoldable pub finish_resolve :
    Option (List Text) → Text → Text → ScopeRequest → Option ℕ → Scopes → Resolution
unfolding anonymous_scope
finish_resolve live platform actor_id r none s = anonymous_scope live platform actor_id r s
finish_resolve live platform actor_id r (some handle) s =
    after_promise (anonymous_scope live platform actor_id r s) handle (get handle s.promises)

-- `resolveConnectionScope` where nothing happens during the `await`.
unfoldable pub resolve_connection_scope :
    Option (List Text) → Text → Text → ScopeRequest → Scopes → Resolution
unfolding finish_resolve find_pending
resolve_connection_scope live platform actor_id r s =
    finish_resolve live platform actor_id r (find_pending platform actor_id r s) s

abbrev pub held_by_other : Option (List Text) → Text → Option AnonymousRecord → Bool
held_by_other live session_id none = false
held_by_other live session_id (some existing) =
    not (existing.session_id == session_id) && socket_is_live live existing.session_id

unfoldable pub remember_anonymous_scope :
    Option (List Text) → ResumptionRef → Text → Text → Text → Scopes → Scopes
remember_anonymous_scope live ref scope instance_id session_id s =
    if not (truthy scope) || not (truthy session_id)
    then s
    else if held_by_other live session_id (get ref.key s.anonymous_scopes)
    then s
    else record s {
      anonymous_scopes =
          set ref.key
            (record {
              scope = scope;
              instance_id = instance_id;
              session_id = session_id;
              ip = ref.ip;
            })
            s.anonymous_scopes;
    }

-- One round of the loop over a snapshot of the records.
pub reassign_entry :
    Text
    → Text
    → Text
    → Option Text
    → Text × AnonymousRecord
    → Table Text AnonymousRecord
    → Table Text AnonymousRecord
reassign_entry from to platform actor_id (key, record_) m =
    if not (record_.instance_id == from)
    then m
    else if given actor_id
    then set (build_resumption_key platform (or_else actor_id []) record_.ip)
        (record record_ { instance_id = to }) (delete key m)
    else delete key m

pub reassign_entries :
    Text
    → Text
    → Text
    → Option Text
    → Table Text AnonymousRecord
    → Table Text AnonymousRecord
    → Table Text AnonymousRecord
unfolding reassign_entry
reassign_entries from to platform actor_id [] m = m
reassign_entries from to platform actor_id (entry ∷ rest) m =
    reassign_entries from to platform actor_id rest
      (reassign_entry from to platform actor_id entry m)

unfoldable pub reassign_anonymous_scopes : Text → Text → Text → Option Text → Scopes → Scopes
unfolding reassign_entries
reassign_anonymous_scopes from to platform actor_id s = record s {
  anonymous_scopes =
      reassign_entries from to platform actor_id s.anonymous_scopes s.anonymous_scopes;
}

pub forget_entries :
    Text → Table Text AnonymousRecord → Table Text AnonymousRecord → Table Text AnonymousRecord
forget_entries instance_id [] m = m
forget_entries instance_id ((key, record_) ∷ rest) m =
    forget_entries instance_id rest (if record_.instance_id == instance_id then delete key m else m)

unfoldable pub forget_anonymous_scopes : Text → Scopes → Scopes
unfolding forget_entries
forget_anonymous_scopes instance_id s = record s {
  anonymous_scopes = forget_entries instance_id s.anonymous_scopes s.anonymous_scopes;
}

unfoldable pub reset_connection_scopes : Scopes → Scopes
reset_connection_scopes s = record s { pending_scopes = []; anonymous_scopes = [] }
