-- ===== src/ConnectionScope/Promises.antt =====
-- Credentials and the actions behind them: what an action waits for, and what it gets.
use sockethub.Base.{
  ℕ, ◌≡◌, refl, ◌≢◌, Bool, true, false, List, [], ◌∷◌, Option, none, some, arith, Text, text_eq,
  nat_eq, or_else, if◌then◌else◌, ◌&&◌, ◌∙◌,
}
use sockethub.Base.Table.{get, set, get-set_self}
use sockethub.Identity.{truthy, scope_key}
use sockethub.ConnectionScope.{
  Scopes, ScopeRequest, CredentialObject, has_secret, Promise, pending, resolved, rejected, settle,
  resolve_scope, reject_scope, begin_credential_scope, find_pending, finish_resolve,
  resolve_connection_scope, waits, fails, scoped, anonymous_scope, fingerprint, Resolution,
  settle_from, after_promise,
}

find_pending-begin :
    (s : Scopes) (session platform actor : Text) (r : ScopeRequest)
    → r.credential_session_id ≡ some session
    → truthy session ≡ true
    → find_pending platform actor r (begin_credential_scope session platform actor s).0
      ≡ some (begin_credential_scope session platform actor s).1
unfolding find_pending begin_credential_scope
find_pending-begin s session platform actor r c t = ground (
  arith,
  get-set_self session
      (set (scope_key platform actor) s.next_promise (or_else (get session s.pending_scopes) []))
      s.pending_scopes,
  get-set_self (scope_key platform actor) s.next_promise
      (or_else (get session s.pending_scopes) []),
)

promise-begin :
    (s : Scopes) (session platform actor : Text)
    → get
        (begin_credential_scope session platform actor s).1
        (begin_credential_scope session platform actor s).0.promises
      ≡ some pending
unfolding begin_credential_scope
promise-begin s session platform actor = get-set_self s.next_promise pending s.promises

settled :
    (h : ℕ) (p q : Promise) (s : Scopes)
    → get h s.promises ≡ some pending
    → settle_from (some p) q ≡ p
    → (get h (settle h p s).promises ≡ some p)
      × (get h (settle h q (settle h p s)).promises ≡ some p)
unfolding settle
settled h p q s e k =
    let first : get h (set h (settle_from (get h s.promises) p) s.promises) ≡ some p =
      get-set_self h _ s.promises ∙ rw e in
    (first, get-set_self h _ (settle h p s).promises ∙ rw (first, k))

-- The first settlement of a pending promise counts.
pub settle_once :
    (h : ℕ) (p q : Promise) (s : Scopes)
    → get h s.promises ≡ some pending
    → p ≢ pending
    → (get h (settle h p s).promises ≡ some p)
      × (get h (settle h q (settle h p s)).promises ≡ some p)
unfolding settle
settle_once h pending q s e n = absurd (n refl)
settle_once h (resolved v) q s e n = settled h (resolved v) q s e refl
settle_once h (rejected v) q s e n = settled h (rejected v) q s e refl

finish-of_promise :
    (live : Option (List Text)) (platform actor : Text) (r : ScopeRequest) (h : ℕ) (s : Scopes)
    (p : Promise)
    → get h s.promises ≡ some p
    → finish_resolve live platform actor r (some h) s
      ≡ after_promise (anonymous_scope live platform actor r s) h (some p)
unfolding finish_resolve
finish-of_promise live platform actor r h s p e = rw e

find_pending-settle :
    (platform actor : Text) (r : ScopeRequest) (h : ℕ) (p : Promise) (s : Scopes)
    → find_pending platform actor r (settle h p s) ≡ find_pending platform actor r s
unfolding find_pending settle
find_pending-settle platform actor r h p s = refl

resolve-settled :
    (live : Option (List Text)) (session platform actor : Text) (r : ScopeRequest) (p : Promise)
    (s : Scopes)
    → r.credential_session_id ≡ some session
    → truthy session ≡ true
    → p ≢ pending
    → let (s', h) = begin_credential_scope session platform actor s in
      resolve_connection_scope live platform actor r (settle h p s')
      ≡ after_promise (anonymous_scope live platform actor r (settle h p s')) h (some p)
unfolding resolve_connection_scope
resolve-settled live session platform actor r p s c t n =
    let (s', h) = begin_credential_scope session platform actor s in
    rw
      (
        find_pending-settle platform actor r h p s',
        find_pending-begin s session platform actor r c t,
      )
      (finish-of_promise live platform actor r h (settle h p s') p
        (settle_once h p p s' (promise-begin s session platform actor) n).0)

after_fingerprint :
    (b : Bool) (v : Text) (h : ℕ) (anonymous : Resolution)
    → after_promise anonymous h (some (resolved (if b then some v else none)))
      ≡ (if b && truthy v then scoped (record { scope = v; resumption = none }) else anonymous)
after_fingerprint false v h anonymous = refl
after_fingerprint true [] h anonymous = refl
after_fingerprint true (c ∷ v) h anonymous = refl

-- An action behind unfinished credentials waits for them; behind stored ones it gets the scope that
-- their fingerprint gives, or an anonymous one if they have no secret; behind failed ones it fails
-- with their error.
pub resolve-begin :
    (object_hash : CredentialObject → Text) (live : Option (List Text))
    (session platform actor : Text) (r : ScopeRequest) (s : Scopes) (object : CredentialObject)
    (err : Text)
    → r.credential_session_id ≡ some session
    → truthy session ≡ true
    → let (s', h) = begin_credential_scope session platform actor s in
      let stored = resolve_scope object_hash h (some object) s' in
      (resolve_connection_scope live platform actor r s' ≡ waits h)
      × (resolve_connection_scope live platform actor r stored ≡ (
          if has_secret object && truthy (object_hash object)
          then scoped (record { scope = object_hash object; resumption = none })
          else anonymous_scope live platform actor r stored))
      × (resolve_connection_scope live platform actor r (reject_scope h err s') ≡ fails err)
unfolding resolve_connection_scope resolve_scope reject_scope
resolve-begin object_hash live session platform actor r s object err c t =
    let (s', h) = begin_credential_scope session platform actor s in
    (
      rw (find_pending-begin s session platform actor r c t) (
          finish-of_promise live platform actor r h s' pending
            (promise-begin s session platform actor)),
      resolve-settled live session platform actor r
            (resolved (fingerprint object_hash (some object))) s c t (λ e. cc)
          ∙ after_fingerprint (has_secret object) (object_hash object) h _,
      resolve-settled live session platform actor r (rejected err) s c t (λ e. cc),
    )
