-- ===== src/ConnectionScope/Records.antt =====
-- The records follow their instance when it is re-keyed, and go with it.
use sockethub.Base.{
  ◌≡◌, refl, ◌≢◌, [], ◌∷◌, Option, none, some, arith, Text, text_eq, ◌==◌, text_beq_iff,
  if◌then◌else◌, or_else,
}
use sockethub.Base.Table.{
  Table, get, set, delete, get-set, get-delete, Distinct, set-Distinct, delete-Distinct,
}
use sockethub.Identity.{build_resumption_key}
use sockethub.ConnectionScope.{
  Scopes, AnonymousRecord, forget_entries, forget_anonymous_scopes, reassign_entry,
  reassign_entries, reassign_anonymous_scopes,
}

-- A record of another instance, or none.
abbrev pub unless_of : Text → Option AnonymousRecord → Option AnonymousRecord
unless_of id none = none
unless_of id (some r) = if r.instance_id == id then none else some r

module _ (id : Text) where
  -- What the loop over `es` leaves of a table that holds all of `es`.
  get-forget_entries_absent :
      (k : Text) (es m : Table Text AnonymousRecord)
      → get k es ≡ none
      → get k (forget_entries id es m) ≡ get k m
  unfolding forget_entries get
  get-forget_entries_absent k [] m h = refl
  get-forget_entries_absent k ((j, r) ∷ es) m h = ground (
    arith,
    text_beq_iff j k,
    get-forget_entries_absent k es m,
    get-forget_entries_absent k es (delete j m),
    get-delete j k m,
  )

  get-forget_entries :
      (k : Text) (es m : Table Text AnonymousRecord)
      → Distinct es
      → get k es ≡ get k m
      → get k (forget_entries id es m) ≡ unless_of id (get k m)
  unfolding forget_entries get
  get-forget_entries k [] m d h = rw (← h)
  get-forget_entries k ((j, r) ∷ es) m d h = ground (
    arith,
    text_beq_iff j k,
    text_beq_iff r.instance_id id,
    get-forget_entries_absent k es m,
    get-forget_entries_absent k es (delete j m),
    get-forget_entries k es m d.1,
    get-forget_entries k es (delete j m) d.1,
    get-delete j k m,
  )

-- When an instance goes, its records go, and every record of another instance stays.
pub get-forget :
    (id k : Text) (s : Scopes)
    → Distinct s.anonymous_scopes
    → get k (forget_anonymous_scopes id s).anonymous_scopes
      ≡ unless_of id (get k s.anonymous_scopes)
unfolding forget_anonymous_scopes
get-forget id k s d = get-forget_entries id k s.anonymous_scopes s.anonymous_scopes d refl

module _ (from to platform : Text) (actor_id : Option Text) where
  -- Every record of `from` that the table holds is still ahead of the loop.
  abbrev Ahead : Table Text AnonymousRecord → Table Text AnonymousRecord → Type 0
  Ahead es m =
      (k : Text) (r : AnonymousRecord) → get k m ≡ some r → r.instance_id ≡ from → get k es ≡ some r

  reassign_entry-Ahead :
      (j : Text) (q : AnonymousRecord) (es m : Table Text AnonymousRecord)
      → to ≢ from
      → Ahead ((j, q) ∷ es) m
      → Ahead es (reassign_entry from to platform actor_id (j, q) m)
  unfolding reassign_entry get
  reassign_entry-Ahead j q es m n h k r e i =
      let new = build_resumption_key platform (or_else actor_id []) q.ip in
      ground (
        arith,
        h k r,
        text_beq_iff j k,
        text_beq_iff q.instance_id from,
        get-delete j k m,
        get-set new k (record q { instance_id = to }) (delete j m),
      )

  reassign_entries-none :
      (es m : Table Text AnonymousRecord)
      → to ≢ from
      → Ahead es m
      → (k : Text) (r : AnonymousRecord)
      → get k (reassign_entries from to platform actor_id es m) ≡ some r
      → r.instance_id ≢ from
  unfolding reassign_entries get
  reassign_entries-none [] m n h k r e i = cc (h k r e i)
  reassign_entries-none ((j, q) ∷ es) m n h k r e i =
      reassign_entries-none es (reassign_entry from to platform actor_id (j, q) m) n
        (reassign_entry-Ahead j q es m n h) k r e i

  -- After a re-keying to another identifier, no record points at the old one.
  pub reassign_none_left :
      (s : Scopes) (k : Text) (r : AnonymousRecord)
      → to ≢ from
      → get k (reassign_anonymous_scopes from to platform actor_id s).anonymous_scopes ≡ some r
      → r.instance_id ≢ from
  unfolding reassign_anonymous_scopes
  reassign_none_left s k r n e i =
      reassign_entries-none s.anonymous_scopes s.anonymous_scopes n (λ k r e i. e) k r e i

  reassign_entries-Distinct :
      (es m : Table Text AnonymousRecord)
      → Distinct m
      → Distinct (reassign_entries from to platform actor_id es m)
  unfolding reassign_entries reassign_entry
  reassign_entries-Distinct [] m d = d
  reassign_entries-Distinct ((j, q) ∷ es) m d =
      let new = build_resumption_key platform (or_else actor_id []) q.ip in
      ground (
        arith,
        reassign_entries-Distinct es m d,
        reassign_entries-Distinct es (delete j m) (delete-Distinct j m d),
        reassign_entries-Distinct es (set new (record q { instance_id = to }) (delete j m))
            (set-Distinct new _ (delete j m) (delete-Distinct j m d)),
      )

  pub reassign-Distinct :
      (s : Scopes)
      → Distinct s.anonymous_scopes
      → Distinct (reassign_anonymous_scopes from to platform actor_id s).anonymous_scopes
  unfolding reassign_anonymous_scopes
  reassign-Distinct s d = reassign_entries-Distinct s.anonymous_scopes s.anonymous_scopes d
