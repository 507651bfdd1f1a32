-- ===== src/Client/Prepared.antt =====
-- packages/client/src/sockethub-client.ts: a stream that is stored is replayed as it was sent.
use sockethub.Base.{
  ◌==◌, text_eq, ◌≡◌, refl, ap, true, false, ◌&&◌, List, [], ◌∷◌, some, if◌then◌else◌, Text, codes,
  map, if_both,
}
use sockethub.Identity.{given}
use sockethub.Stream.{
  Entry, text_entry, object_entry, Ref, missing, plain, object, array, PrimaryKey, id_key,
  content_key, keyed, Stream, Object, normalize_entry, normalize_string_ref,
  normalize_activity_stream,
}
use sockethub.Client.{Content, stream, other}
use sockethub.Client.Outbound.{prepared, with_actor_type, with_type, normalized}

entry_lem : (e : Entry) → normalize_entry (normalize_entry e) ≡ normalize_entry e
unfolding normalize_entry
entry_lem (text_entry t) = refl
entry_lem (object_entry o) = refl

entries_lem :
    (es : List Entry) → map normalize_entry (map normalize_entry es) ≡ map normalize_entry es
entries_lem [] = refl
entries_lem (e ∷ es) = rw (entry_lem e, entries_lem es)

ref_lem :
    (key : PrimaryKey) (r : Ref)
    → normalize_string_ref key (normalize_string_ref key r) ≡ normalize_string_ref key r
unfolding normalize_string_ref
ref_lem key missing = refl
ref_lem key (plain t) = refl
ref_lem key (object o) = refl
ref_lem key (array es) = ap array (entries_lem es)

-- The default type of an actor does not disturb the normal form.
object_lem :
    (key : PrimaryKey) (o : Object)
    → normalize_string_ref key (with_actor_type (object o)) ≡ with_actor_type (object o)
unfolding normalize_string_ref
object_lem key o = if_both (λ r. normalize_string_ref key r ≡ r) (given o.kind) refl refl

actor_lem :
    (key : PrimaryKey) (r : Ref)
    → normalize_string_ref key (with_actor_type (normalize_string_ref key r))
      ≡ with_actor_type (normalize_string_ref key r)
unfolding normalize_string_ref
actor_lem key missing = refl
actor_lem key (plain t) = object_lem key (keyed key t)
actor_lem key (object o) = object_lem key o
actor_lem key (array es) = ap array (entries_lem es)

record IsNormal (s : Stream) : Type 0 where
  actor : normalize_string_ref id_key (with_actor_type s.actor) ≡ with_actor_type s.actor
  target : normalize_string_ref id_key s.target ≡ s.target
  content : normalize_string_ref content_key s.content ≡ s.content

normalized-IsNormal : (content : Content) → IsNormal (normalized content)
unfolding normalize_activity_stream
normalized-IsNormal (stream s) = record {
  actor = actor_lem id_key s.actor;
  target = ref_lem id_key s.target;
  content = ref_lem content_key s.content;
}
normalized-IsNormal (other t) =
    unfold normalize_string_ref in record { actor = refl; target = refl; content = refl }

with_type-IsNormal : (event : Text) (s : Stream) → IsNormal s → IsNormal (with_type event s)
with_type-IsNormal event s h =
    if_both IsNormal (event == codes "credentials" && (if given s.kind then false else true))
      {x = record s { kind = some (codes "credentials") }}
      (record { actor = h.actor; target = h.target; content = h.content }) h

IsNormal-fixed :
    (s : Stream)
    → IsNormal s
    → normalize_activity_stream (record s { actor = with_actor_type s.actor })
      ≡ record s { actor = with_actor_type s.actor }
unfolding normalize_activity_stream
IsNormal-fixed s h = λ i. record s { actor = h.actor i; target = h.target i; content = h.content i }

-- What is sent for an event is in normal form, so that a replay, which normalizes what was stored,
-- sends it once more as it was.
pub prepared-normal :
    (event : Text) (content : Content)
    → normalize_activity_stream (prepared event content) ≡ prepared event content
unfolding prepared
prepared-normal event content =
    let s = with_type event (normalized content) in
    IsNormal-fixed s (with_type-IsNormal event (normalized content) (normalized-IsNormal content))
