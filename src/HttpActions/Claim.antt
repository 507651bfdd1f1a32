-- ===== src/HttpActions/Claim.antt =====
-- packages/server/src/http/actions.ts: the idempotency store, the claim of a request id, and the
-- replay of a finished request. The claim awaits Redis between its steps, so other requests with the
-- same id can come between them. Keys do not expire here.
use sockethub.Base.{
  ℕ, zero, suc, Bool, true, false, List, [], ◌++◌, Option, none, some, is_some, or_else,
  if◌then◌else◌, ltb, Text, codes, nat_eq, text_eq, ◌==◌, length, take, drop,
}
use sockethub.Base.Table.{Table, get, set, delete}
use sockethub.HttpActions.{RequestIdResolution, unset, invalid, resolved}

pub data Status : Type 0 where
  in_progress complete : Status

-- What Redis holds under the two kinds of keys.
pub record Store : Type 0 where
  pub statuses : Table Text Status
  pub lists : Table Text (List Text)

-- `buildIdempotencyKeys`.
abbrev pub status_key : Text → Text
status_key request_id = codes "sockethub:http-actions:status:" ++ request_id

abbrev pub list_key : Text → Text
list_key request_id = codes "sockethub:http-actions:results:" ++ request_id

-- `SET key in-progress NX`.
unfoldable pub set_if_absent : Text → Store → Store × Bool
set_if_absent key s =
    if is_some (get key s.statuses)
    then (s, false)
    else (record s { statuses = set key in_progress s.statuses }, true)

-- The points of the claim: before each call, and its ends.
pub data Claim : Type 0 where
  starting looking retrying clearing running replaying conflicting : Claim

abbrev pub found : Option Status → Claim
found none = retrying
found (some in_progress) = conflicting
found (some complete) = replaying

unfoldable pub claim_step : Text → Claim → Store → Store × Claim
unfolding set_if_absent
claim_step id starting s =
    let (s', claimed) = set_if_absent (status_key id) s in
    (s', if claimed then clearing else looking)
claim_step id looking s = (s, found (get (status_key id) s.statuses))
claim_step id retrying s =
    let (s', claimed) = set_if_absent (status_key id) s in
    (s', if claimed then clearing else conflicting)
claim_step id clearing s = (record s { lists = delete (list_key id) s.lists }, running)
claim_step id running s = (s, running)
claim_step id replaying s = (s, replaying)
claim_step id conflicting s = (s, conflicting)

abbrev pub batch_size : ℕ
batch_size = 100

-- The loop of `streamCachedResults` from `start` on: `lrange` gives what the list has in range.
unfoldable pub replay_from : ℕ → List Text → List Text
replay_from zero list = []
replay_from (suc fuel) list =
    let batch = take batch_size list in
    let rest = replay_from fuel (drop batch_size list) in
    if length batch == 0 then [] else if ltb (length batch) batch_size then batch else batch ++ rest

unfoldable pub stream_cached_results : Text → Store → List Text
unfolding replay_from
stream_cached_results key s =
    let list = or_else (get key s.lists) [] in replay_from (suc (length list)) list

pub data GetResponse : Type 0 where
  bad_request still_running not_found unavailable : GetResponse
  replayed : List Text → GetResponse

abbrev pub lookup : Text → Store → Option Status → GetResponse
unfolding stream_cached_results
lookup id s none = not_found
lookup id s (some in_progress) = still_running
lookup id s (some complete) = replayed (stream_cached_results (list_key id) s)

-- `handleGet`. An absent store is one that fails.
unfoldable pub handle_get : RequestIdResolution → Option Store → GetResponse
handle_get unset s = bad_request
handle_get (invalid e) s = bad_request
handle_get (resolved id) none = unavailable
handle_get (resolved id) (some s) = lookup id s (get (status_key id) s.statuses)
