-- ===== src/HttpActions/Exclusive.antt =====
-- Requests with the same id that are claimed at the same time.
use sockethub.Base.{
  ℕ, zero, suc, ◌+◌, ◌≤◌, ◌≡◌, List, [], ◌∷◌, arith, Text, is_some, if◌then◌else◌, text_eq,
}
use sockethub.Base.Table.{get, get-set_self}
use sockethub.HttpActions.Claim.{
  Store, in_progress, status_key, Claim, starting, looking, retrying, clearing, running, replaying,
  conflicting, claim_step, set_if_absent,
}

-- The request that has the turn goes one step on.
unfoldable advance : Text → ℕ → List Claim → Store → Store × List Claim
unfolding claim_step
advance id k [] s = (s, [])
advance id zero (c ∷ cs) s = let (s', c') = claim_step id c s in (s', c' ∷ cs)
advance id (suc k) (c ∷ cs) s = let (s', cs') = advance id k cs s in (s', c ∷ cs')

-- A schedule says whose turn it is.
unfoldable pub claim_all : Text → List ℕ → List Claim → Store → Store × List Claim
unfolding advance
claim_all id [] cs s = (s, cs)
claim_all id (k ∷ ks) cs s = let (s', cs') = advance id k cs s in claim_all id ks cs' s'

-- The requests that run the payloads, or are about to.
abbrev pub holds : Claim → ℕ
holds clearing = 1
holds running = 1
holds starting = 0
holds looking = 0
holds retrying = 0
holds replaying = 0
holds conflicting = 0

abbrev pub holding : List Claim → ℕ
holding [] = 0
holding (c ∷ cs) = holds c + holding cs

-- Whether the id is taken.
abbrev pub taken : Text → Store → ℕ
taken id s = if is_some (get (status_key id) s.statuses) then 1 else 0

claim_step-taken :
    (id : Text) (c : Claim) (s : Store)
    → let (s', c') = claim_step id c s in
      (holds c' + taken id s ≤ holds c + taken id s') × (taken id s ≤ taken id s')
unfolding claim_step set_if_absent
claim_step-taken id starting s = ground (arith, get-set_self (status_key id) in_progress s.statuses)
claim_step-taken id looking s = ground arith
claim_step-taken id retrying s = ground (arith, get-set_self (status_key id) in_progress s.statuses)
claim_step-taken id clearing s = ground arith
claim_step-taken id running s = ground arith
claim_step-taken id replaying s = ground arith
claim_step-taken id conflicting s = ground arith

advance-taken :
    (id : Text) (k : ℕ) (cs : List Claim) (s : Store)
    → let (s', cs') = advance id k cs s in holding cs' + taken id s ≤ holding cs + taken id s'
unfolding advance
advance-taken id k [] s = omega arith
advance-taken id zero (c ∷ cs) s = let h = claim_step-taken id c s in omega (arith, h.0)
advance-taken id (suc k) (c ∷ cs) s = let h = advance-taken id k cs s in omega (arith, h)

claim_all-taken :
    (id : Text) (ks : List ℕ) (cs : List Claim) (s : Store)
    → let (s', cs') = claim_all id ks cs s in holding cs' + taken id s ≤ holding cs + taken id s'
unfolding claim_all
claim_all-taken id [] cs s = omega arith
claim_all-taken id (k ∷ ks) cs s =
    let h = advance-taken id k cs s in
    let (s', cs') = advance id k cs s in
    let h' = claim_all-taken id ks cs' s' in omega (arith, h, h')

-- Of any requests with one id that come to claim it, in any interleaving of their steps, at most one
-- gets to run the payloads, and none where the id is taken already.
pub claim_all-holding :
    (id : Text) (ks : List ℕ) (cs : List Claim) (s : Store)
    → holding cs ≡ 0
    → let (s', cs') = claim_all id ks cs s in (holding cs' ≤ 1) × (holding cs' + taken id s ≤ 1)
claim_all-holding id ks cs s none_yet =
    let h = claim_all-taken id ks cs s in
    let (s', cs') = claim_all id ks cs s in ground (arith, h, none_yet)
