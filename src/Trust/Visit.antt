-- ===== src/Trust/Visit.antt =====
-- trust.rs (crates/zbrain/src): `visit`. It recurs on fuel; the loop over the ids of a claim is a function of
-- its own.
use zbrain.Prelude.{
  ℕ, zero, suc, String, not, ◌&&◌, Option, none, some, List, [], ◌∷◌, ◌++◌, ◌==◌, Result, ok, err,
  ◌>>◌, ensure, map_err, if◌then◌else◌,
}
use zbrain.Prelude.Assoc.{get, insert}
use zbrain.Prelude.Sets.{contains}
use zbrain.Prelude.Sort.{sort}
use zbrain.Ids.{is_claim_id}
use zbrain.Claims.{Claim}
use zbrain.Claims.Digest.{Canon, verify_claim_digest}
use zbrain.Trust.{
  Reason, TrustFailure, VisitState, Loaded, loaded, not_found, unreadable, TrustValidator, Outcome,
  done, failed, out_of_fuel, fail, state_of, set_state, is_active, mark_invalid, combine_trust_path,
  cycle,
}

-- Marks `id` with a failure of its own and fails along `path`.
unfoldable pub refuse :
    String → String → List String → Reason → TrustValidator → TrustValidator × Outcome
unfolding mark_invalid
refuse root_id id path reason v =
    (mark_invalid id (record { path = id ∷ []; reason = reason }) v, fail root_id path reason)

-- A bad id among the supports of `id`.
unfoldable pub refuse_support :
    String → String → String → List String → Reason → TrustValidator → TrustValidator × Outcome
unfolding mark_invalid combine_trust_path
refuse_support root_id id support_id path reason v =
    let failure : TrustFailure = record { path = id ∷ support_id ∷ []; reason = reason } in
    (mark_invalid id failure v, fail root_id (combine_trust_path path failure.path) reason)

-- The failure that a claim takes over from its support.
unfoldable pub inherited : String → String → Reason → Option TrustFailure → TrustFailure
inherited id support_id reason (some failure) = record {
  path = id ∷ failure.path;
  reason = failure.reason;
}
inherited id support_id reason none = record { path = id ∷ support_id ∷ []; reason = reason }

unfoldable pub inherit_failure : String → String → Reason → TrustValidator → TrustValidator
unfolding mark_invalid inherited
inherit_failure id support_id reason v = elim (state_of v id) [
  | VisitState.invalid ↦ v
  | _ ↦ mark_invalid id (inherited id support_id reason (get v.failures support_id)) v
]

-- What follows the visit of one support: the rest of the loop, or the end.
unfoldable pub after_support :
    String
    → String
    → TrustValidator × Outcome
    → (TrustValidator → TrustValidator × Outcome)
    → TrustValidator × Outcome
unfolding inherit_failure
after_support id support_id (v, done) rest = rest v
after_support id support_id (v, failed e) rest =
    (inherit_failure id support_id e.reason v, failed e)
after_support id support_id (v, out_of_fuel) rest = (v, out_of_fuel)

-- A visit of one id along a path.
abbrev pub Visitor : Type 0
Visitor = String → List String → TrustValidator → TrustValidator × Outcome

unfoldable pub visit_supports :
    Visitor
    → String
    → String
    → List String
    → List String
    → List String
    → TrustValidator
    → TrustValidator × Outcome
visit_supports visit root_id id path seen [] v = (set_state id VisitState.valid v, done)
visit_supports visit root_id id path seen (support_id ∷ ids) v =
    let rest = visit_supports visit root_id id path (support_id ∷ seen) ids in
    if not (is_claim_id support_id)
    then refuse_support root_id id support_id path (Reason.support_unsafe support_id) v
    else if contains seen support_id
    then refuse_support root_id id support_id path (Reason.support_duplicated support_id) v
    else after_support id support_id (visit support_id (path ++ support_id ∷ []) v) rest

-- The claim of `id`: held already, or loaded and then held.
unfoldable pub resolve_loaded :
    String → Loaded → TrustValidator → TrustValidator × Result Reason Claim
resolve_loaded id (loaded claim) v = (record v { claims = insert id claim v.claims }, ok claim)
resolve_loaded id not_found v = (v, err (Reason.missing id))
resolve_loaded id (unreadable e) v = (v, err (Reason.unparsable id e))

unfoldable pub resolve_by :
    String
    → Option Claim
    → Option (String → Loaded)
    → TrustValidator
    → TrustValidator × Result Reason Claim
unfolding resolve_loaded
resolve_by id (some claim) load v = (v, ok claim)
resolve_by id none none v = (v, err (Reason.missing id))
resolve_by id none (some load) v = resolve_loaded id (load id) v

unfoldable pub resolve : String → TrustValidator → TrustValidator × Result Reason Claim
unfolding resolve_by
resolve id v = resolve_by id (get v.claims id) v.load v

unfoldable pub begin_visit : String → TrustValidator → TrustValidator
begin_visit id v = record v {
  states = insert id VisitState.visiting v.states;
  visits = insert id (elim (get v.visits id) [ none ↦ 1 | some n ↦ suc n ]) v.visits;
}

-- The caller's extra rule for a supporting claim.
abbrev pub Rule : Type 0
Rule = Claim → Result String (Unit {0})

-- The loop over the supports, unless a check failed.
unfoldable pub after_check :
    Visitor
    → String
    → String
    → List String
    → Claim
    → Result Reason (Unit {0})
    → TrustValidator
    → TrustValidator × Outcome
after_check visit root_id id path claim (err reason) v = refuse root_id id path reason v
after_check visit root_id id path claim (ok _) v =
    visit_supports visit root_id id path [] (sort claim.supporting_claim_ids) v

-- The failure of an id that was refused before.
unfoldable pub known_failure : String → String → List String → Option TrustFailure → Outcome
unfolding combine_trust_path
known_failure root_id id path (some failure) =
    fail root_id (combine_trust_path path failure.path) failure.reason
known_failure root_id id path none =
    fail root_id (combine_trust_path path (id ∷ [])) Reason.invalid_without_failure

module _ (canon : Canon) (validate : Rule) where
  -- The three checks on a claim itself.
  unfoldable pub check_support : String → Claim → Result Reason (Unit {0})
  check_support id claim = do
    ensure (claim.status == "approved") (Reason.not_approved id claim.status)
    map_err (Reason.digest_refused id) (verify_claim_digest canon claim)
    map_err (Reason.support_refused id) (validate claim)

  unfoldable pub visit_claim :
      Visitor → String → String → List String → Claim → TrustValidator → TrustValidator × Outcome
  visit_claim visit root_id id path claim v =
      after_check visit root_id id path claim (check_support id claim) v

  unfoldable pub after_resolve :
      Visitor
      → String
      → String
      → List String
      → TrustValidator × Result Reason Claim
      → TrustValidator × Outcome
  after_resolve visit root_id id path (v, err reason) = refuse root_id id path reason v
  after_resolve visit root_id id path (v, ok claim) =
      visit_claim visit root_id id path claim (begin_visit id v)

  unfoldable pub by_state :
      VisitState
      → Visitor
      → String
      → String
      → List String
      → TrustValidator
      → TrustValidator × Outcome
  by_state VisitState.valid visit root_id id path v = (v, done)
  by_state VisitState.invalid visit root_id id path v =
      (v, known_failure root_id id path (get v.failures id))
  by_state VisitState.visiting visit root_id id path v = cycle root_id id path v
  by_state VisitState.unvisited visit root_id id path v =
      after_resolve visit root_id id path (resolve id v)

  unfoldable pub visit : ℕ → String → Visitor
  visit zero root_id id path v = (v, out_of_fuel)
  visit (suc fuel) root_id id path v =
      let deeper = visit fuel root_id in
      if is_active v root_id && id == root_id
      then cycle root_id id path v
      else by_state (state_of v id) deeper root_id id path v
