-- ===== src/Trust.antt =====
-- trust.rs (crates/zbrain/src): the memoised validation of the closure of supporting claims.
-- A `HashMap` is an `Assoc`; the closures `load` and `validate` are functions of the claim or id.
pub mod Visit
pub mod Trusted
pub mod Frame
pub mod WellFormed
pub mod Root
pub mod Invariant
pub mod Steps
pub mod Sound
pub mod Validated
pub mod Pending
pub mod Total
pub mod Complete
pub mod Exact
pub mod Refusals
pub mod New
use zbrain.Prelude.{
  ℕ, suc, ◌+◌, String, Bool, true, false, not, Option, none, some, List, [], ◌∷◌, ◌++◌, ◌==◌,
  Result, ok, err, ◌>>=◌, ◌>>◌, ensure, refuse_if, drop, but_last, if◌then◌else◌, eqb,
}
use zbrain.Prelude.Assoc.{Assoc, get, insert, remove}
use zbrain.Prelude.Sort.{sort_by}
use zbrain.Ids.{is_claim_id}
use zbrain.Claims.{Claim, ClaimError}

-- The reasons that a failure prints, each with the values in it.
pub data Reason : Type 0 where
  root_unsafe support_unsafe support_duplicated missing : String → Reason
  unparsable : String → ClaimError → Reason
  not_approved : String → String → Reason
  digest_refused : String → ClaimError → Reason
  support_refused : String → String → Reason
  cycle_detected invalid_without_failure : Reason

pub record TrustValidationError : Type 0 where
  pub root_id : String
  pub path : List String
  pub reason : Reason

pub data VisitState : Type 0 where
  unvisited visiting valid invalid : VisitState

pub record TrustFailure : Type 0 where
  pub path : List String
  pub reason : Reason

-- What `ClaimStore::read` returns for an id.
pub data Loaded : Type 0 where
  loaded : Claim → Loaded
  not_found : Loaded
  unreadable : ClaimError → Loaded

pub record TrustValidator : Type 0 where
  pub claims : Assoc Claim
  pub load : Option (String → Loaded)
  pub states : Assoc VisitState
  pub failures : Assoc TrustFailure
  pub visits : Assoc ℕ
  pub active_roots : Assoc Bool

pub data NewError : Type 0 where
  id_unsafe id_duplicated : String → NewError

abbrev pub empty_validator : TrustValidator
empty_validator = record {
  claims = [];
  load = none;
  states = [];
  failures = [];
  visits = [];
  active_roots = [];
}

-- The loop of `new` over the sorted claims.
unfoldable pub add_claims : TrustValidator → List Claim → Result NewError TrustValidator
unfolding insert
add_claims v [] = ok v
add_claims v (claim ∷ rest) = do
  ensure (is_claim_id claim.id) (NewError.id_unsafe claim.id)
  elim (get v.claims claim.id) [ none ↦ ok tt | some c ↦ err (NewError.id_duplicated claim.id) ]
  add_claims (record v { claims = insert claim.id claim v.claims }) rest

unfoldable pub new : List Claim → Result NewError TrustValidator
unfolding add_claims sort_by
new claims = add_claims empty_validator (sort_by (λ (c : Claim). c.id) claims)

-- `from_store`, with the store's `read` as `load`, once the workspace has been validated.
abbrev pub from_store : (String → Loaded) → TrustValidator
from_store load = record empty_validator { load = some load }

unfoldable pub visit_count : TrustValidator → String → ℕ
unfolding get
visit_count v id = elim (get v.visits id) [ none ↦ 0 | some n ↦ n ]

abbrev pub state_or_unvisited : Option VisitState → VisitState
state_or_unvisited none = VisitState.unvisited
state_or_unvisited (some s) = s

abbrev pub state_of : TrustValidator → String → VisitState
state_of v id = state_or_unvisited (get v.states id)

abbrev pub set_state : String → VisitState → TrustValidator → TrustValidator
set_state id s v = record v { states = insert id s v.states }

abbrev pub is_active : TrustValidator → String → Bool
is_active v root_id = elim (get v.active_roots root_id) [ none ↦ false | some b ↦ b ]

mark_by_state : VisitState → String → TrustFailure → TrustValidator → TrustValidator
mark_by_state VisitState.invalid id failure v = v
mark_by_state _ id failure v = record v {
  states = insert id VisitState.invalid v.states;
  failures = insert id failure v.failures;
}

unfoldable pub mark_invalid : String → TrustFailure → TrustValidator → TrustValidator
unfolding mark_by_state
mark_invalid id failure v = mark_by_state (state_of v id) id failure v

unfoldable pub combine_trust_path : List String → List String → List String
combine_trust_path [] suffix = suffix
combine_trust_path (x ∷ xs) suffix = but_last (x ∷ xs) ++ suffix

-- `path.iter().position(..).unwrap_or(0)`, then `path[start..]`
unfoldable pub cycle_start : String → List String → Option (List String)
cycle_start id [] = none
cycle_start id (x ∷ xs) = if x == id then some (x ∷ xs) else cycle_start id xs

abbrev pub cycle_path : String → List String → List String
cycle_path id path = elim (cycle_start id path) [ none ↦ path | some tail ↦ tail ]

-- The loop of `cycle`: `before` holds the nodes already passed, so the path of each failure is
-- the cycle turned to begin and end at its node.
unfoldable pub mark_cycle : List String → List String → TrustValidator → TrustValidator
unfolding mark_invalid
mark_cycle before [] v = v
mark_cycle before (node ∷ nodes) v = mark_cycle (before ++ node ∷ []) nodes (
    mark_invalid node
      (record { path = (node ∷ nodes) ++ before ++ node ∷ []; reason = Reason.cycle_detected }) v)

-- How a visit ends. `out_of_fuel` is the model's own: the recursion of `visit` takes fuel.
pub data Outcome : Type 0 where
  done : Outcome
  failed : TrustValidationError → Outcome
  out_of_fuel : Outcome

abbrev pub fail : String → List String → Reason → Outcome
fail root_id path reason =
    Outcome.failed (record { root_id = root_id; path = path; reason = reason })

unfoldable pub cycle : String → String → List String → TrustValidator → TrustValidator × Outcome
unfolding mark_cycle cycle_start
cycle root_id id path v =
    let found = cycle_path id path in
    (mark_cycle [] (but_last found) v, fail root_id found Reason.cycle_detected)
