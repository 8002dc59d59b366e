-- ===== src/Lifecycle.antt =====
-- lifecycle.rs (crates/zbrain/src): the plans of approvals, supersessions, revocations and migrations.
pub mod Commit
pub mod Superseded
pub mod Approved
pub mod References
pub mod Changed
pub mod Committed
pub mod Settled
use zbrain.Prelude.{
  ℕ, suc, String, Bool, true, false, not, Option, none, some, List, [], ◌∷◌, ◌++◌, ◌==◌, Result, ok,
  err, ◌>>=◌, ◌>>◌, ensure, refuse_if, or_fail, map_err, is_empty, is_ok, length, if◌then◌else◌,
}
use zbrain.Prelude.Assoc.{get}
use zbrain.Prelude.Sets.{contains}
use zbrain.Prelude.Text.{trim, is_blank}
use zbrain.Clock.{Time}
use zbrain.Ids.Generated.{new_pending_transition_id}
use zbrain.Claims.{
  Claim, ClaimSource, ClaimError, ClaimTransition, ClaimTransitionAuthorization,
  claim_schema_version, okf_claim_type,
}
use zbrain.Claims.Validate.{validate_claim_approval, validate_claim_transition_authorization}
use zbrain.Claims.Digest.{claim_verification_digest, claim_canonical_digest, verify_claim_digest}
use zbrain.Claims.Scan.{Text, Answers, Files}
use zbrain.Claims.Store.{read, claim_file_path}
use zbrain.Transition.{PendingTransition, PendingTransitionTarget, transition_sha256}
use zbrain.Trust.{
  TrustValidator, Loaded, loaded, not_found, unreadable, from_store, Outcome, done, failed,
  out_of_fuel,
}
use zbrain.Trust.Root.{validate_claim_with_support}
use zbrain.Claims

pub record ClaimMutationOptions : Type 0 where
  pub verified_by : String
  pub authorization : Option ClaimTransitionAuthorization

pub record ClaimMutationPlan : Type 0 where
  pub claim : Claim
  pub pending : Option PendingTransition

-- What a plan asks evidence.rs: whether a claim's evidence holds, and the source of an evidence id.
pub record Evidence : Type 0 where
  pub validate_claim_evidence : Claim → Result String (Unit {0})
  pub claim_source : String → Result ClaimError ClaimSource

-- What one plan meets: the time, the random source and the answers of the file system.
pub record Meets : Type 0 where
  pub now : Time
  pub random : Option (List ℕ)
  pub answers : Answers

unfoldable pub normalized : ClaimMutationOptions → Result ClaimError ClaimMutationOptions
normalized options = do
  validate_claim_transition_authorization options.authorization
  ok (record options {
    verified_by = if is_blank options.verified_by then "owner" else trim options.verified_by;
  })

-- `ClaimStore::read`, as the validator loads claims
unfoldable pub loaded_as : Result ClaimError Claim → Loaded
loaded_as (ok claim) = loaded claim
loaded_as (err Claims.not_found) = not_found
loaded_as (err e) = unreadable e

unfoldable pub support_verdict : String → Outcome → Result ClaimError (Unit {0})
support_verdict id done = ok tt
support_verdict id _ = err (ClaimError.support_refused id)

unfoldable pub claim_sources : Evidence → List String → Result ClaimError (List ClaimSource)
claim_sources evidence [] = ok []
claim_sources evidence (id ∷ ids) = do
  source ← evidence.claim_source id
  sources ← claim_sources evidence ids
  ok (source ∷ sources)

module _ (text : Text) (workspace : String) where
  -- The validator has a step of fuel for each file, and one more.
  unfoldable pub validate_approval_references :
      Evidence → Answers → Files → Claim → Result ClaimError (Unit {0})
  validate_approval_references evidence answers files claim = do
    map_err (λ e. ClaimError.evidence_refused claim.id) (evidence.validate_claim_evidence claim)
    if is_empty claim.supporting_claim_ids
        then ok tt
        else support_verdict claim.id
            (validate_claim_with_support text.canon evidence.validate_claim_evidence
              (suc (length files)) claim
              (from_store (λ id. loaded_as (read text answers files id)))).1

  -- The loop over the superseded ids.
  unfoldable pub superseded_claims :
      Answers → Files → List String → List String → Result ClaimError (List Claim)
  superseded_claims answers files seen [] = ok []
  superseded_claims answers files seen (old_id ∷ ids) = do
    refuse_if (contains seen old_id) (ClaimError.superseded_twice old_id)
    old ← read text answers files old_id
    ensure (old.status == "approved") (ClaimError.not_supersedable old_id)
    map_err (ClaimError.superseded_unverified old_id) (verify_claim_digest text.canon old)
    others ← superseded_claims answers files (old_id ∷ seen) ids
    ok (old ∷ others)

  unfoldable pub approval_transition :
      Claim → ClaimMutationOptions → String → Bool → ClaimTransition
  approval_transition claim options at replaces = record {
    kind = if replaces then "supersede" else "approve";
    at = at;
    by = options.verified_by;
    reason = "";
    related_claim_ids = claim.supersedes;
    prior_verification_digest = "";
    authorization = options.authorization;
  }

  -- The approved claim before its digest is computed.
  unfoldable pub approved_unsigned :
      Claim → ClaimMutationOptions → String → List ClaimSource → Bool → Claim
  approved_unsigned claim options at sources replaces = record claim {
    schema = "";
    claim_type = okf_claim_type;
    status = "approved";
    sources = sources;
    verified_at = at;
    verified_by = options.verified_by;
    verified_digest = "";
    transitions = claim.transitions ++ approval_transition claim options at replaces ∷ [];
  }

  unfoldable pub superseded : Claim → ClaimMutationOptions → String → Claim → Claim
  superseded replacement options at old = record old {
    status = "superseded";
    transitions =
        old.transitions
        ++ record {
          kind = "supersede";
          at = at;
          by = options.verified_by;
          reason = "";
          related_claim_ids = replacement.id ∷ [];
          prior_verification_digest = old.verified_digest;
          authorization = options.authorization;
        }
          ∷ [];
  }

  abbrev pub superseded_all : Claim → ClaimMutationOptions → String → List Claim → List Claim
  superseded_all replacement options at [] = []
  superseded_all replacement options at (old ∷ olds) =
      superseded replacement options at old ∷ superseded_all replacement options at olds

  -- The loop over the claims of a supersession.
  unfoldable pub supersession_targets :
      Answers → Files → List Claim → Result ClaimError (List PendingTransitionTarget)
  supersession_targets answers files [] = ok []
  supersession_targets answers files (claim ∷ claims) = do
    path ← claim_file_path text answers claim
    contents ← text.canon.render_claim_markdown claim
    preimage ← or_fail (get files path) ClaimError.preimage_unreadable
    ensure (answers.is_readable path) ClaimError.preimage_unreadable
    targets ← supersession_targets answers files claims
    ok (
        record {
          path = path;
          preimage_sha256 = transition_sha256 text.journals.sha256 preimage;
          target_sha256 = transition_sha256 text.journals.sha256 contents;
          target_bytes = contents;
        }
        ∷ targets)

  unfoldable pub pending_supersession :
      Meets → Files → Claim → List Claim → Result ClaimError PendingTransition
  pending_supersession meets files replacement old_claims = do
    ensure meets.answers.is_workspace ClaimError.boundary_refused
    random ← or_fail meets.random ClaimError.random_unavailable
    targets ← supersession_targets meets.answers files (replacement ∷ old_claims)
    ok (record {
      operation_id = new_pending_transition_id random;
      kind = "supersede";
      workspace = workspace;
      targets = targets;
    })

  -- What a draft is checked for before its approval, and the claims that it supersedes.
  unfoldable pub approval_checks :
      Evidence → Meets → Files → String → Result ClaimError (Claim × List ClaimSource × List Claim)
  approval_checks evidence meets files id = do
    claim ← read text meets.answers files id
    ensure (claim.status == "draft") (ClaimError.not_approvable id)
    validate_claim_approval text.chrono claim
    validate_approval_references evidence meets.answers files claim
    sources ← claim_sources evidence claim.evidence_ids
    old_claims ← superseded_claims meets.answers files [] claim.supersedes
    ok (claim, sources, old_claims)

  unfoldable pub signed : Claim → Result ClaimError Claim
  signed claim = do
    digest ← claim_verification_digest text.canon claim
    ok (record claim { verified_digest = digest })

  unfoldable pub planned_supersession :
      Meets
      → Files
      → Claim
      → ClaimMutationOptions
      → String
      → List Claim
      → Result ClaimError (Option PendingTransition)
  planned_supersession meets files claim options at [] = ok none
  planned_supersession meets files claim options at (old ∷ olds) = do
    pending ← pending_supersession meets files claim (superseded_all claim options at (old ∷ olds))
    ok (some pending)

  unfoldable pub prepare_approve_unlocked :
      Evidence → Meets → Files → String → ClaimMutationOptions → Result ClaimError ClaimMutationPlan
  prepare_approve_unlocked evidence meets files id given = do
    options ← normalized given
    checked ← approval_checks evidence meets files id
    let at = text.chrono.rfc3339 meets.now
    claim ← signed (approved_unsigned checked.0 options at checked.1 (not (is_empty checked.2)))
    pending ← planned_supersession meets files claim options at checked.2
    ok (record { claim = claim; pending = pending })

  unfoldable pub revoked : Claim → ClaimMutationOptions → String → String → String → Claim
  revoked claim options at id reason = record claim {
    status = "revoked";
    transitions =
        claim.transitions
        ++ record {
          kind = "revoke";
          at = at;
          by = options.verified_by;
          reason = trim reason;
          related_claim_ids = id ∷ [];
          prior_verification_digest = claim.verified_digest;
          authorization = options.authorization;
        }
          ∷ [];
  }

  unfoldable pub prepare_revoke_unlocked :
      Meets → Files → String → String → ClaimMutationOptions → Result ClaimError ClaimMutationPlan
  prepare_revoke_unlocked meets files id reason given = do
    options ← normalized given
    claim ← read text meets.answers files id
    refuse_if (is_blank reason) ClaimError.revoke_reason_required
    ensure (claim.status == "approved") (ClaimError.not_revocable id)
    map_err (ClaimError.unverified_before_revoke id) (verify_claim_digest text.canon claim)
    ok (record {
      claim = revoked claim options (text.chrono.rfc3339 meets.now) id reason;
      pending = none;
    })

  unfoldable pub canonical_digest_unlocked :
      Answers → Files → String → Result ClaimError (Claim × String)
  canonical_digest_unlocked answers files id = do
    claim ← read text answers files id
    digest ← map_err ClaimError.digest_failed (claim_canonical_digest text.canon claim)
    ok (claim, digest)

  -- The migrated claim, and whether it has to be approved again.
  unfoldable pub migrate_legacy_claim : Claim → Claim × Bool
  migrate_legacy_claim given =
      let claim = record given { schema = ""; claim_type = okf_claim_type } in
      if not (claim.status == "approved")
      then (claim, false)
      else if is_ok (verify_claim_digest text.canon claim)
      then (claim, false)
      else (
        record claim { status = "draft"; verified_at = ""; verified_by = ""; verified_digest = "" },
        true,
      )
