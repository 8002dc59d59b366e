-- ===== src/Approval/Apply.antt =====
-- approval.rs (crates/zbrain/src): challenges against the claims that they are about: their making,
-- `apply_challenge`, and in Apply/Batch `apply_challenge_batch`.
pub mod Batch
pub mod Planned
pub mod Applied
pub mod Once
use zbrain.Prelude.{
  String, Bool, true, false, not, ◌&&◌, ◌||◌, Option, none, some, List, [], ◌∷◌, ◌==◌, Result, ok,
  err, ◌>>=◌, ◌>>◌, ensure, refuse_if, map_err, is_empty, if◌then◌else◌,
}
use zbrain.Prelude.Effects.{Outcome, after_checks, after_step}
use zbrain.Prelude.Sort.{sort}
use zbrain.Prelude.Text.{is_blank}
use zbrain.Claims.{Claim, ClaimError, ClaimTransitionAuthorization}
use zbrain.Claims.Digest.{verify_claim_digest}
use zbrain.Claims.Scan.{Text, Answers}
use zbrain.Claims.Scan as Wiki
use zbrain.Claims.Store.{Workspace, read}
use zbrain.Lifecycle.{
  ClaimMutationOptions, ClaimMutationPlan, Evidence, Meets, prepare_approve_unlocked,
  prepare_revoke_unlocked, canonical_digest_unlocked,
}
use zbrain.Lifecycle.Commit.{
  Encounter, recover_first, commit_approve_unlocked, commit_revoke_unlocked, locked,
}
use zbrain.Approval.{Challenge, ChallengeItem, ChallengePrepare, ChallengeError}
use zbrain.Approval.Ceremony.{
  Crates, Call, Files, empty_challenge, read_challenge, validate_token, consume, prepare,
  prepare_batch,
}

-- The messages, with what they quote beside the challenge's own id.
pub data ApplyError : Type 0 where
  by_claim : ClaimError → ApplyError
  by_challenge : ChallengeError → ApplyError
  not_owner_granted claim_differs draft_digest_required draft_digest_stale : ApplyError
  superseded_differ supersedes_on_approve prior_on_approve reason_on_approve : ApplyError
  nothing_superseded prior_stale reason_on_supersede reason_required : ApplyError
  not_draft not_approved : String → String → ApplyError
  unverified : String → ClaimError → ApplyError
  operation_unsupported : String → ApplyError
  authorization_differs not_a_batch : ApplyError

-- The challenge files and the workspace of the claims.
pub record Office (text : Text) (crates : Crates) : Type 0 where
  pub challenges : Files crates
  pub wiki : Workspace text

unfoldable pub same_strings : List String → List String → Bool
same_strings [] [] = true
same_strings (l ∷ left) (r ∷ right) = l == r && same_strings left right
same_strings _ _ = false

unfoldable pub check_authorization :
    Option ClaimTransitionAuthorization → Challenge → Result ApplyError (Unit {0})
check_authorization none challenge = ok tt
check_authorization (some authorization) challenge =
    ensure (authorization.challenge_id == challenge.id) ApplyError.authorization_differs

module _ (text : Text) (crates : Crates) (workspace : String) where
  unfoldable pub first_superseded_verification_digest :
      Answers → Wiki.Files → List String → Result ApplyError String
  first_superseded_verification_digest answers files [] = ok ""
  first_superseded_verification_digest answers files (first ∷ others) = do
    claim ← map_err by_claim (read text answers files first)
    ensure (claim.status == "approved") (ApplyError.not_approved claim.id claim.status)
    map_err (ApplyError.unverified claim.id) (verify_claim_digest text.canon claim)
    ok claim.verified_digest

  unfoldable pub check_approve : Challenge → Claim → List String → Result ApplyError (Unit {0})
  check_approve challenge claim expected_superseded = do
    ensure (claim.status == "draft") (ApplyError.not_draft claim.id claim.status)
    ensure (is_empty expected_superseded) ApplyError.supersedes_on_approve
    ensure (challenge.prior_verification_digest == "") ApplyError.prior_on_approve
    ensure (challenge.revoke_reason == "") ApplyError.reason_on_approve

  unfoldable pub check_supersede :
      Answers → Wiki.Files → Challenge → Claim → List String → Result ApplyError (Unit {0})
  check_supersede answers files challenge claim expected_superseded = do
    ensure (claim.status == "draft") (ApplyError.not_draft claim.id claim.status)
    refuse_if (is_empty expected_superseded) ApplyError.nothing_superseded
    prior ← first_superseded_verification_digest answers files expected_superseded
    ensure (challenge.prior_verification_digest == prior) ApplyError.prior_stale
    ensure (challenge.revoke_reason == "") ApplyError.reason_on_supersede

  unfoldable pub check_revoke : Challenge → Claim → Result ApplyError (Unit {0})
  check_revoke challenge claim = do
    ensure (claim.status == "approved") (ApplyError.not_approved claim.id claim.status)
    map_err (ApplyError.unverified claim.id) (verify_claim_digest text.canon claim)
    ensure (challenge.prior_verification_digest == claim.verified_digest) ApplyError.prior_stale
    refuse_if (is_blank challenge.revoke_reason) ApplyError.reason_required

  unfoldable pub check_operation :
      Answers → Wiki.Files → Challenge → Claim → List String → Result ApplyError (Unit {0})
  check_operation answers files challenge claim expected_superseded =
      if challenge.operation == "approve"
      then check_approve challenge claim expected_superseded
      else if challenge.operation == "supersede"
      then check_supersede answers files challenge claim expected_superseded
      else if challenge.operation == "revoke"
      then check_revoke challenge claim
      else err (ApplyError.operation_unsupported challenge.operation)

  unfoldable pub validate_challenge_against_claim :
      Answers → Wiki.Files → Challenge → Claim → String → Result ApplyError (Unit {0})
  validate_challenge_against_claim answers files challenge claim digest = do
    ensure (challenge.claim_id == claim.id) ApplyError.claim_differs
    refuse_if (is_blank challenge.canonical_draft_digest) ApplyError.draft_digest_required
    ensure (challenge.canonical_draft_digest == digest) ApplyError.draft_digest_stale
    ensure (same_strings (sort challenge.superseded_ids) (sort claim.supersedes))
        ApplyError.superseded_differ
    check_operation answers files challenge claim (sort claim.supersedes)

  -- The claim that a challenge is about, as it is now, against the challenge.
  unfoldable pub check_bound : Answers → Wiki.Files → Challenge → Result ApplyError (Unit {0})
  check_bound answers files challenge = do
    current ←
        map_err by_claim (canonical_digest_unlocked text workspace answers files challenge.claim_id)
    validate_challenge_against_claim answers files challenge current.0 current.1

  unfoldable pub plan_by_operation :
      Evidence
      → Meets
      → Wiki.Files
      → Challenge
      → ClaimMutationOptions
      → Result ApplyError ClaimMutationPlan
  plan_by_operation evidence meets files challenge options =
      if challenge.operation == "approve" || challenge.operation == "supersede"
      then map_err by_claim
          (prepare_approve_unlocked text workspace evidence meets files challenge.claim_id options)
      else if challenge.operation == "revoke"
      then map_err by_claim (
          prepare_revoke_unlocked text workspace meets files challenge.claim_id
            challenge.revoke_reason options)
      else err (ApplyError.operation_unsupported challenge.operation)

  -- What `apply_challenge` does before it consumes the token.
  unfoldable pub apply_checks :
      Evidence
      → Meets
      → Call
      → String
      → String
      → ClaimMutationOptions
      → Office text crates
      → Result ApplyError (Challenge × ClaimMutationPlan)
  apply_checks evidence meets call challenge_id token options office = do
    challenge ←
        map_err by_challenge (read_challenge crates workspace call challenge_id office.challenges)
    map_err by_challenge (validate_token crates workspace call.now challenge token)
    ensure challenge.granted ApplyError.not_owner_granted
    check_bound meets.answers office.wiki.files challenge
    check_authorization options.authorization challenge
    plan ← plan_by_operation evidence meets office.wiki.files challenge options
    ok (challenge, plan)

  -- A step on the claims, and one on the challenges.
  unfoldable pub on_wiki :
      {A : Type 0}
      → Office text crates
      → Outcome (Workspace text) ClaimError A
      → Outcome (Office text crates) ApplyError A
  on_wiki office step = (record office { wiki = step.0 }, map_err by_claim step.1)

  unfoldable pub on_challenges :
      {A : Type 0}
      → Office text crates
      → Outcome (Files crates) ChallengeError A
      → Outcome (Office text crates) ApplyError A
  on_challenges office step = (record office { challenges = step.0 }, map_err by_challenge step.1)

  unfoldable pub commit_by_operation :
      Encounter
      → Challenge
      → ClaimMutationPlan
      → Workspace text
      → Outcome (Workspace text) ClaimError Claim
  commit_by_operation encounter challenge plan w =
      if challenge.operation == "revoke"
      then commit_revoke_unlocked text workspace encounter plan w
      else commit_approve_unlocked text workspace encounter plan w

  -- The lock and the recovery, and an operation on what they leave.
  unfoldable pub under_lock :
      {A : Type 0}
      → Encounter
      → (Office text crates → Outcome (Office text crates) ApplyError A)
      → Office text crates
      → Outcome (Office text crates) ApplyError A
  under_lock encounter operation office =
      after_checks office (map_err by_claim (locked text workspace encounter)) (λ l.
        after_step (on_wiki office (recover_first text workspace encounter office.wiki))
          (λ recovered done. operation recovered))

  -- The consumption reads the time again, and the files.
  unfoldable pub apply_unlocked :
      Evidence
      → Encounter
      → Call
      → Call
      → String
      → String
      → ClaimMutationOptions
      → Office text crates
      → Outcome (Office text crates) ApplyError Claim
  apply_unlocked evidence encounter call consumption challenge_id token options office =
      after_checks office
        (apply_checks evidence encounter.meets call challenge_id token options office)
        (λ checked.
          after_step
            (on_challenges office
              (consume crates workspace consumption checked.0.id token office.challenges))
            (λ spent done.
              on_wiki spent (commit_by_operation encounter checked.0 checked.1 spent.wiki)))

  unfoldable pub apply_challenge :
      Evidence
      → Encounter
      → Call
      → Call
      → String
      → String
      → ClaimMutationOptions
      → Office text crates
      → Outcome (Office text crates) ApplyError Claim
  apply_challenge evidence encounter call consumption challenge_id token options =
      under_lock encounter
        (apply_unlocked evidence encounter call consumption challenge_id token options)

  -- The challenge that `prepare_challenge` checks the claim against.
  unfoldable pub probe_of : ChallengePrepare → String → Challenge
  probe_of p digest = record empty_challenge {
    workspace = workspace;
    operation = p.operation;
    claim_id = p.claim_id;
    canonical_draft_digest = digest;
    superseded_ids = p.superseded_ids;
    prior_verification_digest = p.prior_verification_digest;
    revoke_reason = p.revoke_reason;
  }

  abbrev pub or_current : String → String → String
  or_current given digest = if is_blank given then digest else given

  unfoldable pub bound_prepare :
      Answers → Wiki.Files → ChallengePrepare → Result ApplyError ChallengePrepare
  bound_prepare answers files p = do
    current ← map_err by_claim (canonical_digest_unlocked text workspace answers files p.claim_id)
    let digest = or_current p.canonical_draft_digest current.1
    validate_challenge_against_claim answers files (probe_of p digest) current.0 current.1
    ok (record p { canonical_draft_digest = digest })

  unfoldable pub prepare_challenge :
      Encounter
      → Call
      → ChallengePrepare
      → Office text crates
      → Outcome (Office text crates) ApplyError Challenge
  prepare_challenge encounter call p = under_lock encounter (λ office.
      after_checks office (bound_prepare encounter.meets.answers office.wiki.files p)
        (λ bound. on_challenges office (prepare crates workspace call bound office.challenges)))
