-- ===== src/Lifecycle/Approved.antt =====
-- lifecycle.rs (crates/zbrain/src): what a plan of an approval rests on.
use mathlib.Core.Path.{subst}
use zbrain.Prelude.{
  suc, String, true, false, not, ◌≡◌, refl, ap, sym, Option, List, [], ◌∷◌, ◌==◌, ok, eq_iff, arith,
  is_empty, length, if◌then◌else◌, >>=-eq-ok, >>-eq-ok, ensure, refuse_if, map_err, ensure-eq-ok,
  map_err-eq-ok,
}
use zbrain.Prelude.Sets.{contains}
use zbrain.Claims.{Claim, ClaimError, ClaimSource}
use zbrain.Claims.Validate.{validate_claim_approval}
use zbrain.Claims.Digest.{claim_verification_digest, verify_claim_digest}
use zbrain.Claims.Verified.{signed_claim_accepted}
use zbrain.Claims.Scan.{Text, Answers, Files}
use zbrain.Claims.Store.{read}
use zbrain.Lifecycle.Superseded.{IsPlanned, planned_supersession-IsPlanned}
use zbrain.Trust.{from_store, done, Outcome}
use zbrain.Trust.Root.{validate_claim_with_support}
use zbrain.Trust.Trusted.{Trusted}
use zbrain.Trust.Refusals.{read_by, accepted-Trusted}
use zbrain.Lifecycle.{
  ClaimMutationOptions, ClaimMutationPlan, Evidence, Meets, normalized, loaded_as, support_verdict,
  validate_approval_references, superseded_claims, approved_unsigned, approval_checks, signed,
  planned_supersession, prepare_approve_unlocked,
}

module _ (text : Text) (workspace : String) (evidence : Evidence) (answers : Answers)
    (files : Files) where
  -- The claims of the files, as the validator of trust.rs finds them.
  abbrev pub find_claim : String → Option Claim
  find_claim = read_by (λ id. loaded_as (read text answers files id))

  support_verdict-ok : (id : String) (o : Outcome) → support_verdict id o ≡ ok tt → o ≡ done
  unfolding support_verdict
  support_verdict-ok id o h = ground arith

  -- A claim whose references are accepted has trusted supports.
  references-Trusted :
      (claim : Claim) (s : String)
      → validate_approval_references text workspace evidence answers files claim ≡ ok tt
      → contains claim.supporting_claim_ids s ≡ true
      → Trusted text.canon evidence.validate_claim_evidence find_claim s
  unfolding validate_approval_references
  references-Trusted claim s h m =
      accepted-Trusted text.canon evidence.validate_claim_evidence
        (λ id. loaded_as (read text answers files id)) (suc (length files)) claim s m
        (support_verdict-ok claim.id _ (verdict (>>-eq-ok _ _ h).1))
    where
      has_support : is_empty claim.supporting_claim_ids ≡ false
      has_support = ground arith

      verdict :
          (if is_empty claim.supporting_claim_ids
              then ok tt
              else support_verdict claim.id
                  (validate_claim_with_support text.canon evidence.validate_claim_evidence
                    (suc (length files))
                    claim
                    (from_store (λ id. loaded_as (read text answers files id)))).1)
            ≡ ok tt
          → support_verdict claim.id
              (validate_claim_with_support text.canon evidence.validate_claim_evidence
                (suc (length files))
                claim
                (from_store (λ id. loaded_as (read text answers files id)))).1
            ≡ ok tt
      verdict e = ground (arith, has_support)

  -- Every superseded claim was read as approved, with its digest.
  abbrev pub AllSuperseded : List String → List Claim → Type 0
  AllSuperseded [] [] = Unit
  AllSuperseded [] (old ∷ olds) = ⊥
  AllSuperseded (id ∷ ids) [] = ⊥
  AllSuperseded (id ∷ ids) (old ∷ olds) =
      ((read text answers files id ≡ ok old)
        × (old.status ≡ "approved")
        × (verify_claim_digest text.canon old ≡ ok tt))
      × AllSuperseded ids olds

  superseded_parts :
      (seen : List String) (id : String) (ids : List String) (olds : List Claim)
      → superseded_claims text workspace answers files seen (id ∷ ids) ≡ ok olds
      → (old : Claim) × (others : List Claim) × (read text answers files id ≡ ok old)
        × (old.status ≡ "approved")
        × (verify_claim_digest text.canon old ≡ ok tt)
        × (superseded_claims text workspace answers files (id ∷ seen) ids ≡ ok others)
        × (old ∷ others ≡ olds)
  unfolding superseded_claims
  superseded_parts seen id ids olds h =
      let (fresh, h1) =
        >>-eq-ok (refuse_if (contains seen id) (ClaimError.superseded_twice id)) _ h in
      let (old, r, h2) = >>=-eq-ok (read text answers files id) _ h1 in
      let (a, h3) =
        >>-eq-ok (ensure (old.status == "approved") (ClaimError.not_supersedable id)) _ h2 in
      let (v, h4) =
        >>-eq-ok
          (map_err (ClaimError.superseded_unverified id) (verify_claim_digest text.canon old)) _
          h3 in
      let (others, rest, h5) =
        >>=-eq-ok (superseded_claims text workspace answers files (id ∷ seen) ids) _ h4 in
      (
        old,
        others,
        r,
        (eq_iff old.status "approved").0 (ensure-eq-ok (old.status == "approved") _ a),
        map_err-eq-ok (ClaimError.superseded_unverified id) (verify_claim_digest text.canon old) v,
        rest,
        cc h5,
      )

  superseded_claims-ok :
      (seen ids : List String) (olds : List Claim)
      → superseded_claims text workspace answers files seen ids ≡ ok olds
      → AllSuperseded ids olds
  unfolding superseded_claims
  superseded_claims-ok seen [] [] h = tt
  superseded_claims-ok seen [] (old ∷ olds) h = cc h
  superseded_claims-ok seen (id ∷ ids) [] h =
      let (o, others, r, a, v, rest, same) = superseded_parts seen id ids [] h in cc same
  superseded_claims-ok seen (id ∷ ids) (old ∷ olds) h =
      let (o, others, r, a, v, rest, same) = superseded_parts seen id ids (old ∷ olds) h in
      let first : o ≡ old = cc same in
      let tail : others ≡ olds = cc same in
      (
        (
          cc (r, first),
          cc (a, first),
          subst (λ x. verify_claim_digest text.canon x ≡ ok tt) first v,
        ),
        superseded_claims-ok (id ∷ seen) ids olds (cc (rest, tail)),
      )

module _ (text : Text) (workspace : String) (evidence : Evidence) (meets : Meets) (files : Files)
    (id : String) where
  -- A plan that approves a claim, and what was found of the claim before.
  pub record IsApproval (plan : ClaimMutationPlan) : Type 0 where
    pub draft : Claim
    pub old_claims : List Claim
    pub was_read : read text meets.answers files id ≡ ok draft
    pub was_draft : draft.status ≡ "draft"
    pub was_approvable : validate_claim_approval text.chrono draft ≡ ok tt
    pub supports_trusted :
        (s : String)
        → contains draft.supporting_claim_ids s ≡ true
        → Trusted text.canon evidence.validate_claim_evidence
            (find_claim text workspace evidence meets.answers files)
            s
    pub supersedes_approved :
        AllSuperseded text workspace evidence meets.answers files draft.supersedes old_claims
    pub planned : IsPlanned text plan.claim old_claims plan.pending
    pub is_approved : plan.claim.status ≡ "approved"
    pub is_verified : verify_claim_digest text.canon plan.claim ≡ ok tt
    pub keeps_id : plan.claim.id ≡ draft.id
    pub keeps_body : plan.claim.body ≡ draft.body
    pub keeps_supports : plan.claim.supporting_claim_ids ≡ draft.supporting_claim_ids

  approval_checks-ok :
      (c : Claim × List ClaimSource × List Claim)
      → approval_checks text workspace evidence meets files id ≡ ok c
      → (read text meets.answers files id ≡ ok c.0)
        × (c.0.status ≡ "draft")
        × (validate_claim_approval text.chrono c.0 ≡ ok tt)
        × (validate_approval_references text workspace evidence meets.answers files c.0 ≡ ok tt)
        × (superseded_claims text workspace meets.answers files [] c.0.supersedes ≡ ok c.2)
  unfolding approval_checks
  approval_checks-ok c h = ground (arith, eq_iff c.0.status "draft")

  signed-ok :
      (claim s : Claim)
      → signed text workspace claim ≡ ok s
      → (digest : String) × (claim_verification_digest text.canon claim ≡ ok digest)
        × (s ≡ record claim { verified_digest = digest })
  unfolding signed
  signed-ok claim s h = ground arith

  abbrev Parts : ClaimMutationPlan → Type 0
  Parts plan =
      (options : ClaimMutationOptions) × (c : Claim × List ClaimSource × List Claim)
      × (approval_checks text workspace evidence meets files id ≡ ok c)
      × (signed text workspace (
            approved_unsigned text workspace c.0 options (text.chrono.rfc3339 meets.now) c.1
              (not (is_empty c.2)))
          ≡ ok plan.claim)
      × (planned_supersession text workspace meets files plan.claim options
            (text.chrono.rfc3339 meets.now) c.2
          ≡ ok plan.pending)

  prepare_approve-ok :
      (given : ClaimMutationOptions) (plan : ClaimMutationPlan)
      → prepare_approve_unlocked text workspace evidence meets files id given ≡ ok plan
      → Parts plan
  unfolding prepare_approve_unlocked
  prepare_approve-ok given plan h =
      let (options, n, h1) = >>=-eq-ok (normalized given) _ h in
      let (c, checked, h2) =
        >>=-eq-ok (approval_checks text workspace evidence meets files id) _ h1 in
      let (claim, sign, h3) =
        >>=-eq-ok
          (signed text workspace (
            approved_unsigned text workspace c.0 options (text.chrono.rfc3339 meets.now) c.1
              (not (is_empty c.2))))
          _ h2 in
      let (pending, planned, h4) =
        >>=-eq-ok
          (planned_supersession text workspace meets files claim options
            (text.chrono.rfc3339 meets.now) c.2)
          _ h3 in
      let same : record { claim = claim; pending = pending } ≡ plan = cc h4 in
      subst (λ (p : ClaimMutationPlan). Parts p) same (options, c, checked, sign, planned)

  -- A plan that approves a claim: the claim was read as a draft that passes the approval check, its
  -- supports are trusted, and what it supersedes was read as approved with its digest; and the claim
  -- of the plan is approved, has the digest of its text, and keeps id, body and supports of the draft.
  -- Where nothing is superseded there is nothing to journal; else the plan journals the new claim and
  -- each old one, marked as superseded by it, at their paths, with the hashes of their texts.
  pub prepare_approve-IsApproval :
      (given : ClaimMutationOptions) (plan : ClaimMutationPlan)
      → prepare_approve_unlocked text workspace evidence meets files id given ≡ ok plan
      → IsApproval plan
  unfolding approved_unsigned
  prepare_approve-IsApproval given plan h =
      let (options, c, checked, sign, planned) = prepare_approve-ok given plan h in
      let (was_read, was_draft, approvable, references, supersedes) =
        approval_checks-ok c checked in
      let claim =
        approved_unsigned text workspace c.0 options (text.chrono.rfc3339 meets.now) c.1
          (not (is_empty c.2)) in
      let (digest, computed, same) = signed-ok claim plan.claim sign in
      record {
        draft = c.0;
        old_claims = c.2;
        was_read = was_read;
        was_draft = was_draft;
        was_approvable = approvable;
        supports_trusted = λ s m.
            references-Trusted text workspace evidence meets.answers files c.0 s references m;
        supersedes_approved =
            superseded_claims-ok text workspace evidence meets.answers files [] c.0.supersedes c.2
              supersedes;
        planned =
            planned_supersession-IsPlanned text workspace meets files plan.claim options
              (text.chrono.rfc3339 meets.now) c.2 plan.pending planned;
        is_approved = ap (λ (x : Claim). x.status) same;
        is_verified =
            subst (λ x. verify_claim_digest text.canon x ≡ ok tt) (sym same)
              (signed_claim_accepted text.canon claim digest claim.verified_at claim.verified_by
                computed refl);
        keeps_id = ap (λ (x : Claim). x.id) same;
        keeps_body = ap (λ (x : Claim). x.body) same;
        keeps_supports = ap (λ (x : Claim). x.supporting_claim_ids) same;
      }
