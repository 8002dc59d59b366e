-- ===== src/Lifecycle/Changed.antt =====
-- lifecycle.rs (crates/zbrain/src): revocations and migrations of single claims.
use mathlib.Core.Path.{subst}
use zbrain.Prelude.{
  ap, sym, ◌∙◌, Option, some, [], ◌∷◌, ◌++◌, err, if◌then◌else◌, String, Bool, true, false, not,
  ◌≡◌, refl, none, ◌==◌, Result, ok, eq_iff, arith, if_cases, is_ok, >>=-eq-ok, >>-eq-ok, refuse_if,
  ensure, map_err, ensure-eq-ok, refuse_if-eq-ok, map_err-eq-ok,
}
use zbrain.Prelude.Text.{is_blank, trim}
use zbrain.Claims.{Claim, ClaimError, ClaimTransition, ClaimTransitionAuthorization, okf_claim_type}
use zbrain.Claims.Validate.{validate_claim_transition_authorization}
use zbrain.Trust.Visit.{Rule}
use zbrain.Trust.Trusted.{Trusted, Find}
use zbrain.Claims.Digest.{verify_claim_digest}
use zbrain.Claims.Scan.{Text, Files}
use zbrain.Claims.Store.{read}
use zbrain.Lifecycle.{
  ClaimMutationOptions, ClaimMutationPlan, Meets, normalized, revoked, prepare_revoke_unlocked,
  migrate_legacy_claim,
}

module _ (text : Text) (workspace : String) where
  -- A revocation of a claim: the claim as it was read, and what its plan changes and keeps.
  pub record IsRevocation (meets : Meets) (files : Files) (id reason : String)
      (given : ClaimMutationOptions) (plan : ClaimMutationPlan) : Type 0 where
    pub claim : Claim
    pub transition : ClaimTransition
    pub was_read : read text meets.answers files id ≡ ok claim
    pub was_approved : claim.status ≡ "approved"
    pub was_verified : verify_claim_digest text.canon claim ≡ ok tt
    pub has_reason : is_blank reason ≡ false
    pub authorized : validate_claim_transition_authorization given.authorization ≡ ok tt
    pub is_revoked : plan.claim.status ≡ "revoked"
    pub keeps : record plan.claim { status = claim.status; transitions = claim.transitions } ≡ claim
    pub added : plan.claim.transitions ≡ claim.transitions ++ transition ∷ []
    pub has_kind : transition.kind ≡ "revoke"
    pub has_time : transition.at ≡ text.chrono.rfc3339 meets.now
    pub by_default : is_blank given.verified_by ≡ true → transition.by ≡ "owner"
    pub by_given : is_blank given.verified_by ≡ false → transition.by ≡ trim given.verified_by
    pub gives_reason : transition.reason ≡ trim reason
    pub names : transition.related_claim_ids ≡ id ∷ []
    pub prior : transition.prior_verification_digest ≡ claim.verified_digest
    pub by_authorization : transition.authorization ≡ given.authorization
    pub no_journal : plan.pending ≡ none
    pub supports_none :
        (validate : Rule) (find : Find) (s : String)
        → find s ≡ some plan.claim
        → Trusted text.canon validate find s
        → ⊥

  -- What is found as a claim that is not approved is not trusted.
  not_approved-not_Trusted :
      {validate : Rule} {find : Find} {s : String} (claim : Claim)
      → claim.status ≡ "revoked"
      → find s ≡ some claim
      → Trusted text.canon validate find s
      → ⊥
  not_approved-not_Trusted claim is_revoked found (Trusted.trusted {id = s} c e p below) =
      apart (sym p.approved ∙ ap status_of (sym e ∙ found) ∙ is_revoked)
    where
      status_of : Option Claim → String
      status_of (some x) = x.status
      status_of none = ""

      apart : ◌≡◌ {A = String} "approved" "revoked" → ⊥
      apart e = cc e

  normalized-parts :
      (given options : ClaimMutationOptions)
      → normalized given ≡ ok options
      → (validate_claim_transition_authorization given.authorization ≡ ok tt)
        × (options.authorization ≡ given.authorization)
        × (is_blank given.verified_by ≡ true → options.verified_by ≡ "owner")
        × (is_blank given.verified_by ≡ false → options.verified_by ≡ trim given.verified_by)
  unfolding normalized
  normalized-parts given options h =
      let (a, h1) = >>-eq-ok (validate_claim_transition_authorization given.authorization) _ h in
      let by : options.verified_by
          ≡ (if is_blank given.verified_by then "owner" else trim given.verified_by) =
        ap by_of (sym h1) in
      (a, ap authorization_of (sym h1), (λ b. by ∙ rw b refl), (λ b. by ∙ rw b refl))
    where
      by_of : Result ClaimError ClaimMutationOptions → String
      by_of (ok o) = o.verified_by
      by_of (err e) = ""

      authorization_of :
          Result ClaimError ClaimMutationOptions → Option ClaimTransitionAuthorization
      authorization_of (ok o) = o.authorization
      authorization_of (err e) = none

  -- When a revocation is planned, it has a reason and a valid authorization or none, and the claim was read
  -- as approved and with its digest. The claim of the plan is the one read, but its status is revoked and it
  -- has one more transition, a revocation at the time of the plan by the given name or else by the owner,
  -- with the reason trimmed, the id, the digest that the claim had and the authorization. Nothing is
  -- journalled, and where the claim of the plan is found, whatever the rule and the store, it is not trusted.
  pub prepare_revoke-IsRevocation :
      (meets : Meets) (files : Files) (id reason : String) (given : ClaimMutationOptions)
      (plan : ClaimMutationPlan)
      → prepare_revoke_unlocked text workspace meets files id reason given ≡ ok plan
      → IsRevocation meets files id reason given plan
  unfolding prepare_revoke_unlocked revoked
  prepare_revoke-IsRevocation meets files id reason given plan h =
      let (options, n, h1) = >>=-eq-ok (normalized given) _ h in
      let (claim, r, h2) = >>=-eq-ok (read text meets.answers files id) _ h1 in
      let (b, h3) = >>-eq-ok (refuse_if (is_blank reason) ClaimError.revoke_reason_required) _ h2 in
      let (a, h4) =
        >>-eq-ok (ensure (claim.status == "approved") (ClaimError.not_revocable id)) _ h3 in
      let (v, h5) =
        >>-eq-ok
          (map_err (ClaimError.unverified_before_revoke id) (verify_claim_digest text.canon claim))
          _ h4 in
      let (authorized, by_authorization, by_default, by_given) = normalized-parts given options n in
      let made : ClaimMutationPlan = record {
        claim = revoked text workspace claim options (text.chrono.rfc3339 meets.now) id reason;
        pending = none;
      } in
      let same : made ≡ plan = cc h5 in
      subst (IsRevocation meets files id reason given) same (record {
        claim = claim;
        transition = record {
          kind = "revoke";
          at = text.chrono.rfc3339 meets.now;
          by = options.verified_by;
          reason = trim reason;
          related_claim_ids = id ∷ [];
          prior_verification_digest = claim.verified_digest;
          authorization = options.authorization;
        };
        was_read = r;
        was_approved =
            (eq_iff claim.status "approved").0 (ensure-eq-ok (claim.status == "approved") _ a);
        was_verified =
            map_err-eq-ok (ClaimError.unverified_before_revoke id)
              (verify_claim_digest text.canon claim) v;
        has_reason = refuse_if-eq-ok (is_blank reason) _ b;
        authorized = authorized;
        is_revoked = refl;
        keeps = refl;
        added = refl;
        has_kind = refl;
        has_time = refl;
        by_default = by_default;
        by_given = by_given;
        gives_reason = refl;
        names = refl;
        prior = refl;
        by_authorization = by_authorization;
        no_journal = refl;
        supports_none = λ validate find s e t. not_approved-not_Trusted made.claim refl e t;
      })

  -- What a migration makes of a claim: the new envelope, the same id and body, a claim approved only if
  -- it was and its digest still fits, and one that is marked for approval only where it is now a draft.
  pub record IsMigration (given : Claim) (result : Claim × Bool) : Type 0 where
    pub new_schema : result.0.schema ≡ ""
    pub new_type : result.0.claim_type ≡ okf_claim_type
    pub keeps_id : result.0.id ≡ given.id
    pub keeps_body : result.0.body ≡ given.body
    pub verified : verify_claim_digest text.canon result.0 ≡ ok tt
    pub approved_before : result.0.status ≡ "approved" → given.status ≡ "approved"
    pub demoted : result.1 ≡ true → result.0.status ≡ "draft"

  verify_draft :
      (claim : Claim)
      → (claim.status == "approved") ≡ false
      → verify_claim_digest text.canon claim ≡ ok tt
  unfolding verify_claim_digest
  verify_draft claim h = rw h refl

  is_ok_unit : (r : Result ClaimError (Unit {0})) → is_ok r ≡ true → r ≡ ok tt
  is_ok_unit r h = ground arith

  -- A migrated claim is an OKF claim with the id and the body that it had, its digest is accepted, it is
  -- approved only if it was, and where it is to be approved again it is a draft.
  pub migrate_legacy_claim-IsMigration :
      (given : Claim) → IsMigration given (migrate_legacy_claim text workspace given)
  unfolding migrate_legacy_claim
  migrate_legacy_claim-IsMigration given =
      if_cases (IsMigration given) (not (given.status == "approved"))
        (λ d. record {
          new_schema = refl;
          new_type = refl;
          keeps_id = refl;
          keeps_body = refl;
          verified = verify_draft envelope (ground arith);
          approved_before = λ e. e;
          demoted = λ e. cc e;
        })
        (λ a.
          if_cases (IsMigration given) (is_ok (verify_claim_digest text.canon envelope))
            (λ v. record {
              new_schema = refl;
              new_type = refl;
              keeps_id = refl;
              keeps_body = refl;
              verified = is_ok_unit (verify_claim_digest text.canon envelope) v;
              approved_before = λ e. e;
              demoted = λ e. cc e;
            })
            (λ v. record {
              new_schema = refl;
              new_type = refl;
              keeps_id = refl;
              keeps_body = refl;
              verified =
                  verify_draft
                    (record envelope {
                      status = "draft";
                      verified_at = "";
                      verified_by = "";
                      verified_digest = "";
                    })
                    refl;
              approved_before = λ e. cc e;
              demoted = λ e. refl;
            }))
    where
      envelope : Claim
      envelope = record given { schema = ""; claim_type = okf_claim_type }
