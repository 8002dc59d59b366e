-- ===== src/Lifecycle/References.antt =====
-- lifecycle.rs (crates/zbrain/src): exactly when the references of a claim are accepted.
use zbrain.Prelude.{
  suc, ◌<◌, ◌↔◌, String, true, ◌≡◌, refl, Option, none, some, List, [], ◌∷◌, Result, ok, err, arith,
  is_empty, length, if_cases, >>-eq-ok, map_err, map_err-eq-ok,
}
use zbrain.Prelude.Sets.{contains}
use zbrain.Ids.{is_claim_id}
use zbrain.Claims.{Claim, ClaimError}
use zbrain.Claims.Scan.{Text, Answers, Files}
use zbrain.Claims.Store.{read}
use zbrain.Claims.Found.{readable_ids, readable_ids_le, read-readable}
use zbrain.Trust.{from_store, done, Outcome, loaded, not_found, unreadable}
use zbrain.Trust.Root.{validate_claim_with_support}
use zbrain.Trust.Exact.{IsStored}
use zbrain.Trust.Validated.{SupportsTrusted}
use zbrain.Trust.Refusals.{store_validation_exact}
use zbrain.Lifecycle.{Evidence, loaded_as, support_verdict, validate_approval_references}
use zbrain.Lifecycle.Approved.{find_claim}

module _ (text : Text) (workspace : String) (evidence : Evidence) (answers : Answers)
    (files : Files) where
  abbrev find : String → Option Claim
  find = find_claim text workspace evidence answers files

  found_by :
      (r : Result ClaimError Claim) (c : Claim)
      → elim (loaded_as r) [ loaded c ↦ some c | not_found ↦ none | unreadable e ↦ none ] ≡ some c
      → (d : Claim) × (r ≡ ok d)
  unfolding loaded_as
  found_by (ok d) c h = (d, refl)
  found_by (err e) c h = ground arith

  found-readable :
      (j : String) (c : Claim)
      → find j ≡ some c
      → contains (readable_ids text answers files) j ≡ true
  found-readable j c h =
      let (d, r) = found_by (read text answers files j) c h in
      read-readable text answers files j d r

  few_ids : length (readable_ids text answers files) < suc (length files)
  few_ids = omega (arith, readable_ids_le text answers files)

  no_supports :
      (claim : Claim) → is_empty claim.supporting_claim_ids ≡ true → claim.supporting_claim_ids ≡ []
  no_supports claim h = by claim.supporting_claim_ids h
    where
      by : (ids : List String) → is_empty ids ≡ true → ids ≡ []
      by [] e = refl
      by (id ∷ ids) e = cc e

  trusted_by_none :
      (claim : Claim)
      → is_empty claim.supporting_claim_ids ≡ true
      → SupportsTrusted text.canon evidence.validate_claim_evidence find claim
  trusted_by_none claim h =
      let none_there = no_supports claim h in
      record {
        sound = rw none_there (record { safe = λ s m. cc m; single = refl });
        all_trusted = λ s m. absurd (ground (arith, none_there));
      }

  verdict_exact : (id : String) (o : Outcome) → (support_verdict id o ≡ ok tt) ↔ (o ≡ done)
  unfolding support_verdict
  verdict_exact id o = ((λ h. ground arith), (λ h. rw h refl))

  -- The references of a claim with a safe id, which is stored with the same supports or not at all, are
  -- accepted exactly when its evidence holds, its supports are safe and distinct, and every claim in their
  -- closure is read, approved, has its digest and its evidence, and has safe, distinct supports.
  pub references_exact :
      (claim : Claim)
      → is_claim_id claim.id ≡ true
      → IsStored find claim
      → (validate_approval_references text workspace evidence answers files claim ≡ ok tt) ↔ (
          (evidence.validate_claim_evidence claim ≡ ok tt)
          × SupportsTrusted text.canon evidence.validate_claim_evidence find claim)
  unfolding validate_approval_references
  references_exact claim safe stored = (
    (λ h.
        let (e, h1) =
          >>-eq-ok
            (map_err (λ x. ClaimError.evidence_refused claim.id)
              (evidence.validate_claim_evidence claim))
            _ h in
        (
          map_err-eq-ok (λ x. ClaimError.evidence_refused claim.id)
              (evidence.validate_claim_evidence claim) e,
          if_cases
              (λ (r : Result ClaimError (Unit {0})).
                r ≡ ok tt → SupportsTrusted text.canon evidence.validate_claim_evidence find claim)
              (is_empty claim.supporting_claim_ids)
              (λ none_there r. trusted_by_none claim none_there)
              (λ some_there r. exact.0 ((verdict_exact claim.id _).0 r)) h1,
        )),
    (λ p. rw p.0 (
        if_cases (λ (r : Result ClaimError (Unit {0})). r ≡ ok tt)
          (is_empty claim.supporting_claim_ids) (λ none_there. refl)
          (λ some_there. (verdict_exact claim.id _).1 (exact.1 p.1)))),
  )
    where
      exact :
          ((validate_claim_with_support text.canon evidence.validate_claim_evidence
              (suc (length files))
              claim
              (from_store (λ id. loaded_as (read text answers files id)))).1
            ≡ done)
          ↔ SupportsTrusted text.canon evidence.validate_claim_evidence find claim
      exact =
          store_validation_exact text.canon evidence.validate_claim_evidence
            (λ id. loaded_as (read text answers files id)) (readable_ids text answers files)
            (suc (length files)) claim found-readable few_ids stored safe
