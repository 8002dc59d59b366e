-- ===== src/Approval/Apply/Planned.antt =====
-- approval.rs (crates/zbrain/src): what a challenge binds of its claim, and the plan that carries it out.
use mathlib.Core.Path.{subst}
use zbrain.Prelude.{
  List, [], ◌∷◌, ◌⊎◌, inl, inr, false, ◌||◌, Bool-cases, if_cases, Result, String, true, ◌≡◌, refl,
  ap, sym, ◌∙◌, ◌==◌, ok, arith, eq_iff, >>=-eq-ok, >>-eq-ok, ensure, refuse_if, map_err,
  ensure-eq-ok, map_err-eq-ok,
}
use zbrain.Prelude.Text.{is_blank}
use zbrain.Claims.{Claim, ClaimError}
use zbrain.Claims.Digest.{claim_canonical_digest}
use zbrain.Claims.Store.{Workspace, read}
use zbrain.Prelude.Sort.{sort}
use zbrain.Claims.Scan.{Text, Answers}
use zbrain.Claims.Scan as Wiki
use zbrain.Lifecycle.{
  ClaimMutationOptions, ClaimMutationPlan, Evidence, Meets, canonical_digest_unlocked,
}
use zbrain.Lifecycle.Approved.{IsApproval, prepare_approve-IsApproval}
use zbrain.Lifecycle.Changed.{IsRevocation, prepare_revoke-IsRevocation}
use zbrain.Lifecycle.Settled.{IsSettled, IsOnFile, commit_approve-IsSettled, commit_revoke-IsOnFile}
use zbrain.Lifecycle.Commit.{Encounter}
use zbrain.Approval.{Challenge}
use zbrain.Approval.Ceremony.{Crates}
use zbrain.Approval.Apply.{
  ApplyError, same_strings, by_claim, validate_challenge_against_claim, check_bound,
  plan_by_operation, commit_by_operation,
}

module _ (text : Text) (crates : Crates) (workspace : String) where
  same_strings-eq : (left right : List String) → same_strings left right ≡ true → left ≡ right
  unfolding same_strings
  same_strings-eq [] [] h = refl
  same_strings-eq [] (r ∷ right) h = cc h
  same_strings-eq (l ∷ left) [] h = cc h
  same_strings-eq (l ∷ left) (r ∷ right) h =
      let first : l ≡ r = ground (arith, eq_iff l r) in
      let rest : left ≡ right = same_strings-eq left right (ground arith) in cc (first, rest)

  -- The claim that a challenge names, as it was read, has what the challenge binds.
  pub record IsBound (answers : Answers) (files : Wiki.Files) (challenge : Challenge)
      (claim : Claim) : Type 0 where
    pub was_found : read text answers files challenge.claim_id ≡ ok claim
    pub digest_bound : claim_canonical_digest text.canon claim ≡ ok challenge.canonical_draft_digest
    pub superseded_bound : sort challenge.superseded_ids ≡ sort claim.supersedes

  canonical_digest-parts :
      (answers : Answers) (files : Wiki.Files) (id : String) (current : Claim × String)
      → canonical_digest_unlocked text workspace answers files id ≡ ok current
      → (read text answers files id ≡ ok current.0)
        × (claim_canonical_digest text.canon current.0 ≡ ok current.1)
  unfolding canonical_digest_unlocked
  canonical_digest-parts answers files id current h =
      let (claim, r, h1) = >>=-eq-ok (read text answers files id) _ h in
      let (digest, d, h2) =
        >>=-eq-ok (map_err ClaimError.digest_failed (claim_canonical_digest text.canon claim)) _
          h1 in
      let same : (claim, digest) ≡ current = cc h2 in
      subst
        (λ (c : Claim × String).
          (read text answers files id ≡ ok c.0) × (claim_canonical_digest text.canon c.0 ≡ ok c.1))
        same (r, map_err-eq-ok ClaimError.digest_failed _ d)

  pub check_bound-IsBound :
      (answers : Answers) (files : Wiki.Files) (challenge : Challenge)
      → check_bound text crates workspace answers files challenge ≡ ok tt
      → (claim : Claim) × IsBound answers files challenge claim
  unfolding check_bound validate_challenge_against_claim
  check_bound-IsBound answers files challenge h =
      let (current, c, h1) =
        >>=-eq-ok
          (map_err by_claim
            (canonical_digest_unlocked text workspace answers files challenge.claim_id))
          _ h in
      let (same, h2) =
        >>-eq-ok (ensure (challenge.claim_id == current.0.id) ApplyError.claim_differs) _ h1 in
      let (given, h3) =
        >>-eq-ok
          (refuse_if (is_blank challenge.canonical_draft_digest) ApplyError.draft_digest_required) _
          h2 in
      let (bound, h4) =
        >>-eq-ok
          (ensure (challenge.canonical_draft_digest == current.1) ApplyError.draft_digest_stale) _
          h3 in
      let (listed, h5) =
        >>-eq-ok
          (ensure (same_strings (sort challenge.superseded_ids) (sort current.0.supersedes))
            ApplyError.superseded_differ)
          _ h4 in
      let fits =
        (eq_iff challenge.canonical_draft_digest current.1).0
          (ensure-eq-ok (challenge.canonical_draft_digest == current.1) _ bound) in
      let (found, digest) =
        canonical_digest-parts answers files challenge.claim_id current
          (map_err-eq-ok by_claim _ c) in
      (
        current.0,
        record {
          was_found = found;
          digest_bound = digest ∙ ap ok (sym fits);
          superseded_bound =
              same_strings-eq (sort challenge.superseded_ids) (sort current.0.supersedes)
                (ensure-eq-ok _ _ listed);
        },
      )

  -- An operation that approves, and the plans of the two kinds of operation.
  abbrev pub Approves : Challenge → Type 0
  Approves challenge = (challenge.operation ≡ "approve") ⊎ (challenge.operation ≡ "supersede")

  abbrev pub PlannedFor :
      Evidence → Meets → Wiki.Files → Challenge → ClaimMutationOptions → ClaimMutationPlan → Type 0
  PlannedFor evidence meets files challenge options plan =
      Approves challenge × IsApproval text workspace evidence meets files challenge.claim_id plan
      ⊎ (challenge.operation ≡ "revoke")
        × IsRevocation text workspace meets files challenge.claim_id challenge.revoke_reason options
            plan

  pub plan_by_operation-PlannedFor :
      (evidence : Evidence) (meets : Meets) (files : Wiki.Files) (challenge : Challenge)
      (options : ClaimMutationOptions) (plan : ClaimMutationPlan)
      → plan_by_operation text crates workspace evidence meets files challenge options ≡ ok plan
      → PlannedFor evidence meets files challenge options plan
  unfolding plan_by_operation
  plan_by_operation-PlannedFor evidence meets files challenge options plan h =
      if_cases
        (λ (r : Result ApplyError ClaimMutationPlan).
          r ≡ ok plan → PlannedFor evidence meets files challenge options plan)
        (challenge.operation == "approve" || challenge.operation == "supersede")
        (λ b r. inl (
          approves b,
          prepare_approve-IsApproval text workspace evidence meets files challenge.claim_id options
              plan (map_err-eq-ok by_claim _ r),
        ))
        (λ b r.
          if_cases
            (λ (r : Result ApplyError ClaimMutationPlan).
              r ≡ ok plan → PlannedFor evidence meets files challenge options plan)
            (challenge.operation == "revoke")
            (λ c r. inr (
              (eq_iff challenge.operation "revoke").0 c,
              prepare_revoke-IsRevocation text workspace meets files challenge.claim_id
                  challenge.revoke_reason options plan (map_err-eq-ok by_claim _ r),
            ))
            (λ c r. cc r) r)
        h
    where
      approves :
          (challenge.operation == "approve" || challenge.operation == "supersede") ≡ true
          → Approves challenge
      approves b = elim (Bool-cases (challenge.operation == "approve")) [
        | inl e ↦ inl ((eq_iff challenge.operation "approve").0 e)
        | inr e ↦ inr ((eq_iff challenge.operation "supersede").0 (ground arith))
      ]

  -- A plan that was carried out: an approval settled, or a revocation on the file of its claim.
  abbrev pub CarriedOut :
      Evidence
      → Meets
      → Wiki.Files
      → Challenge
      → ClaimMutationOptions
      → ClaimMutationPlan
      → Workspace text
      → Type 0
  CarriedOut evidence meets files challenge options plan w =
      Approves challenge
        × IsApproval text workspace evidence meets files challenge.claim_id plan
        × IsSettled text workspace plan.claim plan.pending w
      ⊎ (challenge.operation ≡ "revoke")
        × IsRevocation text workspace meets files challenge.claim_id challenge.revoke_reason options
            plan
        × IsOnFile text workspace plan.claim w

  pub commit_by_operation-CarriedOut :
      (evidence : Evidence) (encounter : Encounter) (files : Wiki.Files) (challenge : Challenge)
      (options : ClaimMutationOptions) (plan : ClaimMutationPlan) (w : Workspace text)
      (result : Claim)
      → PlannedFor evidence encounter.meets files challenge options plan
      → (commit_by_operation text crates workspace encounter challenge plan w).1 ≡ ok result
      → (result ≡ plan.claim)
        × CarriedOut evidence encounter.meets files challenge options plan
            (commit_by_operation text crates workspace encounter challenge plan w).0
  unfolding commit_by_operation
  commit_by_operation-CarriedOut evidence encounter files challenge options plan w result
        (inl (a, approval)) =
      rw (not_revoke a) (λ h.
        let (same, settled) = commit_approve-IsSettled text workspace encounter plan w result h in
        (same, inl (a, approval, settled)))
    where
      not_revoke : Approves challenge → (challenge.operation == "revoke") ≡ false
      not_revoke (inl e) = rw e refl
      not_revoke (inr e) = rw e refl
  commit_by_operation-CarriedOut evidence encounter files challenge options plan w result
        (inr (e, revocation)) =
      rw ((eq_iff challenge.operation "revoke").1 e) (λ h.
        let (same, on_file) = commit_revoke-IsOnFile text workspace encounter plan w result h in
        (same, inr (e, revocation, on_file)))
