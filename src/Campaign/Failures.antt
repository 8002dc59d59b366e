-- ===== src/Campaign/Failures.antt =====
-- campaign.rs (crates/zbrain/src): submissions that fail.
use zbrain.Prelude.{String, false, ◌≡◌, ◌≢◌, refl, is_ok}
use zbrain.Prelude.Int.{ℤ}
use zbrain.Prelude.Assoc.{Assoc}
use zbrain.Prelude.Effects.{Write, Outcome, after_checks_outcome, after_step_outcome}
use zbrain.Claims.{Claim}
use zbrain.Campaign.{CampaignError, CampaignRun}
use zbrain.Campaign.Store.{
  Crates, ClaimDrafts, Call, Desk, Submitting, write_campaign_run_unlocked, write_run_checks,
  publish_run, submit_checks, submitted_run, record_submission, submit_campaign_draft, on_claims,
  on_runs,
}

module _ (crates : Crates) where
  publish_run-failed :
      (w : Write) (run : CampaignRun) (runs : Assoc crates.Json)
      → w ≢ Write.published_then_failed
      → is_ok (publish_run crates w run runs).1 ≡ false
      → (publish_run crates w run runs).0 ≡ runs
  unfolding publish_run
  publish_run-failed Write.published run runs whole h = cc h
  publish_run-failed Write.unpublished run runs whole h = refl
  publish_run-failed Write.published_then_failed run runs whole h = absurd (whole refl)

  write_run-failed :
      (call : Call) (run : CampaignRun) (runs : Assoc crates.Json)
      → call.write ≢ Write.published_then_failed
      → is_ok (write_campaign_run_unlocked crates call run runs).1 ≡ false
      → (write_campaign_run_unlocked crates call run runs).0 ≡ runs
  unfolding write_campaign_run_unlocked
  write_run-failed call run runs whole =
      after_checks_outcome
        (λ (o : Outcome (Assoc crates.Json) CampaignError (Unit {0})).
          is_ok o.1 ≡ false → o.0 ≡ runs)
        runs (write_run_checks crates call run) _ (λ e refused h. refl)
        λ u checked. publish_run-failed call.write run runs whole

  module _ (claims : ClaimDrafts) where
    -- The outcome is no failure that has changed the run files.
    abbrev pub IsWhole :
        {A : Type 0} → Assoc crates.Json → Outcome (Desk crates claims) CampaignError A → Type 0
    IsWhole runs outcome = is_ok outcome.1 ≡ false → outcome.0.runs ≡ runs

    record_submission-IsWhole :
        (call : Call) (run_id : String) (s : Submitting) (desk : Desk crates claims)
        (created : Claim)
        → call.write ≢ Write.published_then_failed
        → IsWhole desk.runs (record_submission crates claims call run_id s desk created)
    unfolding record_submission on_runs
    record_submission-IsWhole call run_id s desk created whole =
        after_step_outcome (IsWhole desk.runs)
          (on_runs crates claims desk (
            write_campaign_run_unlocked crates call
              (submitted_run crates call.submitted_now s created.id) desk.runs))
          _
          (λ e refused h.
            write_run-failed call (submitted_run crates call.submitted_now s created.id) desk.runs
              whole (rw refused refl))
          λ u done h. cc h

    -- A submission that fails, for whatever reason but a write that fails after it has published,
    -- leaves every run file as it was, also when the claim could not be written.
    pub submit_failed :
        (call : Call) (answers : claims.Answers) (run_id : String) (index : ℤ) (body : String)
        (desk : Desk crates claims)
        → call.write ≢ Write.published_then_failed
        → is_ok (submit_campaign_draft crates claims call answers run_id index body desk).1 ≡ false
        → (submit_campaign_draft crates claims call answers run_id index body desk).0.runs
          ≡ desk.runs
    unfolding submit_campaign_draft on_claims
    submit_failed call answers run_id index body desk whole =
        after_checks_outcome (IsWhole desk.runs) desk
          (submit_checks crates call run_id index body desk.runs) _ (λ e refused h. refl)
          λ s e.
            after_step_outcome (IsWhole desk.runs)
              (on_claims crates claims _ desk (claims.recover answers desk.claims)) _
              (λ e refused h. refl)
              λ u done.
                after_step_outcome (IsWhole desk.runs)
                  (on_claims crates claims CampaignError.claim_refused recovered
                    (claims.write_draft answers s.claim recovered.claims))
                  _ (λ e refused h. refl)
                  λ created wrote. record_submission-IsWhole call run_id s _ created whole
      where
        recovered : Desk crates claims
        recovered = record desk { claims = (claims.recover answers desk.claims).0 }
