-- ===== src/Campaign/Store.antt =====
-- campaign.rs (crates/zbrain/src): the operations of `CampaignStore` on the run files of a workspace.
use zbrain.Prelude.{
  ℕ, String, Bool, ◌≡◌, Option, none, some, List, [], ◌∷◌, ◌==◌, map, Result, ok, err, ◌>>=◌, ◌>>◌,
  ensure, refuse_if, or_fail, map_err, is_empty, set, get_elem?,
}
use zbrain.Prelude.Int.{ℤ, pos, negsuc}
use zbrain.Prelude.Assoc.{Assoc, get, insert}
use zbrain.Prelude.Effects.{Write, Outcome, after_checks, after_step}
use zbrain.Clock.{Chrono, Time}
use zbrain.Ids.{is_campaign_run_id}
use zbrain.Ids.Generated.{new_claim_id, new_campaign_run_id}
use zbrain.Claims.{Claim, ClaimError, empty_claim, okf_claim_type, claim_rel_path}
use zbrain.Campaign.{
  CampaignSpec, CampaignDraft, CampaignRun, CampaignState, CampaignSubmission, CampaignError, Check,
  Probes, campaign_schema_version, phase_drafting, phase_finished, status_pending, status_submitted,
  validate_specs, validate_campaign_run_file, campaign_state_from_run,
}

-- The crates: chrono, and serde_json with the derived codec. The newline that a file ends with is
-- part of the codec.
pub record Crates : Type 1 where
  pub Json : Type 0
  pub chrono : Chrono
  pub encode : CampaignRun → Json
  pub decode : Json → Option CampaignRun
  pub decode-encode : (run : CampaignRun) → decode (encode run) ≡ some run

-- What a submission uses of the claims of the workspace: the recovery of a pending transition, and
-- `write_draft_unlocked`.
pub record ClaimDrafts : Type 1 where
  pub Claims : Type 0
  pub Answers : Type 0
  pub recover : Answers → Claims → Outcome Claims CampaignError (Unit {0})
  pub write_draft : Answers → Claim → Claims → Outcome Claims ClaimError Claim
  pub write_draft-id :
      (answers : Answers) (claim : Claim) (claims : Claims) (created : Claim)
      → (write_draft answers claim claims).1 ≡ ok created
      → (created.id ≡ claim.id) × (created.status ≡ "draft")

-- What one call meets: the times, the random source, and the answers of the file system.
pub record Call : Type 0 where
  pub now : Time
  pub submitted_now : Time
  pub random : Option (List ℕ)
  pub spec_probes : Probes
  pub read_probes : Probes
  pub write_probes : Probes
  pub is_locked : Bool
  pub is_safe_path : String → Bool
  pub is_readable : String → Bool
  pub directory_made : Bool
  pub write : Write

unfoldable pub pending_draft : CampaignSpec → CampaignDraft
pending_draft spec = record {
  spec = spec;
  status = status_pending;
  claim_id = "";
  submitted_at = "";
}

unfoldable pub submitted_draft : CampaignDraft → String → String → CampaignDraft
submitted_draft draft id at = record draft {
  status = status_submitted;
  claim_id = id;
  submitted_at = at;
}

-- `index < 0 || index as usize >= run.drafts.len()`, and the index and the draft otherwise
unfoldable pub draft_at : ℤ → List CampaignDraft → Option (ℕ × CampaignDraft)
draft_at (negsuc n) drafts = none
draft_at (pos n) drafts = elim (get_elem? drafts n) [ none ↦ none | some draft ↦ some (n, draft) ]

-- The check of `finish_campaign`.
unfoldable pub check_none_pending : String → List CampaignDraft → Check
check_none_pending run_id [] = ok tt
check_none_pending run_id (draft ∷ drafts) = do
  refuse_if (draft.status == status_pending) (CampaignError.still_pending run_id)
  check_none_pending run_id drafts

-- What a submission has settled before it changes anything.
pub record Submitting : Type 0 where
  pub run : CampaignRun
  pub index : ℕ
  pub draft : CampaignDraft
  pub claim : Claim

module _ (crates : Crates) where
  unfoldable pub campaign_run_path : Call → String → Check
  campaign_run_path call run_id = do
    ensure (is_campaign_run_id run_id) CampaignError.run_id_invalid
    ensure (call.is_safe_path run_id) CampaignError.path_refused

  unfoldable pub read_campaign_run_unlocked :
      Call → String → Assoc crates.Json → Result CampaignError CampaignRun
  read_campaign_run_unlocked call run_id runs = do
    campaign_run_path call run_id
    ensure (call.is_readable run_id) CampaignError.path_refused
    contents ← or_fail (get runs run_id) (CampaignError.run_not_found run_id)
    run ← or_fail (crates.decode contents) (CampaignError.run_malformed run_id)
    map_err (λ e. CampaignError.run_malformed run_id)
        (validate_campaign_run_file crates.chrono call.read_probes run run_id)
    ok run

  unfoldable pub write_run_checks : Call → CampaignRun → Check
  write_run_checks call run = do
    map_err CampaignError.run_invalid
        (validate_campaign_run_file crates.chrono call.write_probes run run.run_id)
    campaign_run_path call run.run_id
    ensure call.directory_made CampaignError.directory_failed

  unfoldable pub publish_run :
      Write → CampaignRun → Assoc crates.Json → Outcome (Assoc crates.Json) CampaignError (Unit {0})
  publish_run Write.published run runs = (insert run.run_id (crates.encode run) runs, ok tt)
  publish_run Write.unpublished run runs = (runs, err CampaignError.write_failed)
  publish_run Write.published_then_failed run runs =
      (insert run.run_id (crates.encode run) runs, err CampaignError.write_failed)

  unfoldable pub write_campaign_run_unlocked :
      Call → CampaignRun → Assoc crates.Json → Outcome (Assoc crates.Json) CampaignError (Unit {0})
  write_campaign_run_unlocked call run runs =
      after_checks runs (write_run_checks call run) (λ checked. publish_run call.write run runs)

  unfoldable pub new_run : Time → String → List CampaignSpec → CampaignRun
  new_run now run_id specs = record {
    schema = campaign_schema_version;
    run_id = run_id;
    phase = phase_drafting;
    created_at = crates.chrono.rfc3339 now;
    updated_at = crates.chrono.rfc3339 now;
    drafts = map pending_draft specs;
  }

  unfoldable pub begin_checks : Call → List CampaignSpec → Result CampaignError CampaignRun
  begin_checks call specs = do
    refuse_if (is_empty specs) CampaignError.specs_required
    validate_specs crates.chrono call.spec_probes 0 specs
    random ← or_fail call.random CampaignError.random_unavailable
    ensure call.is_locked CampaignError.lock_refused
    ok (new_run call.now (new_campaign_run_id random) specs)

  unfoldable pub begin_campaign :
      Call
      → List CampaignSpec
      → Assoc crates.Json
      → Outcome (Assoc crates.Json) CampaignError CampaignRun
  begin_campaign call specs runs = after_checks runs (begin_checks call specs) (λ run.
      after_step (write_campaign_run_unlocked call run runs) (λ runs_now done. (runs_now, ok run)))

  unfoldable pub resume_campaign :
      Call → String → Assoc crates.Json → Result CampaignError CampaignState
  resume_campaign call run_id runs = do
    ensure call.is_locked CampaignError.lock_refused
    run ← read_campaign_run_unlocked call run_id runs
    ok (campaign_state_from_run run)

  -- `state.run.drafts[index]` is inside the list, as is proved of the states of runs.
  unfoldable pub draft_of_state :
      String → ℤ → CampaignState → Result CampaignError (ℕ × CampaignSpec)
  draft_of_state run_id (negsuc n) state = err (CampaignError.no_pending_drafts run_id)
  draft_of_state run_id (pos index) state = elim (get_elem? state.run.drafts index) [
    | none ↦ err (CampaignError.index_out_of_range (pos index))
    | some draft ↦ ok (index, draft.spec)
  ]

  unfoldable pub next_campaign_draft :
      Call → String → Assoc crates.Json → Result CampaignError (ℕ × CampaignSpec)
  next_campaign_draft call run_id runs = do
    state ← resume_campaign call run_id runs
    draft_of_state run_id state.next_index state

  unfoldable pub draft_claim : CampaignSpec → List ℕ → Time → String → Claim
  draft_claim spec random now body = record empty_claim {
    claim_type = okf_claim_type;
    id = new_claim_id random;
    tier = spec.tier;
    status = "draft";
    title = spec.title;
    basis = spec.basis;
    created_at = crates.chrono.rfc3339 now;
    created_by = "owner:mcp";
    evidence_ids = spec.evidence_ids;
    supporting_claim_ids = spec.supporting_claim_ids;
    conflicts_with = spec.conflicts_with;
    body = body;
  }

  unfoldable pub submit_checks :
      Call → String → ℤ → String → Assoc crates.Json → Result CampaignError Submitting
  submit_checks call run_id index body runs = do
    ensure call.is_locked CampaignError.lock_refused
    run ← read_campaign_run_unlocked call run_id runs
    ensure (run.phase == phase_drafting) (CampaignError.not_drafting run.phase)
    found ← or_fail (draft_at index run.drafts) (CampaignError.index_out_of_range index)
    ensure (found.1.status == status_pending) (CampaignError.draft_not_pending found.1.status)
    random ← or_fail call.random CampaignError.random_unavailable
    ok (record {
      run = run;
      index = found.0;
      draft = found.1;
      claim = draft_claim found.1.spec random call.now body;
    })

  unfoldable pub submitted_run : Time → Submitting → String → CampaignRun
  submitted_run at s id = record s.run {
    updated_at = crates.chrono.rfc3339 at;
    drafts = set s.run.drafts s.index (submitted_draft s.draft id (crates.chrono.rfc3339 at));
  }

  unfoldable pub submission : String → Submitting → Claim → CampaignRun → CampaignSubmission
  submission run_id s created run = record {
    run_id = run_id;
    index = s.index;
    claim_id = created.id;
    claim_path = claim_rel_path created;
    claim_status = created.status;
    state = campaign_state_from_run run;
  }

  unfoldable pub finish_checks :
      Call → String → Assoc crates.Json → Result CampaignError CampaignRun
  finish_checks call run_id runs = do
    ensure call.is_locked CampaignError.lock_refused
    run ← read_campaign_run_unlocked call run_id runs
    check_none_pending run_id run.drafts
    ok (record run { phase = phase_finished; updated_at = crates.chrono.rfc3339 call.now })

  unfoldable pub finish_campaign :
      Call → String → Assoc crates.Json → Outcome (Assoc crates.Json) CampaignError CampaignRun
  finish_campaign call run_id runs = after_checks runs (finish_checks call run_id runs) (λ run.
      after_step (write_campaign_run_unlocked call run runs) (λ runs_now done. (runs_now, ok run)))

  module _ (drafts : ClaimDrafts) where
    -- The run files, and the claims of the workspace.
    pub record Desk : Type 0 where
      pub runs : Assoc crates.Json
      pub claims : drafts.Claims

    -- A step on the claims alone.
    unfoldable pub on_claims :
        {E A : Type 0}
        → (E → CampaignError)
        → Desk
        → Outcome drafts.Claims E A
        → Outcome Desk CampaignError A
    on_claims refusal desk step = (record desk { claims = step.0 }, map_err refusal step.1)

    -- A step on the run files alone.
    unfoldable pub on_runs :
        {A : Type 0}
        → Desk
        → Outcome (Assoc crates.Json) CampaignError A
        → Outcome Desk CampaignError A
    on_runs desk step = (record desk { runs = step.0 }, step.1)

    unfoldable pub record_submission :
        Call → String → Submitting → Desk → Claim → Outcome Desk CampaignError CampaignSubmission
    record_submission call run_id s desk created =
        let run = submitted_run call.submitted_now s created.id in
        after_step (on_runs desk (write_campaign_run_unlocked call run desk.runs))
          (λ desk_now done. (desk_now, ok (submission run_id s created run)))

    unfoldable pub submit_campaign_draft :
        Call
        → drafts.Answers
        → String
        → ℤ
        → String
        → Desk
        → Outcome Desk CampaignError CampaignSubmission
    submit_campaign_draft call answers run_id index body desk =
        after_checks desk (submit_checks call run_id index body desk.runs) (λ s.
          after_step (on_claims (λ e. e) desk (drafts.recover answers desk.claims))
            (λ recovered done.
              after_step
                (on_claims CampaignError.claim_refused recovered
                  (drafts.write_draft answers s.claim recovered.claims))
                (record_submission call run_id s)))
