-- ===== src/Campaign.antt =====
-- campaign.rs (crates/zbrain/src): runs of claim drafts, the checks of a run file and its counts.
pub mod Counts
pub mod Resume
pub mod Ledger
pub mod Refines
pub mod History
pub mod Failures
pub mod Drafts
pub mod Store
use zbrain.Prelude.{
  ℕ, suc, ◌+◌, String, Bool, true, false, not, ◌&&◌, ◌||◌, none, some, List, [], ◌∷◌, ◌==◌, Option,
  Result, ok, err, ◌>>=◌, ◌>>◌, ensure, refuse_if, or_fail, map_err, is_empty, if◌then◌else◌,
}
use zbrain.Prelude.Int.{ℤ, pos, negsuc, lt_int}
use zbrain.Prelude.Sets.{contains}
use zbrain.Clock.{Chrono}
use zbrain.Ids.{is_claim_id, is_campaign_run_id}
use zbrain.Ids.Generated.{new_claim_id}
use zbrain.Claims.{Claim, ClaimError, empty_claim, okf_claim_type}
use zbrain.Claims.Validate.{validate_claim, is_time}

pub record CampaignSpec : Type 0 where
  pub tier : String
  pub title : String
  pub basis : String
  pub evidence_ids : List String
  pub supporting_claim_ids : List String
  pub conflicts_with : List String

pub record CampaignDraft : Type 0 where
  pub spec : CampaignSpec
  pub status : String
  pub claim_id : String
  pub submitted_at : String

pub record CampaignRun : Type 0 where
  pub schema : String
  pub run_id : String
  pub phase : String
  pub created_at : String
  pub updated_at : String
  pub drafts : List CampaignDraft

pub record CampaignState : Type 0 where
  pub run : CampaignRun
  pub pending : ℕ
  pub submitted : ℕ
  pub superseded_by_owner : ℕ
  pub next_index : ℤ

pub record CampaignSubmission : Type 0 where
  pub run_id : String
  pub index : ℕ
  pub claim_id : String
  pub claim_path : String
  pub claim_status : String
  pub state : CampaignState

-- The messages of the campaign's errors, each with the values that it prints.
pub data CampaignError : Type 0 where
  specs_required random_unavailable lock_refused : CampaignError
  spec_refused : ℕ → CampaignError → CampaignError
  spec_invalid : ClaimError → CampaignError
  schema_invalid run_id_mismatch phase_unsupported : String → CampaignError
  created_at_invalid updated_at_invalid drafts_required finished_with_pending : CampaignError
  pending_with_metadata claim_id_required submitted_at_invalid : ℕ → CampaignError
  claim_recorded_twice : String → CampaignError
  status_unsupported : ℕ → String → CampaignError
  run_id_invalid path_refused directory_failed write_failed : CampaignError
  run_not_found run_malformed : String → CampaignError
  run_invalid : CampaignError → CampaignError
  not_drafting : String → CampaignError
  index_out_of_range : ℤ → CampaignError
  draft_not_pending : String → CampaignError
  no_pending_drafts still_pending : String → CampaignError
  recovery_failed : CampaignError
  claim_refused : ClaimError → CampaignError

abbrev pub Check : Type 0
Check = Result CampaignError (Unit {0})

abbrev pub campaign_schema_version : String
campaign_schema_version = "zbrain.campaign/v1"

abbrev pub phase_drafting : String
phase_drafting = "drafting"

abbrev pub phase_finished : String
phase_finished = "finished"

abbrev pub status_pending : String
status_pending = "pending"

abbrev pub status_submitted : String
status_submitted = "submitted"

abbrev pub status_superseded_by_owner : String
status_superseded_by_owner = "superseded-by-owner"

-- What the random source answers, once for each probe of a spec.
abbrev pub Probes : Type 0
Probes = ℕ → Option (List ℕ)

module _ (chrono : Chrono) where
  unfoldable pub probe_claim : CampaignSpec → List ℕ → Claim
  probe_claim spec random = record empty_claim {
    claim_type = okf_claim_type;
    id = new_claim_id random;
    tier = spec.tier;
    status = "draft";
    title = spec.title;
    basis = spec.basis;
    created_at = "2026-01-01T00:00:00Z";
    created_by = "campaign";
    evidence_ids = spec.evidence_ids;
    supporting_claim_ids = spec.supporting_claim_ids;
    conflicts_with = spec.conflicts_with;
    body = "campaign spec";
  }

  unfoldable pub validate_campaign_spec : Option (List ℕ) → CampaignSpec → Check
  validate_campaign_spec random spec = do
    bytes ← or_fail random CampaignError.random_unavailable
    map_err CampaignError.spec_invalid (validate_claim chrono (probe_claim spec bytes))

  -- The loop of `begin_campaign`, with `enumerate`'s index.
  unfoldable pub validate_specs : Probes → ℕ → List CampaignSpec → Check
  validate_specs probes index [] = ok tt
  validate_specs probes index (spec ∷ specs) = do
    map_err (CampaignError.spec_refused index) (validate_campaign_spec (probes index) spec)
    validate_specs probes (suc index) specs

  -- The match on a draft's status; it returns the claims seen.
  unfoldable pub validate_draft :
      ℕ → List String → CampaignDraft → Result CampaignError (List String)
  validate_draft index seen draft =
      if draft.status == status_pending
      then (do
        ensure (draft.claim_id == "" && draft.submitted_at == "")
            (CampaignError.pending_with_metadata index)
        ok seen)
      else if draft.status == status_submitted || draft.status == status_superseded_by_owner
      then (do
        ensure (is_claim_id draft.claim_id) (CampaignError.claim_id_required index)
        ensure (is_time chrono draft.submitted_at) (CampaignError.submitted_at_invalid index)
        refuse_if (contains seen draft.claim_id) (CampaignError.claim_recorded_twice draft.claim_id)
        ok (draft.claim_id ∷ seen))
      else err (CampaignError.status_unsupported index draft.status)

  -- The loop over the drafts; it returns `pending_seen`.
  unfoldable pub validate_drafts :
      Probes → ℕ → List String → Bool → List CampaignDraft → Result CampaignError Bool
  validate_drafts probes index seen pending_seen [] = ok pending_seen
  validate_drafts probes index seen pending_seen (draft ∷ drafts) = do
    seen_now ← validate_draft index seen draft
    map_err (CampaignError.spec_refused index) (validate_campaign_spec (probes index) draft.spec)
    validate_drafts probes (suc index) seen_now (draft.status == status_pending || pending_seen)
        drafts

  -- The checks before the loop.
  unfoldable pub validate_run_head : CampaignRun → String → Check
  validate_run_head run expected_run_id = do
    ensure (run.schema == campaign_schema_version) (CampaignError.schema_invalid run.schema)
    ensure (is_campaign_run_id run.run_id && run.run_id == expected_run_id)
        (CampaignError.run_id_mismatch run.run_id)
    ensure (run.phase == phase_drafting || run.phase == phase_finished)
        (CampaignError.phase_unsupported run.phase)
    ensure (is_time chrono run.created_at) CampaignError.created_at_invalid
    ensure (is_time chrono run.updated_at) CampaignError.updated_at_invalid
    refuse_if (is_empty run.drafts) CampaignError.drafts_required

  unfoldable pub validate_campaign_run_file : Probes → CampaignRun → String → Check
  validate_campaign_run_file probes run expected_run_id = do
    validate_run_head run expected_run_id
    pending_seen ← validate_drafts probes 0 [] false run.drafts
    refuse_if (run.phase == phase_finished && pending_seen) CampaignError.finished_with_pending

-- One draft in the loop of `campaign_state_from_run`.
unfoldable pub count_draft : ℕ → CampaignDraft → CampaignState → CampaignState
count_draft index draft state =
    if draft.status == status_pending
    then record state {
      pending = state.pending + 1;
      next_index = if lt_int state.next_index (pos 0) then pos index else state.next_index;
    }
    else if draft.status == status_submitted
    then record state { submitted = state.submitted + 1 }
    else if draft.status == status_superseded_by_owner
    then record state { superseded_by_owner = state.superseded_by_owner + 1 }
    else state

unfoldable pub count_drafts : ℕ → List CampaignDraft → CampaignState → CampaignState
count_drafts index [] state = state
count_drafts index (draft ∷ drafts) state =
    count_drafts (suc index) drafts (count_draft index draft state)

unfoldable pub campaign_state_from_run : CampaignRun → CampaignState
campaign_state_from_run run = count_drafts 0 run.drafts (record {
  run = run;
  pending = 0;
  submitted = 0;
  superseded_by_owner = 0;
  next_index = negsuc 0;
})
