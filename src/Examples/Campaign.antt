-- ===== src/Examples/Campaign.antt =====
-- A campaign of two drafts, one submitted.
use zbrain.Prelude.Effects.{Write}
use zbrain.Prelude.{
  String, true, false, ◌≡◌, ◌≢◌, refl, ◌↔◌, none, some, Result, List, [], ◌∷◌, ok, get_elem?, is_ok,
}
use zbrain.Prelude.Int.{pos}
use zbrain.Prelude.Assoc.{Assoc, get, insert}
use zbrain.Prelude.Text.{trim, trim_start, trim_end, is_whitespace, strip_prefix}
use zbrain.Ids.{
  is_claim_id, is_evidence_id, is_challenge_id, is_campaign_run_id, is_lower_hex, has_id_prefix,
}
use zbrain.Ids.Generated.{hex_lower, hex_digit, new_claim_id, new_campaign_run_id}
use zbrain.Claims.{
  Claim, ClaimError, claim_rel_path, is_known_wiki_tier, is_known_claim_status,
  is_known_claim_basis, is_known_heuristic, is_known_transition_kind,
}
use zbrain.Claims.Validate.{
  validate_claim, validate_claim_head, validate_claim_references, validate_claim_transition,
  validate_claim_transition_authorization, validate_claim_transitions, validate_contradiction,
  validate_related, validate_source, validate_span, validate_transitions_from,
  validate_verification,
}
use zbrain.Campaign.{
  CampaignSpec, CampaignDraft, CampaignRun, CampaignSubmission, campaign_state_from_run,
  probe_claim, validate_campaign_spec, validate_specs, validate_draft, validate_drafts,
  validate_run_head, validate_campaign_run_file, count_draft, count_drafts,
}
use zbrain.Campaign.Store.{
  Crates, ClaimDrafts, Call, Desk, resume_campaign, next_campaign_draft, submit_campaign_draft,
  pending_draft, submitted_draft, draft_at, check_none_pending, campaign_run_path,
  read_campaign_run_unlocked, write_run_checks, publish_run, write_campaign_run_unlocked, new_run,
  begin_checks, begin_campaign, draft_of_state, draft_claim, submit_checks, submitted_run,
  submission, finish_checks, finish_campaign, on_claims, on_runs, record_submission,
}
use zbrain.Campaign.Counts.{IsFirstPending}
use zbrain.Campaign.Resume.{IsCounted, resume-IsCounted, next_draft_exact}
use zbrain.Campaign.Ledger.{Ledger, ledger_of}
use zbrain.Campaign.Refines.{Keeps, Advances}
use zbrain.Campaign.History.{
  Op, begin_op, submit_op, finish_op, AvoidsRun, run_ops, run_ops-refines, submit_once,
}
use zbrain.Campaign.Failures.{submit_failed}
use zbrain.Examples.Worlds.{clock, random_bytes, strokes}

abbrev crates : Crates
crates = record {
  Json = CampaignRun;
  chrono = clock;
  encode = λ run. run;
  decode = some;
  decode-encode = λ run. refl;
}

abbrev taken : Claim → Result ClaimError Claim
taken claim = ok (record claim { status = "draft" })

draft_kept :
    (claim created : Claim)
    → taken claim ≡ ok created
    → (created.id ≡ claim.id) × (created.status ≡ "draft")
draft_kept claim created e = (cc e, cc e)

-- A store of claims that takes every draft.
abbrev drafts : ClaimDrafts
drafts = record {
  Claims = List Claim;
  Answers = Unit;
  recover = λ answers claims. (claims, ok tt);
  write_draft = λ answers claim claims. (record claim { status = "draft" } ∷ claims, taken claim);
  write_draft-id = λ answers claim claims created e. draft_kept claim created e;
}

abbrev run_id : String
run_id = "cmp_00000000000000000000000000000000"

abbrev spec_named : String → CampaignSpec
spec_named title = record {
  tier = "decisions";
  title = title;
  basis = "owner";
  evidence_ids = [];
  supporting_claim_ids = [];
  conflicts_with = [];
}

abbrev draft_named : String → CampaignDraft
draft_named title = record {
  spec = spec_named title;
  status = "pending";
  claim_id = "";
  submitted_at = "";
}

abbrev run : CampaignRun
run = record {
  schema = "zbrain.campaign/v1";
  run_id = run_id;
  phase = "drafting";
  created_at = "IT";
  updated_at = "IT";
  drafts = draft_named "one" ∷ draft_named "two" ∷ [];
}

abbrev call : Call
call = record {
  now = 5_000_000_000;
  submitted_now = 6_000_000_000;
  random = some random_bytes;
  spec_probes = λ n. some random_bytes;
  read_probes = λ n. some random_bytes;
  write_probes = λ n. some random_bytes;
  is_locked = true;
  is_safe_path = λ id. true;
  is_readable = λ id. true;
  directory_made = true;
  write = Write.published;
}

abbrev runs : Assoc CampaignRun
runs = (run_id, run) ∷ []

abbrev desk : Desk crates drafts
desk = record { runs = runs; claims = [] }

program : Unit {0}
unfolding get insert trim trim_start trim_end is_whitespace strip_prefix is_claim_id is_evidence_id
    is_challenge_id is_campaign_run_id is_lower_hex has_id_prefix hex_lower hex_digit new_claim_id
    new_campaign_run_id is_known_wiki_tier is_known_claim_status is_known_claim_basis
    is_known_heuristic is_known_transition_kind validate_claim validate_claim_head
    validate_claim_references validate_claim_transition validate_claim_transition_authorization
    validate_claim_transitions validate_contradiction validate_related validate_source validate_span
    validate_transitions_from validate_verification probe_claim validate_campaign_spec
    validate_specs validate_draft validate_drafts validate_run_head validate_campaign_run_file
    count_draft count_drafts campaign_state_from_run pending_draft submitted_draft draft_at
    check_none_pending campaign_run_path read_campaign_run_unlocked write_run_checks publish_run
    write_campaign_run_unlocked new_run begin_checks begin_campaign resume_campaign draft_of_state
    next_campaign_draft draft_claim submit_checks submitted_run submission finish_checks
    finish_campaign on_claims on_runs record_submission submit_campaign_draft claim_rel_path
program = tt

resumes : resume_campaign crates call run_id runs ≡ ok (campaign_state_from_run run)
unfolding program
resumes = refl

resume-IsCounted_example : IsCounted crates call run_id runs (campaign_state_from_run run)
resume-IsCounted_example =
    resume-IsCounted crates call run_id runs (campaign_state_from_run run) resumes

next_draft_exact_example :
    (next_campaign_draft crates call run_id runs ≡ ok (0, spec_named "one")) ↔ (
      (draft : CampaignDraft) × IsFirstPending (campaign_state_from_run run).run.drafts 0 draft
      × (draft.spec ≡ spec_named "one"))
next_draft_exact_example =
    next_draft_exact crates call run_id runs (campaign_state_from_run run) 0 (spec_named "one")
      resumes

kept : Keeps crates runs run_id (ledger_of run)
unfolding get
kept = record { contents = run; run = run; stored = refl; decoded = refl; views = refl }

abbrev ops : List (Op drafts)
ops =
    begin_op (record call { random = none }) (spec_named "three" ∷ [])
    ∷ submit_op call tt run_id (pos 0) "First."
    ∷ finish_op call run_id
    ∷ []

avoids :
    AvoidsRun {claims = drafts} run_id
      (begin_op (record call { random = none }) (spec_named "three" ∷ []))
avoids random drawn same = cc drawn

run_ops-refines_example :
    Advances crates run_id (ledger_of run) (run_ops crates drafts ops desk).runs
run_ops-refines_example =
    run_ops-refines crates drafts ops run_id (ledger_of run) desk (avoids, (tt, (tt, tt))) kept

abbrev submitted : CampaignSubmission
submitted = record {
  run_id = run_id;
  index = 0;
  claim_id = "clm_070000000000000000000000000000ff";
  claim_path = "decisions/clm_070000000000000000000000000000ff.md";
  claim_status = "draft";
  state = record {
    run = record run {
      updated_at = "IIIIIIT";
      drafts =
          record (draft_named "one") {
            status = "submitted";
            claim_id = "clm_070000000000000000000000000000ff";
            submitted_at = "IIIIIIT";
          }
          ∷ draft_named "two"
          ∷ [];
    };
    pending = 1;
    submitted = 1;
    superseded_by_owner = 0;
    next_index = pos 1;
  };
}

submits :
    (submit_campaign_draft crates drafts call tt run_id (pos 0) "First." desk).1 ≡ ok submitted
unfolding program strokes
submits = refl

submit_once_example :
    ((l : Ledger) × (spec : CampaignSpec) × Keeps crates
        (run_ops crates drafts ops
          (submit_campaign_draft crates drafts call tt run_id (pos 0) "First." desk).0).runs
        run_id
        l
      × (get_elem? l.slots 0 ≡ some (spec, some "clm_070000000000000000000000000000ff")))
    × (is_ok
          (submit_campaign_draft crates drafts call tt run_id (pos 0) "Again." (
            run_ops crates drafts ops
              (submit_campaign_draft crates drafts call tt run_id (pos 0) "First." desk).0)).1
        ≡ false)
submit_once_example =
    submit_once crates drafts call call tt tt run_id (pos 0) "First." "Again." ops desk submitted
      (avoids, (tt, (tt, tt))) submits

whole : Write.published ≢ Write.published_then_failed
whole e = cc e

out_of_range :
    is_ok (submit_campaign_draft crates drafts call tt run_id (pos 7) "None." desk).1 ≡ false
unfolding program
out_of_range = refl

submit_failed_example :
    (submit_campaign_draft crates drafts call tt run_id (pos 7) "None." desk).0.runs ≡ runs
submit_failed_example =
    submit_failed crates drafts call tt run_id (pos 7) "None." desk whole out_of_range
