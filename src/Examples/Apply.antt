-- ===== src/Examples/Apply.antt =====
-- The draft of the example wiki, approved by a challenge.
use zbrain.Prelude.Assoc.{get, insert, remove}
use zbrain.Prelude.Sort.{insert_by, sort_by, sort}
use zbrain.Prelude.Text.{
  strip_prefix, is_whitespace, trim_start, trim_end, trim, has_suffix, strip_suffix,
}
use zbrain.Ids.{
  is_lower_hex, has_id_prefix, is_claim_id, is_evidence_id, is_challenge_id, is_transition_sha256,
  is_challenge_token_hash, is_sha256_digest, is_legacy_evidence_digest, is_campaign_run_id,
}
use zbrain.Ids.Generated.{
  hex_digit, hex_lower, new_claim_id, new_evidence_id, new_challenge_id, new_pending_transition_id,
  new_campaign_run_id, sha256_text,
}
use zbrain.Approval.{be_bytes, frame, join_nul, action_preimage, compute_challenge_action_digest}
use zbrain.Approval.Record.{
  check_items, normalize_challenge_items, check_decided, validate_challenge_item_decisions,
  check_superseded, check_batch, check_bound_fields, check_grant, check_state,
  validate_challenge_record, validate_prepare,
}
use zbrain.Approval.ConstantTime.{difference, constant_time_eq}
use zbrain.Approval.Ceremony.{
  challenge_path, read_challenge, publish, write_challenge, prepared, prepare_checks, prepare,
  prepared_batch, prepare_batch_checks, prepare_batch, expiry_in_time, validate_token, verify,
  granted_record, release, grant_checks, grant, grant_items_checks, grant_items, consume_checks,
  consume,
}
use zbrain.Approval.Ceremony.Decisions.{check_granted, check_skipped, check_grant_decisions}
use zbrain.Approval.Files.{run_op, run_ops}
use zbrain.Approval.Apply.{
  same_strings, check_authorization, first_superseded_verification_digest, check_approve,
  check_supersede, check_revoke, check_operation, validate_challenge_against_claim, check_bound,
  plan_by_operation, apply_checks, on_wiki, on_challenges, commit_by_operation, under_lock,
  apply_unlocked, apply_challenge, probe_of, bound_prepare, prepare_challenge,
}
use zbrain.Approval.Apply.Batch.{
  judged_by, item_result, item_challenge, judge_items, apply_item, apply_items, batch_checks,
  apply_batch_unlocked, apply_challenge_batch, bound_items, prepare_batch_challenge,
}
use zbrain.Examples.Worlds.{strokes, count}
use zbrain.Prelude.{String, ◌≡◌, refl, false, List, [], ◌∷◌, ok, err, is_ok}
use zbrain.Claims.{Claim, empty_claim}
use zbrain.Approval.{ChallengePrepare}
use zbrain.Approval.Ceremony.{Files}
use zbrain.Approval.Files.{Op, prepare_op, grant_op, consume_op, IsSound, run_ops-IsSound}
use zbrain.Approval.Apply.{Office}
use zbrain.Approval.Apply.Applied.{IsApplied, recovered, apply_challenge-IsApplied}
use zbrain.Approval.Apply.Once.{apply_challenge_once}
use zbrain.Examples.Wiki as Wiki
use zbrain.Examples.Wiki.{text, world, evidence, encounter, options, first_id, draft_id, digest}
use zbrain.Examples.Worlds.{crates, call_at}

abbrev supersession : ChallengePrepare
supersession = record {
  workspace = "notes";
  operation = "supersede";
  claim_id = draft_id;
  canonical_draft_digest = digest;
  superseded_ids = first_id ∷ [];
  prior_verification_digest = digest;
  revoke_reason = "";
  items = [];
}

abbrev challenge_id : String
challenge_id = "chg_070000000000000000000000000000ff"

abbrev token : String
token = "070000000000000000000000000000ff"

abbrev challenges : Files crates
challenges =
    run_ops crates "notes"
      (prepare_op (call_at 1) supersession ∷ grant_op (call_at 2) challenge_id ∷ []) []

program : Unit {0}
unfolding get insert remove insert_by sort_by sort strip_prefix is_whitespace trim_start trim_end
    trim has_suffix strip_suffix is_lower_hex has_id_prefix is_claim_id is_evidence_id
    is_challenge_id is_transition_sha256 is_challenge_token_hash is_sha256_digest
    is_legacy_evidence_digest is_campaign_run_id hex_digit hex_lower new_claim_id new_evidence_id
    new_challenge_id new_pending_transition_id new_campaign_run_id sha256_text be_bytes frame
    join_nul action_preimage compute_challenge_action_digest check_items normalize_challenge_items
    check_decided validate_challenge_item_decisions check_superseded check_batch check_bound_fields
    check_grant check_state validate_challenge_record validate_prepare difference constant_time_eq
    challenge_path read_challenge publish write_challenge prepared prepare_checks prepare
    prepared_batch prepare_batch_checks prepare_batch expiry_in_time validate_token verify
    granted_record release grant_checks grant grant_items_checks grant_items consume_checks consume
    check_granted check_skipped check_grant_decisions run_op run_ops same_strings
    check_authorization first_superseded_verification_digest check_approve check_supersede
    check_revoke check_operation validate_challenge_against_claim check_bound plan_by_operation
    apply_checks on_wiki on_challenges commit_by_operation under_lock apply_unlocked apply_challenge
    probe_of bound_prepare prepare_challenge judged_by item_result item_challenge judge_items
    apply_item apply_items batch_checks apply_batch_unlocked apply_challenge_batch bound_items
    prepare_batch_challenge strokes count
program = tt

challenges-IsSound : IsSound crates "notes" challenges
unfolding get
challenges-IsSound =
    run_ops-IsSound crates "notes"
      (prepare_op (call_at 1) supersession ∷ grant_op (call_at 2) challenge_id ∷ []) []
      (record { holds = λ id contents e. cc })

abbrev office : Office text crates
office = record { challenges = challenges; wiki = world }

abbrev approved : Claim
approved =
    elim (apply_challenge text crates "notes" evidence encounter (call_at 3) (call_at 4)
      challenge_id token options office).1 [ err e ↦ empty_claim | ok claim ↦ claim ]

applies :
    (apply_challenge text crates "notes" evidence encounter
      (call_at 3)
      (call_at 4)
      challenge_id
      token
      options
      office).1
    ≡ ok approved
unfolding program Wiki.program
applies = refl

apply_challenge-IsApplied_example :
    IsApplied text crates "notes" evidence encounter
      (call_at 3)
      challenge_id
      options
      (recovered text crates "notes" encounter office)
      (apply_challenge text crates "notes" evidence encounter
        (call_at 3)
        (call_at 4)
        challenge_id
        token
        options
        office).0
      approved
apply_challenge-IsApplied_example =
    apply_challenge-IsApplied text crates "notes" evidence encounter (call_at 3) (call_at 4)
      challenge_id token options office approved challenges-IsSound applies

-- Another grant and another consumption are tried in between.
abbrev attempts : List Op
attempts = grant_op (call_at 10) challenge_id ∷ consume_op (call_at 11) challenge_id token ∷ []

abbrev later_office : Office text crates
later_office = record office {
  challenges =
      run_ops crates "notes" attempts
        (apply_challenge text crates "notes" evidence encounter (call_at 3) (call_at 4) challenge_id
          token options office).0.challenges;
}

apply_challenge_once_example :
    (is_ok
        (apply_challenge text crates "notes" evidence encounter
          (call_at 12)
          (call_at 13)
          challenge_id
          token
          options
          later_office).1
      ≡ false)
    × (is_ok
          (apply_challenge_batch text crates "notes" evidence encounter
            (λ id. encounter)
            (call_at 12)
            (call_at 13)
            challenge_id
            token
            options
            later_office).1
        ≡ false)
apply_challenge_once_example =
    apply_challenge_once text crates "notes" evidence encounter (call_at 3) (call_at 4) challenge_id
      token options office approved attempts encounter (λ id. encounter) (call_at 12) (call_at 13)
      token later_office challenges-IsSound applies (tt, (tt, tt)) refl
