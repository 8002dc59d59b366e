-- ===== src/Examples/Batch.antt =====
-- The bound fields of an action, and a batch of two claims of which one was granted.
use zbrain.Prelude.{ℕ, String, ◌≡◌, refl, true, false, ◌&&◌, ◌||◌, List, [], ◌∷◌, ok, arith}
use zbrain.Prelude.Sets.{contains}
use zbrain.Prelude.Sort.{sort, sort_by, insert_by}
use zbrain.Prelude.Text.{trim}
use zbrain.Ids.{is_claim_id, is_challenge_id, is_challenge_token_hash}
use zbrain.Claims.{is_known_transition_kind}
use zbrain.Approval.{
  Challenge, ChallengePrepare, action_preimage, join_nul, compute_challenge_action_digest,
}
use zbrain.Approval.Record.{
  item_ids, check_batch, check_bound_fields, check_state, check_grant,
  validate_challenge_item_decisions, validate_challenge_record,
}
use zbrain.Approval.Binding.{Fits, SameBytes, action_preimage_binds}
use zbrain.Approval.Partition.{granted_partition}
use zbrain.Examples.Worlds.{clock, count, zero_hash}

abbrev replacing : List String → ChallengePrepare
replacing ids = record {
  workspace = "notes";
  operation = "supersede";
  claim_id = "clm_00000000000000000000000000000001";
  canonical_draft_digest = "sha256:d";
  superseded_ids = ids;
  prior_verification_digest = "sha256:p";
  revoke_reason = "";
  items = [];
}

abbrev forth : ChallengePrepare
forth = replacing ("clm_2" ∷ "clm_3" ∷ [])

abbrev back : ChallengePrepare
back = replacing ("clm_3" ∷ "clm_2" ∷ [])

same_text : action_preimage forth ≡ action_preimage back
unfolding action_preimage sort sort_by insert_by join_nul
same_text = refl

forth-Fits : Fits forth
unfolding join_nul sort sort_by insert_by
forth-Fits = record {
  workspace = omega arith;
  operation = omega arith;
  claim_id = omega arith;
  canonical_draft_digest = omega arith;
  superseded = omega arith;
  prior_verification_digest = omega arith;
  revoke_reason = omega arith;
}

back-Fits : Fits back
unfolding join_nul sort sort_by insert_by
back-Fits = record {
  workspace = omega arith;
  operation = omega arith;
  claim_id = omega arith;
  canonical_draft_digest = omega arith;
  superseded = omega arith;
  prior_verification_digest = omega arith;
  revoke_reason = omega arith;
}

action_preimage_binds_example :
    SameBytes forth.workspace back.workspace
    × SameBytes forth.operation back.operation
    × SameBytes forth.claim_id back.claim_id
    × SameBytes forth.canonical_draft_digest back.canonical_draft_digest
    × SameBytes (join_nul (sort forth.superseded_ids)) (join_nul (sort back.superseded_ids))
    × SameBytes forth.prior_verification_digest back.prior_verification_digest
    × SameBytes forth.revoke_reason back.revoke_reason
action_preimage_binds_example =
    action_preimage_binds forth back forth-Fits back-Fits refl refl same_text

abbrev first_id : String
first_id = "clm_00000000000000000000000000000001"

abbrev second_id : String
second_id = "clm_00000000000000000000000000000002"

abbrev batch : Challenge
batch = record {
  schema = "zbrain.challenge/v3";
  id = "chg_00000000000000000000000000000001";
  workspace = "notes";
  operation = "approve";
  claim_id = "";
  canonical_draft_digest = "";
  superseded_ids = [];
  prior_verification_digest = "";
  revoke_reason = "";
  items =
      record { claim_id = first_id; canonical_draft_digest = "sha256:a" }
      ∷ record { claim_id = second_id; canonical_draft_digest = "sha256:b" }
      ∷ [];
  granted_items = second_id ∷ [];
  skipped_items = first_id ∷ [];
  action_digest =
      "sha256:challenge-v1:0000000000000000000000000000000000000000000000000000000000000000";
  token_sha256 = "sha256:0000000000000000000000000000000000000000000000000000000000000000";
  expires_at = "IT";
  token_expires_at = "IT";
  granted = true;
  granted_at = "T";
  consumed = false;
}

abbrev hash : List ℕ → List ℕ
hash text = zero_hash

batch_valid : validate_challenge_record clock hash "notes" batch ≡ ok tt
unfolding validate_challenge_record is_challenge_id is_known_transition_kind check_batch is_claim_id
    check_bound_fields check_state check_grant is_challenge_token_hash trim count
    validate_challenge_item_decisions compute_challenge_action_digest
batch_valid = refl

granted_partition_example :
    (contains (item_ids batch.items) first_id
      ≡ (contains batch.granted_items first_id || contains batch.skipped_items first_id))
    × ((contains batch.granted_items first_id && contains batch.skipped_items first_id) ≡ false)
granted_partition_example =
    granted_partition clock hash "notes" batch first_id batch_valid refl refl
