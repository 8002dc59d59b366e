-- ===== src/Approval/Record.antt =====
-- approval.rs (crates/zbrain/src): the checks of a challenge before it is prepared and of its record
-- on every read and write.
use zbrain.Prelude.{
  ℕ, ◌+◌, String, Bool, not, ◌&&◌, List, [], ◌∷◌, ◌++◌, ◌==◌, Result, ok, ◌>>=◌, ◌>>◌, ensure,
  refuse_if, or_fail, map_err, check_each, is_empty, length, ltb, eqb, map, if◌then◌else◌,
}
use zbrain.Prelude.Text.{has_prefix, is_blank}
use zbrain.Prelude.Sets.{contains}
use zbrain.Clock.{Chrono}
use zbrain.Paths.{is_safe_workspace_name}
use zbrain.Ids.{is_claim_id, is_challenge_id, is_challenge_token_hash}
use zbrain.Claims.{is_known_transition_kind}
use zbrain.Claims.Validate.{is_time, is_optional_digest}
use zbrain.Approval.{
  Challenge, ChallengeItem, ChallengePrepare, ChallengeError, challenge_schema_version,
  compute_challenge_action_digest,
}

abbrev pub Check : Type 0
Check = Result ChallengeError (Unit {0})

-- The loop of `normalize_challenge_items`, with the ids seen.
unfoldable pub check_items : List String → List ChallengeItem → Check
check_items seen [] = ok tt
check_items seen (item ∷ items) = do
  ensure (is_claim_id item.claim_id) (ChallengeError.item_id_invalid item.claim_id)
  ensure (has_prefix "sha256:" item.canonical_draft_digest)
      (ChallengeError.item_digest_invalid item.claim_id)
  refuse_if (contains seen item.claim_id) (ChallengeError.item_bound_twice item.claim_id)
  check_items (item.claim_id ∷ seen) items

unfoldable pub normalize_challenge_items :
    List ChallengeItem → Result ChallengeError (List ChallengeItem)
unfolding check_items
normalize_challenge_items items = do
  refuse_if (is_empty items) ChallengeError.items_required
  check_items [] items
  ok items

abbrev pub item_ids : List ChallengeItem → List String
item_ids = map (λ (item : ChallengeItem). item.claim_id)

-- The loop over granted and skipped ids.
unfoldable pub check_decided : List String → List String → List String → Check
check_decided bound seen [] = ok tt
check_decided bound seen (id ∷ ids) = do
  ensure (contains bound id) (ChallengeError.decision_unbound id)
  refuse_if (contains seen id) (ChallengeError.decision_repeated id)
  check_decided bound (id ∷ seen) ids

unfoldable pub validate_challenge_item_decisions : Challenge → Check
unfolding check_decided
validate_challenge_item_decisions c =
    if not c.granted
    then ensure (is_empty c.granted_items && is_empty c.skipped_items)
        ChallengeError.decisions_without_grant
    else do
      check_decided (item_ids c.items) [] (c.granted_items ++ c.skipped_items)
      ensure (eqb (length c.granted_items + length c.skipped_items) (length c.items))
          ChallengeError.decisions_incomplete

unfoldable pub check_superseded : List String → Check
check_superseded = check_each (λ id. ensure (is_claim_id id) (ChallengeError.superseded_invalid id))

-- A batch binds items and nothing else; a single challenge decides on no items.
unfoldable pub check_batch : Challenge → Check
unfolding normalize_challenge_items
check_batch c =
    if is_empty c.items
    then ensure (is_empty c.granted_items && is_empty c.skipped_items)
        ChallengeError.decisions_need_items
    else do
      ensure (c.operation == "approve") (ChallengeError.batch_operation_unsupported c.operation)
      ensure
          (c.claim_id == ""
            && c.canonical_draft_digest == ""
            && is_empty c.superseded_ids
            && c.prior_verification_digest == ""
            && c.revoke_reason == "")
          ChallengeError.batch_excludes_single
      _ ← map_err ChallengeError.items_invalid (normalize_challenge_items c.items)
      ok tt

unfoldable pub check_bound_fields : Challenge → Check
unfolding check_superseded
check_bound_fields c = do
  refuse_if (is_empty c.items && not (is_claim_id c.claim_id)) ChallengeError.claim_id_invalid
  ensure (is_optional_digest c.canonical_draft_digest) ChallengeError.draft_digest_invalid
  ensure (is_optional_digest c.prior_verification_digest) ChallengeError.prior_digest_invalid
  check_superseded c.superseded_ids

module _ (chrono : Chrono) where
  -- What a granted record holds, and what an ungranted one leaves empty.
  unfoldable pub check_grant : ℕ → Challenge → Check
  check_grant challenge_expires_at c =
      if c.granted
      then (do
        ensure (is_challenge_token_hash c.token_sha256) ChallengeError.token_hash_invalid
        refuse_if (is_blank c.token_expires_at) ChallengeError.token_expiry_required
        token_expires_at ←
            or_fail (chrono.parse_rfc3339 c.token_expires_at) ChallengeError.token_expiry_invalid
        refuse_if (ltb challenge_expires_at token_expires_at)
            ChallengeError.token_outlives_challenge
        refuse_if (is_blank c.granted_at) ChallengeError.granted_at_required
        ensure (is_time chrono c.granted_at) ChallengeError.granted_at_invalid)
      else do
        ensure (c.token_sha256 == "" && c.token_expires_at == "") ChallengeError.token_without_grant
        ensure (is_blank c.granted_at) ChallengeError.granted_at_without_grant

  unfoldable pub check_state : Challenge → Check
  check_state c = do
    challenge_expires_at ← or_fail (chrono.parse_rfc3339 c.expires_at) ChallengeError.expiry_invalid
    refuse_if (c.consumed && not c.granted) ChallengeError.consumed_without_grant
    check_grant challenge_expires_at c

abbrev pub bound_by : Challenge → ChallengePrepare
bound_by c = record {
  workspace = c.workspace;
  operation = c.operation;
  claim_id = c.claim_id;
  canonical_draft_digest = c.canonical_draft_digest;
  superseded_ids = c.superseded_ids;
  prior_verification_digest = c.prior_verification_digest;
  revoke_reason = c.revoke_reason;
  items = c.items;
}

module _ (chrono : Chrono) (sha256 : List ℕ → List ℕ) where
  unfoldable pub validate_challenge_record : String → Challenge → Check
  validate_challenge_record workspace c = do
    ensure (c.schema == challenge_schema_version) ChallengeError.schema_mismatch
    ensure (is_challenge_id c.id) ChallengeError.id_invalid
    ensure (c.workspace == workspace) ChallengeError.workspace_mismatch
    ensure (is_known_transition_kind c.operation) (ChallengeError.operation_unsupported c.operation)
    check_batch c
    check_bound_fields c
    check_state chrono c
    if is_empty c.items then ok tt else validate_challenge_item_decisions c
    ensure (compute_challenge_action_digest sha256 (bound_by c) == c.action_digest)
        ChallengeError.action_digest_mismatch

-- `is_workspace` is the answer of `validate_workspace`, which looks at the file system.
unfoldable pub validate_prepare : (String → Bool) → String → ChallengePrepare → Check
validate_prepare is_workspace workspace p = do
  ensure (is_safe_workspace_name workspace) ChallengeError.workspace_unsafe
  ensure (is_workspace workspace) ChallengeError.workspace_refused
  ensure (p.workspace == workspace) ChallengeError.workspace_mismatch
  if not (is_empty p.items)
      then (do
        ensure (p.operation == "approve") (ChallengeError.batch_operation_unsupported p.operation)
        _ ← normalize_challenge_items p.items
        ok tt)
      else do
        ensure (is_known_transition_kind p.operation)
            (ChallengeError.operation_unsupported p.operation)
        ensure (is_claim_id p.claim_id) ChallengeError.claim_id_invalid
        ensure (is_optional_digest p.canonical_draft_digest) ChallengeError.draft_digest_invalid
        ensure (is_optional_digest p.prior_verification_digest) ChallengeError.prior_digest_invalid
        check_superseded p.superseded_ids
        refuse_if (p.operation == "revoke" && is_blank p.revoke_reason)
            ChallengeError.revoke_reason_required
