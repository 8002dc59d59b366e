-- ===== src/Approval.antt =====
-- approval.rs (crates/zbrain/src): owner challenges, their data and their action digest.
pub mod Record
pub mod ConstantTime
pub mod Ceremony
pub mod RecordLaws
pub mod Files
pub mod Written
pub mod OneTime
pub mod Replay
pub mod RoundTrip
pub mod Partition
pub mod Binding
pub mod Apply
use zbrain.Prelude.{
  ℕ, ◌/◌, ◌%◌, ◌^◌, ◌*◌, String, Bool, List, [], ◌∷◌, ◌++◌, ◌==◌, length, is_empty, if◌then◌else◌,
}
use zbrain.Prelude.Text.{bytes, byte_length}
use zbrain.Prelude.Sort.{sort}
use zbrain.Ids.Generated.{hex_lower, concat}

pub record ChallengeItem : Type 0 where
  pub claim_id : String
  pub canonical_draft_digest : String

pub record ChallengePrepare : Type 0 where
  pub workspace : String
  pub operation : String
  pub claim_id : String
  pub canonical_draft_digest : String
  pub superseded_ids : List String
  pub prior_verification_digest : String
  pub revoke_reason : String
  pub items : List ChallengeItem

pub record Challenge : Type 0 where
  pub schema : String
  pub id : String
  pub workspace : String
  pub operation : String
  pub claim_id : String
  pub canonical_draft_digest : String
  pub superseded_ids : List String
  pub prior_verification_digest : String
  pub revoke_reason : String
  pub items : List ChallengeItem
  pub granted_items : List String
  pub skipped_items : List String
  pub action_digest : String
  pub token_sha256 : String
  pub expires_at : String
  pub token_expires_at : String
  pub granted : Bool
  pub granted_at : String
  pub consumed : Bool

-- The messages, each with the values that it prints beside the challenge's own id.
pub data ChallengeError : Type 0 where
  schema_mismatch id_invalid workspace_unsafe workspace_refused workspace_mismatch : ChallengeError
  operation_unsupported batch_operation_unsupported : String → ChallengeError
  batch_excludes_single decisions_need_items claim_id_invalid : ChallengeError
  draft_digest_invalid prior_digest_invalid revoke_reason_required : ChallengeError
  superseded_invalid : String → ChallengeError
  items_required : ChallengeError
  item_id_invalid item_digest_invalid item_bound_twice : String → ChallengeError
  items_invalid : ChallengeError → ChallengeError
  expiry_invalid consumed_without_grant token_hash_invalid : ChallengeError
  token_expiry_required token_expiry_invalid token_outlives_challenge : ChallengeError
  granted_at_required granted_at_invalid token_without_grant granted_at_without_grant :
      ChallengeError
  decisions_without_grant decisions_incomplete : ChallengeError
  decision_unbound decision_repeated : String → ChallengeError
  action_digest_mismatch : ChallengeError
  path_refused missing_file undecodable write_failed random_unavailable : ChallengeError
  already_granted not_granted already_consumed expired token_expired token_mismatch : ChallengeError
  not_a_batch nothing_granted : ChallengeError
  granted_unbound granted_twice skipped_unbound granted_and_skipped skipped_twice :
      String → ChallengeError

abbrev pub challenge_schema_version : String
challenge_schema_version = "zbrain.challenge/v3"

-- `(value.len() as u64).to_be_bytes()`
unfoldable pub be_bytes : ℕ → List ℕ
be_bytes n =
    n / 2 ^ 56 % 256
    ∷ n / 2 ^ 48 % 256
    ∷ n / 2 ^ 40 % 256
    ∷ n / 2 ^ 32 % 256
    ∷ n / 2 ^ 24 % 256
    ∷ n / 2 ^ 16 % 256
    ∷ n / 2 ^ 8 % 256
    ∷ n % 256
    ∷ []

unfoldable pub frame : String → List ℕ
unfolding be_bytes
frame value = be_bytes (byte_length value) ++ bytes value

frame_items : List ChallengeItem → List ℕ
unfolding frame
frame_items [] = []
frame_items (item ∷ items) =
    frame item.claim_id ++ (frame item.canonical_draft_digest ++ frame_items items)

-- `values.join("\u{0}")`
unfoldable pub join_nul : List String → String
join_nul [] = ""
join_nul (x ∷ []) = x
join_nul (x ∷ y ∷ rest) = concat x (concat "\0" (join_nul (y ∷ rest)))

-- What the action digest hashes.
unfoldable pub action_preimage : ChallengePrepare → List ℕ
unfolding frame frame_items be_bytes join_nul sort
action_preimage p =
    frame p.workspace
    ++ (frame p.operation
        ++ (if is_empty p.items
            then frame p.claim_id
              ++ (frame p.canonical_draft_digest
                  ++ (frame (join_nul (sort p.superseded_ids))
                      ++ (frame p.prior_verification_digest ++ frame p.revoke_reason)))
            else be_bytes (length p.items) ++ frame_items p.items))

unfoldable pub compute_challenge_action_digest : (List ℕ → List ℕ) → ChallengePrepare → String
unfolding action_preimage hex_lower
compute_challenge_action_digest sha256 p =
    concat "sha256:challenge-v1:" (hex_lower (sha256 (action_preimage p)))
