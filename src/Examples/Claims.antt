-- ===== src/Examples/Claims.antt =====
-- A claim with evidence, checked and signed.
use zbrain.Prelude.{String, ◌≡◌, ◌↔◌, refl, none, [], ◌∷◌, ok}
use zbrain.Prelude.Text.{trim}
use zbrain.Prelude.Int.{pos}
use zbrain.Ids.{is_claim_id, is_evidence_id}
use zbrain.Ids.Generated.{sha256_text}
use zbrain.Claims.{
  Claim, is_known_wiki_tier, is_known_claim_status, is_known_claim_basis, is_known_transition_kind,
}
use zbrain.Claims.Validate.{
  validate_span, validate_source, validate_claim_transitions, validate_claim_head,
  validate_verification, validate_claim_references, validate_claim_approval,
}
use zbrain.Claims.Digest.{claim_verification_digest, verify_claim_digest}
use zbrain.Claims.Verified.{verify_claim_digest_exact, signed_claim_accepted}
use zbrain.Claims.Accepted.{IsApprovable, approval-IsApprovable}
use zbrain.Examples.Worlds.{clock, canon}

abbrev zero_text : String
zero_text = "sha256:0000000000000000000000000000000000000000000000000000000000000000"

abbrev claim : Claim
claim = record {
  schema = "zbrain.claim/v1";
  claim_type = "zbrain.claim";
  id = "clm_00000000000000000000000000000001";
  tier = "decisions";
  path = "wiki/decisions/a.md";
  status = "approved";
  title = "A";
  description = "";
  resource = "";
  basis = "evidence";
  created_at = "T";
  created_by = "owner";
  verified_at = "T";
  verified_by = "owner";
  verified_digest = "sha256:old";
  stale_after = "";
  sources =
      record {
        id = "evd_00000000000000000000000000000001";
        resource = "";
        title = "";
        digest = "";
        spans =
            record {
              evidence_id = "evd_00000000000000000000000000000001";
              start_line = pos 2;
              end_line = pos 5;
              digest = "sha256:span-v1:00";
            }
            ∷ [];
      }
      ∷ [];
  evidence_ids = "evd_00000000000000000000000000000001" ∷ [];
  supporting_claim_ids = [];
  supersedes = [];
  conflicts_with = [];
  contradicts = [];
  tags = [];
  transitions =
      record {
        kind = "approve";
        at = "T";
        by = "owner";
        reason = "";
        related_claim_ids = [];
        prior_verification_digest = "";
        authorization = none;
      }
      ∷ [];
  body = "";
}

accepted : validate_claim_approval clock claim ≡ ok tt
unfolding validate_claim_approval validate_claim_head is_claim_id is_known_wiki_tier
    is_known_claim_status trim is_known_claim_basis validate_span is_evidence_id
    validate_verification validate_claim_references validate_source validate_claim_transitions
    is_known_transition_kind
accepted = refl

approval-IsApprovable_example : IsApprovable clock claim
approval-IsApprovable_example = approval-IsApprovable clock claim accepted

verify_claim_digest_exact_example :
    (verify_claim_digest canon claim ≡ ok tt)
    ↔ (claim_verification_digest canon claim ≡ ok claim.verified_digest)
verify_claim_digest_exact_example = verify_claim_digest_exact canon claim refl

computed : claim_verification_digest canon claim ≡ ok zero_text
unfolding claim_verification_digest sha256_text
computed = refl

signed_claim_accepted_example :
    verify_claim_digest canon
      (record claim { verified_digest = zero_text; verified_at = "TT"; verified_by = "other" })
    ≡ ok tt
signed_claim_accepted_example =
    signed_claim_accepted canon claim zero_text "TT" "other" computed refl
