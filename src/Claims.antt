-- ===== src/Claims.antt =====
-- claims.rs (crates/zbrain/src): claims, their parts, and the errors of the checks on them.
pub mod Validate
pub mod Contradictions
pub mod Digest
pub mod Document
pub mod Scan
pub mod Store
pub mod Walked
pub mod Found
pub mod Drafted
pub mod Scanned
pub mod Verified
pub mod Parts
pub mod Accepted
use zbrain.Prelude.{ℕ, String, Bool, ◌||◌, Option, List, [], ◌==◌, if◌then◌else◌}
use zbrain.Ids.Generated.{concat}
use zbrain.Prelude.Int.{ℤ}

pub record EvidenceSpan : Type 0 where
  pub evidence_id : String
  pub start_line : ℤ
  pub end_line : ℤ
  pub digest : String

pub record ClaimSource : Type 0 where
  pub id : String
  pub resource : String
  pub title : String
  pub digest : String
  pub spans : List EvidenceSpan

pub record Contradiction : Type 0 where
  pub claim_id : String
  pub heuristic : String

pub record ClaimTransitionAuthorization : Type 0 where
  pub challenge_id : String
  pub method : String
  pub mcp_client : String

pub record ClaimTransition : Type 0 where
  pub kind : String
  pub at : String
  pub by : String
  pub reason : String
  pub related_claim_ids : List String
  pub prior_verification_digest : String
  pub authorization : Option ClaimTransitionAuthorization

pub record Claim : Type 0 where
  pub schema : String
  pub claim_type : String
  pub id : String
  pub tier : String
  pub path : String
  pub status : String
  pub title : String
  pub description : String
  pub resource : String
  pub basis : String
  pub created_at : String
  pub created_by : String
  pub verified_at : String
  pub verified_by : String
  pub verified_digest : String
  pub stale_after : String
  pub sources : List ClaimSource
  pub evidence_ids : List String
  pub supporting_claim_ids : List String
  pub supersedes : List String
  pub conflicts_with : List String
  pub contradicts : List Contradiction
  pub tags : List String
  pub transitions : List ClaimTransition
  pub body : String

-- The messages of `ClaimError::Message`, each with the values that it prints.
pub data ClaimError : Type 0 where
  schema_invalid type_invalid claim_id_invalid title_required : ClaimError
  tier_unsupported status_unsupported basis_unsupported : String → ClaimError
  span_invalid span_digest_invalid : ClaimError
  created_at_invalid created_by_required : ClaimError
  verified_at_invalid verified_by_required verified_digest_invalid stale_after_invalid : ClaimError
  evidence_id_invalid source_id_invalid related_id_invalid : String → ClaimError
  source_digest_invalid : ClaimError
  contradiction_id_invalid heuristic_unsupported : String → ClaimError
  transition_kind_unsupported transition_related_invalid transition_related_duplicated :
      String → ClaimError
  transition_at_invalid transition_by_required transition_prior_invalid : ClaimError
  authorization_challenge_invalid authorization_method_required : ClaimError
  authorization_client_required : ClaimError
  at_transition : ℕ → ClaimError → ClaimError
  evidence_required support_required : ClaimError
  digest_missing digest_mismatch : ClaimError
  digest_uncomputed : ClaimError → ClaimError
  render_failed : String → ClaimError
  frontmatter_required closing_marker_required document_type_invalid frontmatter_invalid :
      ClaimError
  path_tier_mismatch path_id_mismatch : String → ClaimError
  not_approvable not_supersedable not_revocable superseded_twice : String → ClaimError
  superseded_unverified unverified_before_revoke : String → ClaimError → ClaimError
  digest_failed : ClaimError → ClaimError
  revoke_reason_required random_unavailable preimage_unreadable journal_refused : ClaimError
  evidence_refused support_refused : String → ClaimError
  not_found io_failed boundary_refused mutation_refused write_failed : ClaimError
  duplicate_canonical_id path_unsafe : String → ClaimError
  would_duplicate_identity not_a_draft : String → String → ClaimError

-- `Claim::default()`
abbrev pub empty_claim : Claim
empty_claim = record {
  schema = "";
  claim_type = "";
  id = "";
  tier = "";
  path = "";
  status = "";
  title = "";
  description = "";
  resource = "";
  basis = "";
  created_at = "";
  created_by = "";
  verified_at = "";
  verified_by = "";
  verified_digest = "";
  stale_after = "";
  sources = [];
  evidence_ids = [];
  supporting_claim_ids = [];
  supersedes = [];
  conflicts_with = [];
  contradicts = [];
  tags = [];
  transitions = [];
  body = "";
}

abbrev pub claim_schema_version : String
claim_schema_version = "zbrain.claim/v1"

abbrev pub okf_claim_type : String
okf_claim_type = "zbrain.claim"

unfoldable pub is_known_wiki_tier : String → Bool
is_known_wiki_tier tier =
    tier == "axioms" || tier == "mental-models" || tier == "projects" || tier == "decisions"

unfoldable pub is_known_claim_status : String → Bool
is_known_claim_status status =
    status == "draft" || status == "approved" || status == "superseded" || status == "revoked"

unfoldable pub is_known_claim_basis : String → Bool
is_known_claim_basis basis = basis == "owner" || basis == "evidence" || basis == "derived"

unfoldable pub is_known_heuristic : String → Bool
is_known_heuristic heuristic =
    heuristic == "negation" || heuristic == "value_swap" || heuristic == "status_change"

-- The kinds of lifecycle transitions, also the operations of a challenge.
unfoldable pub is_known_transition_kind : String → Bool
is_known_transition_kind kind = kind == "approve" || kind == "supersede" || kind == "revoke"

unfoldable pub claim_rel_path : Claim → String
claim_rel_path claim =
    if claim.path == "" then concat claim.tier (concat "/" (concat claim.id ".md")) else claim.path
