-- ===== src/Claims/Validate.antt =====
-- claims.rs (crates/zbrain/src): `validate_claim` and the checks that it calls, in their order.
use zbrain.Prelude.{
  true, false, if◌then◌else◌, ℕ, suc, String, Bool, not, ◌&&◌, ◌||◌, Option, none, some, List, [],
  ◌∷◌, ◌==◌, Result, ok, err, ◌>>◌, ensure, refuse_if, map_err, check_each, is_empty,
}
use zbrain.Prelude.Text.{has_prefix, is_blank}
use zbrain.Prelude.Sets.{contains}
use zbrain.Prelude.Int.{pos, lt_int}
use zbrain.Clock.{Chrono}
use zbrain.Ids.{is_claim_id, is_evidence_id, is_challenge_id}
use zbrain.Claims.{
  Claim, ClaimSource, EvidenceSpan, Contradiction, ClaimTransition, ClaimTransitionAuthorization,
  ClaimError, claim_schema_version, okf_claim_type, is_known_wiki_tier, is_known_claim_status,
  is_known_claim_basis, is_known_heuristic, is_known_transition_kind,
}

abbrev pub Check : Type 0
Check = Result ClaimError (Unit {0})

abbrev pub is_time : Chrono → String → Bool
is_time chrono value = elim (chrono.parse_rfc3339 value) [ none ↦ false | some t ↦ true ]

-- Empty, or `sha256:` and more.
abbrev pub is_optional_digest : String → Bool
is_optional_digest digest = digest == "" || has_prefix "sha256:" digest

unfoldable pub validate_span : EvidenceSpan → Check
validate_span span = do
  ensure
      (is_evidence_id span.evidence_id
        && not (lt_int span.start_line (pos 1))
        && not (lt_int span.end_line span.start_line))
      ClaimError.span_invalid
  ensure (has_prefix "sha256:span-v1:" span.digest) ClaimError.span_digest_invalid

unfoldable pub validate_source : ClaimSource → Check
validate_source source = do
  ensure (source.id == "" || is_evidence_id source.id) (ClaimError.source_id_invalid source.id)
  ensure (is_optional_digest source.digest) ClaimError.source_digest_invalid

unfoldable pub validate_contradiction : Contradiction → Check
validate_contradiction contradiction = do
  ensure (is_claim_id contradiction.claim_id)
      (ClaimError.contradiction_id_invalid contradiction.claim_id)
  ensure (is_known_heuristic contradiction.heuristic)
      (ClaimError.heuristic_unsupported contradiction.heuristic)

unfoldable pub validate_claim_transition_authorization : Option ClaimTransitionAuthorization → Check
validate_claim_transition_authorization none = ok tt
validate_claim_transition_authorization (some authorization) = do
  ensure (is_challenge_id authorization.challenge_id) ClaimError.authorization_challenge_invalid
  refuse_if (is_blank authorization.method) ClaimError.authorization_method_required
  refuse_if (is_blank authorization.mcp_client) ClaimError.authorization_client_required

-- The loop over the related ids, with the set of those seen.
unfoldable pub validate_related : List String → List String → Check
validate_related seen [] = ok tt
validate_related seen (id ∷ ids) = do
  ensure (is_claim_id id) (ClaimError.transition_related_invalid id)
  refuse_if (contains seen id) (ClaimError.transition_related_duplicated id)
  validate_related (id ∷ seen) ids

module _ (chrono : Chrono) where
  unfoldable pub validate_claim_transition : ClaimTransition → Check
  unfolding validate_related validate_claim_transition_authorization
  validate_claim_transition transition = do
    ensure (is_known_transition_kind transition.kind)
        (ClaimError.transition_kind_unsupported transition.kind)
    ensure (is_time chrono transition.at) ClaimError.transition_at_invalid
    refuse_if (is_blank transition.by) ClaimError.transition_by_required
    ensure (is_optional_digest transition.prior_verification_digest)
        ClaimError.transition_prior_invalid
    validate_claim_transition_authorization transition.authorization
    validate_related [] transition.related_claim_ids

  -- `enumerate` counts the transitions from `index`.
  unfoldable pub validate_transitions_from : ℕ → List ClaimTransition → Check
  unfolding validate_claim_transition
  validate_transitions_from index [] = ok tt
  validate_transitions_from index (transition ∷ transitions) = do
    map_err (ClaimError.at_transition index) (validate_claim_transition transition)
    validate_transitions_from (suc index) transitions

  unfoldable pub validate_claim_transitions : List ClaimTransition → Check
  unfolding validate_transitions_from
  validate_claim_transitions = validate_transitions_from 0

  unfoldable pub validate_verification : Claim → Check
  validate_verification claim =
      elim (claim.verified_at == "" && claim.verified_by == "" && claim.verified_digest == "") [
        | true ↦ ok tt
        | false ↦ do
          ensure (is_time chrono claim.verified_at) ClaimError.verified_at_invalid
          refuse_if (is_blank claim.verified_by) ClaimError.verified_by_required
          ensure (has_prefix "sha256:" claim.verified_digest) ClaimError.verified_digest_invalid
      ]

  -- The checks before the loops over ids.
  unfoldable pub validate_claim_head : Claim → Check
  validate_claim_head claim = do
    ensure (claim.schema == "" || claim.schema == claim_schema_version) ClaimError.schema_invalid
    ensure (claim.claim_type == "" || claim.claim_type == okf_claim_type) ClaimError.type_invalid
    ensure (is_claim_id claim.id) ClaimError.claim_id_invalid
    ensure (is_known_wiki_tier claim.tier) (ClaimError.tier_unsupported claim.tier)
    ensure (is_known_claim_status claim.status) (ClaimError.status_unsupported claim.status)
    refuse_if (is_blank claim.title) ClaimError.title_required
    ensure (is_known_claim_basis claim.basis) (ClaimError.basis_unsupported claim.basis)

  -- The ids that a claim refers to, and its history.
  unfoldable pub validate_claim_references : Claim → Check
  validate_claim_references claim = do
    check_each (λ id. ensure (is_evidence_id id) (ClaimError.evidence_id_invalid id))
        claim.evidence_ids
    check_each validate_source claim.sources
    check_each (λ id. ensure (is_claim_id id) (ClaimError.related_id_invalid id))
        claim.supporting_claim_ids
    check_each (λ id. ensure (is_claim_id id) (ClaimError.related_id_invalid id)) claim.supersedes
    check_each (λ id. ensure (is_claim_id id) (ClaimError.related_id_invalid id))
        claim.conflicts_with
    check_each validate_contradiction claim.contradicts
    validate_claim_transitions claim.transitions

  unfoldable pub validate_claim : Claim → Check
  validate_claim claim = do
    validate_claim_head claim
    check_each (λ (source : ClaimSource). check_each validate_span source.spans) claim.sources
    ensure (is_time chrono claim.created_at) ClaimError.created_at_invalid
    refuse_if (is_blank claim.created_by) ClaimError.created_by_required
    validate_verification claim
    ensure (claim.stale_after == "" || is_time chrono claim.stale_after)
        ClaimError.stale_after_invalid
    validate_claim_references claim

  -- What a basis asks for before approval.
  validate_basis : Claim → Check
  validate_basis claim =
      if claim.basis == "owner"
      then ok tt
      else if claim.basis == "evidence"
      then refuse_if (is_empty claim.evidence_ids) ClaimError.evidence_required
      else if claim.basis == "derived"
      then refuse_if (is_empty claim.supporting_claim_ids && is_empty claim.evidence_ids)
          ClaimError.support_required
      else err (ClaimError.basis_unsupported claim.basis)

  unfoldable pub validate_claim_approval : Claim → Check
  unfolding validate_basis validate_claim
  validate_claim_approval claim = do validate_claim claim; validate_basis claim
