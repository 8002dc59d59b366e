-- ===== src/Claims/Accepted.antt =====
-- claims.rs (crates/zbrain/src): what holds of a claim that `validate_claim_approval` accepts.
use zbrain.Prelude.{
  true, false, ◌&&◌, ◌≡◌, ◌⊎◌, inl, inr, ok, ensure, check_each, ◌==◌, eq_iff, arith, All, is_empty,
  ensure-eq-ok, Bool-cases,
}
use zbrain.Prelude.Text.{is_blank}
use zbrain.Clock.{Chrono}
use zbrain.Ids.{is_claim_id, is_evidence_id}
use zbrain.Claims.{Claim, ClaimSource, ClaimError, is_known_claim_status, is_known_wiki_tier}
use zbrain.Claims.Validate.{
  is_time, validate_span, validate_claim_transitions, validate_claim_head,
  validate_claim_references, validate_claim, validate_claim_approval,
}
use zbrain.Claims.Parts.{
  check_each-All, All-map, IsSpan, validate_span-IsSpan, IsTransition, transitions-All,
}

module _ (chrono : Chrono) where
  -- What a basis asks for is there.
  abbrev pub HasBasis : Claim → Type 0
  HasBasis c =
      (c.basis ≡ "owner")
      ⊎ (((c.basis ≡ "evidence") × (is_empty c.evidence_ids ≡ false))
          ⊎ ((c.basis ≡ "derived")
              × ((is_empty c.supporting_claim_ids && is_empty c.evidence_ids) ≡ false)))

  -- What an accepted claim promises.
  pub record IsApprovable (c : Claim) : Type 0 where
    pub id : is_claim_id c.id ≡ true
    pub tier : is_known_wiki_tier c.tier ≡ true
    pub status : is_known_claim_status c.status ≡ true
    pub title : is_blank c.title ≡ false
    pub created_at : is_time chrono c.created_at ≡ true
    pub spans : All (λ (source : ClaimSource). All IsSpan source.spans) c.sources
    pub evidence : All (λ id. is_evidence_id id ≡ true) c.evidence_ids
    pub supports : All (λ id. is_claim_id id ≡ true) c.supporting_claim_ids
    pub transitions : All (IsTransition chrono) c.transitions
    pub basis : HasBasis c

  accepted-claim :
      (c : Claim) → validate_claim_approval chrono c ≡ ok tt → validate_claim chrono c ≡ ok tt
  unfolding validate_claim_approval
  accepted-claim c h = ground arith

  accepted-basis : (c : Claim) → validate_claim_approval chrono c ≡ ok tt → HasBasis c
  unfolding validate_claim_approval
  accepted-basis c h = elim (Bool-cases (c.basis == "owner")) [
    | inl owner ↦ inl ((eq_iff c.basis "owner").0 owner)
    | inr other ↦ elim (Bool-cases (c.basis == "evidence")) [
      | inl evidence ↦ inr (inl ((eq_iff c.basis "evidence").0 evidence, ground arith))
      | inr third ↦
          let derived : (c.basis == "derived") ≡ true = ground arith in
          inr (inr ((eq_iff c.basis "derived").0 derived, ground arith))
    ]
  ]

  -- The checks of a claim that the record below speaks of.
  record IsChecked (c : Claim) : Type 0 where
    head :
        (is_claim_id c.id ≡ true)
        × (is_known_wiki_tier c.tier ≡ true)
        × (is_known_claim_status c.status ≡ true)
        × (is_blank c.title ≡ false)
    spans :
        check_each (λ (source : ClaimSource). check_each validate_span source.spans) c.sources
        ≡ ok tt
    created_at : ensure (is_time chrono c.created_at) ClaimError.created_at_invalid ≡ ok tt
    evidence :
        check_each
          (λ id. ensure (is_evidence_id id) (ClaimError.evidence_id_invalid id))
          c.evidence_ids
        ≡ ok tt
    supports :
        check_each
          (λ id. ensure (is_claim_id id) (ClaimError.related_id_invalid id))
          c.supporting_claim_ids
        ≡ ok tt
    transitions : validate_claim_transitions chrono c.transitions ≡ ok tt

  validate_claim-parts :
      (c : Claim)
      → validate_claim chrono c ≡ ok tt
      → (validate_claim_head chrono c ≡ ok tt)
        × (check_each (λ (source : ClaimSource). check_each validate_span source.spans) c.sources
            ≡ ok tt)
        × (ensure (is_time chrono c.created_at) ClaimError.created_at_invalid ≡ ok tt)
        × (validate_claim_references chrono c ≡ ok tt)
  unfolding validate_claim
  validate_claim-parts c h = (ground arith, ground arith, ground arith, ground arith)

  validate_claim_references-parts :
      (c : Claim)
      → validate_claim_references chrono c ≡ ok tt
      → (check_each
            (λ id. ensure (is_evidence_id id) (ClaimError.evidence_id_invalid id))
            c.evidence_ids
          ≡ ok tt)
        × (check_each
              (λ id. ensure (is_claim_id id) (ClaimError.related_id_invalid id))
              c.supporting_claim_ids
            ≡ ok tt)
        × (validate_claim_transitions chrono c.transitions ≡ ok tt)
  unfolding validate_claim_references
  validate_claim_references-parts c h = (ground arith, ground arith, ground arith)

  validate_claim_head-parts :
      (c : Claim)
      → validate_claim_head chrono c ≡ ok tt
      → (is_claim_id c.id ≡ true)
        × (is_known_wiki_tier c.tier ≡ true)
        × (is_known_claim_status c.status ≡ true)
        × (is_blank c.title ≡ false)
  unfolding validate_claim_head
  validate_claim_head-parts c h = (ground arith, ground arith, ground arith, ground arith)

  validate_claim-IsChecked : (c : Claim) → validate_claim chrono c ≡ ok tt → IsChecked c
  validate_claim-IsChecked c h =
      let (head, spans, created_at, references) = validate_claim-parts c h in
      let (evidence, supports, transitions) = validate_claim_references-parts c references in
      record {
        head = validate_claim_head-parts c head;
        spans = spans;
        created_at = created_at;
        evidence = evidence;
        supports = supports;
        transitions = transitions;
      }

  -- A claim that the approval check accepts has a safe id, a known tier and status, a title, a time of
  -- creation, safe evidence and supporting ids, spans that run forward from line 1, transitions of
  -- known kinds with different related claims, and what its basis asks for: evidence, or for a derived
  -- claim evidence or support.
  pub approval-IsApprovable :
      (c : Claim) → validate_claim_approval chrono c ≡ ok tt → IsApprovable c
  approval-IsApprovable c h =
      let v = accepted-claim c h in
      let k = validate_claim-IsChecked c v in
      let (id, tier, status, title) = k.head in
      record {
        id = id;
        tier = tier;
        status = status;
        title = title;
        created_at = ensure-eq-ok _ _ k.created_at;
        spans =
            All-map
              (λ source e.
                All-map validate_span-IsSpan source.spans
                  (check_each-All validate_span source.spans e))
              c.sources
              (check_each-All (λ (source : ClaimSource). check_each validate_span source.spans)
                c.sources k.spans);
        evidence =
            All-map (λ id e. ensure-eq-ok _ _ e) c.evidence_ids
              (check_each-All (λ id. ensure (is_evidence_id id) (ClaimError.evidence_id_invalid id))
                c.evidence_ids k.evidence);
        supports =
            All-map (λ id e. ensure-eq-ok _ _ e) c.supporting_claim_ids
              (check_each-All (λ id. ensure (is_claim_id id) (ClaimError.related_id_invalid id))
                c.supporting_claim_ids k.supports);
        transitions = transitions-All chrono c.transitions k.transitions;
        basis = accepted-basis c h;
      }
