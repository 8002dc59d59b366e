-- ===== src/Claims/Parts.antt =====
-- claims.rs (crates/zbrain/src): what the checks of spans and transitions accept.
use zbrain.Prelude.{
  ℕ, String, true, false, ◌≡◌, refl, List, [], ◌∷◌, Result, ok, ensure, refuse_if, map_err,
  check_each, eq_iff, arith, All, >>-eq-ok, ensure-eq-ok,
}
use zbrain.Prelude.Text.{has_prefix, is_blank}
use zbrain.Prelude.Sets.{contains, distinct}
use zbrain.Prelude.Int.{pos, lt_int}
use zbrain.Clock.{Chrono}
use zbrain.Ids.{is_claim_id, is_evidence_id}
use zbrain.Claims.{EvidenceSpan, ClaimTransition, ClaimError, is_known_transition_kind}
use zbrain.Claims.Validate.{
  is_time, validate_span, validate_related, validate_claim_transition, validate_transitions_from,
  validate_claim_transitions,
}

pub check_each-All :
    {A : Type 0} (check : A → Result ClaimError (Unit {0})) (xs : List A)
    → check_each check xs ≡ ok tt
    → All (λ x. check x ≡ ok tt) xs
check_each-All check [] h = tt
check_each-All check (x ∷ xs) h =
    let (a, rest) = >>-eq-ok (check x) _ h in (a, check_each-All check xs rest)

pub All-map :
    {A : Type 0} {P Q : A → Type 0} → ((x : A) → P x → Q x) → (xs : List A) → All P xs → All Q xs
All-map f [] h = tt
All-map f (x ∷ xs) (h, hs) = (f x h, All-map f xs hs)

-- A span names evidence and covers lines from 1 on, in order.
pub record IsSpan (span : EvidenceSpan) : Type 0 where
  pub evidence : is_evidence_id span.evidence_id ≡ true
  pub from_one : lt_int span.start_line (pos 1) ≡ false
  pub in_order : lt_int span.end_line span.start_line ≡ false
  pub digest : has_prefix "sha256:span-v1:" span.digest ≡ true

pub validate_span-IsSpan : (span : EvidenceSpan) → validate_span span ≡ ok tt → IsSpan span
unfolding validate_span
validate_span-IsSpan span h = record {
  evidence = ground arith;
  from_one = ground arith;
  in_order = ground arith;
  digest = ground arith;
}

validate_related-seen :
    (seen ids : List String) (s : String)
    → validate_related seen ids ≡ ok tt
    → contains seen s ≡ true
    → contains ids s ≡ false
unfolding validate_related
validate_related-seen seen [] s h m = refl
validate_related-seen seen (id ∷ ids) s h m =
    let (a, h₁) =
      >>-eq-ok (ensure (is_claim_id id) (ClaimError.transition_related_invalid id)) _ h in
    let (b, h₂) =
      >>-eq-ok (refuse_if (contains seen id) (ClaimError.transition_related_duplicated id)) _ h₁ in
    ground (arith, validate_related-seen (id ∷ seen) ids s h₂, eq_iff id s)

validate_related-distinct :
    (seen ids : List String)
    → validate_related seen ids ≡ ok tt
    → (distinct ids ≡ true) × All (λ id. is_claim_id id ≡ true) ids
unfolding validate_related
validate_related-distinct seen [] h = (refl, tt)
validate_related-distinct seen (id ∷ ids) h =
    let (a, h₁) =
      >>-eq-ok (ensure (is_claim_id id) (ClaimError.transition_related_invalid id)) _ h in
    let (b, h₂) =
      >>-eq-ok (refuse_if (contains seen id) (ClaimError.transition_related_duplicated id)) _ h₁ in
    let (d, all) = validate_related-distinct (id ∷ seen) ids h₂ in
    let fresh = validate_related-seen (id ∷ seen) ids id h₂ (ground (arith, eq_iff id id)) in
    (ground arith, (ensure-eq-ok _ _ a, all))

module _ (chrono : Chrono) where
  -- A transition has a known kind, a time, an author, and different claim ids.
  pub record IsTransition (t : ClaimTransition) : Type 0 where
    pub kind : is_known_transition_kind t.kind ≡ true
    pub at : is_time chrono t.at ≡ true
    pub by : is_blank t.by ≡ false
    pub related_distinct : distinct t.related_claim_ids ≡ true
    pub related_safe : All (λ id. is_claim_id id ≡ true) t.related_claim_ids

  validate_claim_transition-IsTransition :
      (t : ClaimTransition) → validate_claim_transition chrono t ≡ ok tt → IsTransition t
  unfolding validate_claim_transition
  validate_claim_transition-IsTransition t h =
      let related : validate_related [] t.related_claim_ids ≡ ok tt = ground arith in
      let (d, all) = validate_related-distinct [] t.related_claim_ids related in
      record {
        kind = ground arith;
        at = ground arith;
        by = ground arith;
        related_distinct = d;
        related_safe = all;
      }

  validate_transitions_from-All :
      (index : ℕ) (ts : List ClaimTransition)
      → validate_transitions_from chrono index ts ≡ ok tt
      → All IsTransition ts
  unfolding validate_transitions_from
  validate_transitions_from-All index [] h = tt
  validate_transitions_from-All index (t ∷ ts) h =
      let (a, rest) =
        >>-eq-ok (map_err (ClaimError.at_transition index) (validate_claim_transition chrono t)) _
          h in
      (
        validate_claim_transition-IsTransition t (ground arith),
        validate_transitions_from-All _ ts rest,
      )

  pub transitions-All :
      (ts : List ClaimTransition)
      → validate_claim_transitions chrono ts ≡ ok tt
      → All IsTransition ts
  unfolding validate_claim_transitions
  transitions-All ts h = validate_transitions_from-All 0 ts h
