-- ===== src/Trust/Sound.antt =====
-- trust.rs (crates/zbrain/src): what a visit that ends well has seen, and what a visit leaves in the validator.
use zbrain.Prelude.{
  if_cases, ℕ, zero, suc, String, ◌≡◌, refl, ◌&&◌, some, List, [], ◌==◌, eq_iff, arith, Result, ok,
  err, sym, ◌∙◌,
}
use zbrain.Prelude.Sort.{sort, contains-sort}
use zbrain.Prelude.Assoc.{get}
use zbrain.Claims.{Claim}
use zbrain.Claims.Digest.{Canon}
use zbrain.Trust.{Reason, VisitState, TrustValidator, is_active, state_of}
use zbrain.Trust.Visit.{
  Visitor, Rule, resolve, begin_visit, check_support, after_check, visit_claim, after_resolve,
  by_state, visit,
}
use zbrain.Trust.Trusted.{Find, trusted, AreSound, PassesChecks}
use zbrain.Trust.WellFormed.{AreSound-of_well_formed}
use zbrain.Trust.Frame.{resolve-eq-ok}
use zbrain.Trust.Invariant.{Inv, Inv-begin_visit, Inv-resolve}
use zbrain.Trust.Steps.{
  Sound, SoundVisitor, Sound-refuse, Sound-cycle, visit_supports-Sound, known_failure-ne-done,
}

module _ {canon : Canon} {validate : Rule} where
  checks_of_support :
      (id : String) (c : Claim)
      → check_support canon validate id c ≡ ok tt
      → AreSound c.supporting_claim_ids
      → PassesChecks canon validate c
  unfolding check_support
  checks_of_support id c h sound = record {
    approved = ground (arith, eq_iff c.status "approved");
    digest = ground arith;
    rule = ground arith;
    supports = sound;
  }

module _ {canon : Canon} {validate : Rule} {find : Find} where
  module _ (visit : Visitor) (visit_sound : SoundVisitor canon validate find visit)
      (root_id id : String) (path : List String) where
    after_check-Sound :
        (c : Claim) (r : Result Reason (Unit {0})) (v : TrustValidator)
        → Inv canon validate find v
        → find id ≡ some c
        → r ≡ check_support canon validate id c
        → Sound canon validate find id (after_check visit root_id id path c r v)
    unfolding after_check
    after_check-Sound c (err reason) v inv e p = Sound-refuse root_id id path reason inv
    after_check-Sound c (ok _) v inv e p =
        visit_supports-Sound visit visit_sound root_id id path [] (sort c.supporting_claim_ids) v
          inv
          λ formed all.
            trusted c e
              (checks_of_support id c (sym p)
                (AreSound-of_well_formed c.supporting_claim_ids formed))
              (λ s m. all s (contains-sort c.supporting_claim_ids s ∙ m))

    visit_claim-Sound :
        (c : Claim) (v : TrustValidator)
        → Inv canon validate find v
        → find id ≡ some c
        → Sound canon validate find id (visit_claim canon validate visit root_id id path c v)
    unfolding visit_claim
    visit_claim-Sound c v inv e =
        after_check-Sound c (check_support canon validate id c) v inv e refl

    after_resolve-Sound :
        (r : TrustValidator × Result Reason Claim)
        → Inv canon validate find r.0
        → ((c : Claim) → r.1 ≡ ok c → find id ≡ some c)
        → Sound canon validate find id (after_resolve canon validate visit root_id id path r)
    unfolding after_resolve
    after_resolve-Sound (v, err reason) inv found = Sound-refuse root_id id path reason inv
    after_resolve-Sound (v, ok c) inv found =
        visit_claim-Sound c (begin_visit id v) (Inv-begin_visit id inv) (found c refl)

    by_state-Sound :
        (s : VisitState) (v : TrustValidator)
        → Inv canon validate find v
        → state_of v id ≡ s
        → Sound canon validate find id (by_state canon validate s visit root_id id path v)
    unfolding by_state
    by_state-Sound VisitState.valid v inv h = (inv, λ e. inv.valid_trusted id h)
    by_state-Sound VisitState.invalid v inv h =
        (inv, known_failure-ne-done root_id id path (get v.failures id))
    by_state-Sound VisitState.visiting v inv h = Sound-cycle root_id id path inv
    by_state-Sound VisitState.unvisited v inv h =
        after_resolve-Sound (resolve id v) (Inv-resolve id inv)
          (λ c r. sym (inv.agrees id) ∙ resolve-eq-ok v id r)

  pub visit-Sound :
      (fuel : ℕ) (root_id : String)
      → SoundVisitor canon validate find (visit canon validate fuel root_id)
  unfolding visit
  visit-Sound zero root_id id path v inv = (inv, λ e. cc)
  visit-Sound (suc fuel) root_id id path v inv =
      if_cases (Sound canon validate find id) (is_active v root_id && id == root_id)
        (λ e. Sound-cycle root_id id path inv)
        (λ e.
          by_state-Sound (visit canon validate fuel root_id) (visit-Sound fuel root_id) root_id id
            path (state_of v id) v inv refl)
