-- ===== src/Trust/Invariant.antt =====
-- trust.rs (crates/zbrain/src): the invariant of a validator, and the steps of a visit.
use zbrain.Prelude.{
  String, ◌≡◌, List, [], ◌∷◌, ◌++◌, ◌==◌, eq_iff, arith, Bool-cases, inl, inr, sym, ◌∙◌,
}
use zbrain.Prelude.Assoc.{get}
use zbrain.Claims.Digest.{Canon}
use zbrain.Trust.{
  Reason, TrustFailure, VisitState, TrustValidator, state_of, set_state, mark_invalid, mark_cycle,
}
use zbrain.Trust.Visit.{Rule, inherited, inherit_failure, resolve, begin_visit}
use zbrain.Trust.Trusted.{Find, Trusted}
use zbrain.Trust.Frame.{
  find_in-set_state, find_in, state_of-set_state, state_of-mark_invalid, find_in-mark_invalid,
  state_of-begin_visit, find_in-begin_visit, find_in-resolve, state_of-resolve,
}

module _ (canon : Canon) (validate : Rule) (find : Find) where
  -- The validator finds what `find` finds, and what it holds to be valid is trusted.
  pub record Inv (v : TrustValidator) : Type 0 where
    pub agrees : (id : String) → find_in v id ≡ find id
    pub valid_trusted :
        (id : String) → state_of v id ≡ VisitState.valid → Trusted canon validate find id

module _ {canon : Canon} {validate : Rule} {find : Find} where
  pub Inv-mark_invalid :
      (id : String) (f : TrustFailure) {v : TrustValidator}
      → Inv canon validate find v
      → Inv canon validate find (mark_invalid id f v)
  Inv-mark_invalid id f {v} inv = record {
    agrees = λ j. find_in-mark_invalid v id j f ∙ inv.agrees j;
    valid_trusted = λ j h. inv.valid_trusted j (ground (arith, state_of-mark_invalid v id j f));
  }

  pub Inv-mark_cycle :
      (before nodes : List String) {v : TrustValidator}
      → Inv canon validate find v
      → Inv canon validate find (mark_cycle before nodes v)
  unfolding mark_cycle
  Inv-mark_cycle before [] inv = inv
  Inv-mark_cycle before (node ∷ nodes) inv =
      Inv-mark_cycle (before ++ node ∷ []) nodes (Inv-mark_invalid node _ inv)

  pub Inv-begin_visit :
      (id : String) {v : TrustValidator}
      → Inv canon validate find v
      → Inv canon validate find (begin_visit id v)
  Inv-begin_visit id {v} inv = record {
    agrees = λ j. find_in-begin_visit v id j ∙ inv.agrees j;
    valid_trusted = λ j h. inv.valid_trusted j (ground (arith, state_of-begin_visit v id j));
  }

  pub Inv-resolve :
      (id : String) {v : TrustValidator}
      → Inv canon validate find v
      → Inv canon validate find (resolve id v).0
  Inv-resolve id {v} inv = record {
    agrees = λ j. find_in-resolve v id j ∙ inv.agrees j;
    valid_trusted = λ j h. inv.valid_trusted j (sym (state_of-resolve v id j) ∙ h);
  }

  pub Inv-set_valid :
      (id : String) {v : TrustValidator}
      → Inv canon validate find v
      → Trusted canon validate find id
      → Inv canon validate find (set_state id VisitState.valid v)
  Inv-set_valid id {v} inv t = record {
    agrees = λ j. find_in-set_state v id j VisitState.valid ∙ inv.agrees j;
    valid_trusted = λ j h. elim (Bool-cases (id == j)) [
      | inl same ↦ rw (← (eq_iff id j).0 same) t
      | inr other ↦ inv.valid_trusted j (ground (arith, state_of-set_state v id j VisitState.valid))
    ];
  }

  pub Inv-inherit_failure :
      (id support_id : String) (r : Reason) {v : TrustValidator}
      → Inv canon validate find v
      → Inv canon validate find (inherit_failure id support_id r v)
  unfolding inherit_failure
  Inv-inherit_failure id support_id r {v} inv =
      let marked =
        Inv-mark_invalid id (inherited id support_id r (get v.failures support_id)) inv in
      elim (state_of v id)
        as (λ s. Inv canon validate find (elim s [
          | VisitState.invalid ↦ v
          | _ ↦ mark_invalid id (inherited id support_id r (get v.failures support_id)) v
        ])) [ VisitState.invalid ↦ inv | _ ↦ marked ]
