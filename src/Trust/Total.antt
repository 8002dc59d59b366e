-- ===== src/Trust/Total.antt =====
-- trust.rs (crates/zbrain/src): the fuel of a visit, against the ids that are still unvisited.
use zbrain.Prelude.{
  ℕ, zero, suc, ◌<◌, String, ◌≡◌, ◌≢◌, refl, true, not, ◌&&◌, none, some, List, [], ◌∷◌, ◌++◌, ◌==◌,
  eq_iff, arith, Result, ok, err, but_last, sym, ◌∙◌, length, if_cases, Option,
}
use zbrain.Prelude.Sets.{contains}
use zbrain.Prelude.Sort.{sort}
use zbrain.Prelude.Assoc.{get, insert}
use zbrain.Ids.{is_claim_id}
use zbrain.Claims.{Claim}
use zbrain.Claims.Digest.{Canon}
use zbrain.Trust.{
  Reason, TrustFailure, VisitState, TrustValidator, Outcome, done, failed, out_of_fuel, state_of,
  is_active, cycle, cycle_path,
}
use zbrain.Trust.Visit.{
  Visitor, Rule, refuse, refuse_support, after_support, visit_supports, resolve, begin_visit,
  check_support, after_check, known_failure, visit_claim, after_resolve, by_state, visit,
}
use zbrain.Trust.Root.{
  after_root, root_supports, validate_root_supports, validate_claim_with_support,
}
use zbrain.Trust.Trusted.{Find}
use zbrain.Trust.Frame.{state_of-begin_visit, state_of-resolve, resolve-eq-ok}
use zbrain.Trust.Invariant.{Inv, Inv-resolve, Inv-begin_visit}
use zbrain.Trust.Steps.{SoundVisitor}
use zbrain.Trust.Sound.{visit-Sound}
use zbrain.Trust.Validated.{Inv-active}
use zbrain.Trust.Pending.{
  is_unvisited, pending, Later, pending-Later, pending-le-length, pending-lt, Later-mark_invalid,
  Later-set_valid, Later-begin_visit, Later-resolve, Later-mark_cycle, Later-inherit_failure, Ended,
}

Ended-after_support :
    (id s : String) (v : TrustValidator) (r : TrustValidator × Outcome)
    (rest : TrustValidator → TrustValidator × Outcome)
    → Ended v r
    → Ended r.0 (rest r.0)
    → Ended v (after_support id s r rest)
unfolding after_support
Ended-after_support id s v (w, done) rest h k = (k.0, λ j u. h.1 j (k.1 j u))
Ended-after_support id s v (w, failed e) rest h k =
    (λ e. cc, λ j u. h.1 j (Later-inherit_failure w id s e.reason j u))
Ended-after_support id s v (w, out_of_fuel) rest h k = absurd (h.0 refl)

Ended-refuse :
    (root_id id : String) (path : List String) (r : Reason) (v : TrustValidator)
    → Ended v (refuse root_id id path r v)
unfolding refuse
Ended-refuse root_id id path r v = (λ e. cc, Later-mark_invalid v id _)

Ended-refuse_support :
    (root_id id s : String) (path : List String) (r : Reason) (v : TrustValidator)
    → Ended v (refuse_support root_id id s path r v)
unfolding refuse_support
Ended-refuse_support root_id id s path r v = (λ e. cc, Later-mark_invalid v id _)

Ended-cycle :
    (root_id id : String) (path : List String) (v : TrustValidator)
    → Ended v (cycle root_id id path v)
unfolding cycle
Ended-cycle root_id id path v = (λ e. cc, Later-mark_cycle [] (but_last (cycle_path id path)) v)

Ended-known_failure :
    (root_id id : String) (path : List String) (o : Option TrustFailure)
    → known_failure root_id id path o ≢ out_of_fuel
unfolding known_failure
Ended-known_failure root_id id path none e = cc
Ended-known_failure root_id id path (some f) e = cc

after_root-Ended :
    (r : TrustValidator × Outcome) (rest : TrustValidator → TrustValidator × Outcome)
    → r.1 ≢ out_of_fuel
    → (rest r.0).1 ≢ out_of_fuel
    → (after_root r rest).1 ≢ out_of_fuel
unfolding after_root
after_root-Ended (w, done) rest h k = k
after_root-Ended (w, failed e) rest h k = λ p. cc
after_root-Ended (w, out_of_fuel) rest h k = absurd (h refl)

module _ (canon : Canon) (validate : Rule) (find : Find) (ids : List String) where
  -- With fewer unvisited ids than `k`, the visit ends.
  abbrev EndsBelow : ℕ → Visitor → Type 0
  EndsBelow k visit =
      (id : String) (path : List String) (v : TrustValidator)
      → Inv canon validate find v
      → pending v ids < k
      → Ended v (visit id path v)

  module _ (k : ℕ) (visit : Visitor) (sound : SoundVisitor canon validate find visit)
      (ends : EndsBelow k visit) (root_id id : String) (path : List String) where
    visit_supports-Ended :
        (seen supports : List String) (v : TrustValidator)
        → Inv canon validate find v
        → pending v ids < k
        → Ended v (visit_supports visit root_id id path seen supports v)
    unfolding visit_supports
    visit_supports-Ended seen [] v inv fits = (λ e. cc, Later-set_valid v id)
    visit_supports-Ended seen (s ∷ supports) v inv fits =
        let first = ends s (path ++ s ∷ []) v inv fits in
        if_cases (Ended v) (not (is_claim_id s)) (λ e. Ended-refuse_support root_id id s path _ v)
          λ safe.
            if_cases (Ended v) (contains seen s) (λ e. Ended-refuse_support root_id id s path _ v)
              λ fresh. Ended-after_support id s v (visit s (path ++ s ∷ []) v) _ first (
                visit_supports-Ended (s ∷ seen) supports (visit s (path ++ s ∷ []) v).0
                  (sound s (path ++ s ∷ []) v inv).0
                  (omega (arith, pending-Later v (visit s (path ++ s ∷ []) v).0 ids first.1)))

    after_check-Ended :
        (c : Claim) (r : Result Reason (Unit {0})) (v : TrustValidator)
        → Inv canon validate find v
        → pending v ids < k
        → Ended v (after_check visit root_id id path c r v)
    unfolding after_check
    after_check-Ended c (err reason) v inv fits = Ended-refuse root_id id path reason v
    after_check-Ended c (ok _) v inv fits =
        visit_supports-Ended [] (sort c.supporting_claim_ids) v inv fits

    module _ (covers : (j : String) (c : Claim) → find j ≡ some c → contains ids j ≡ true) where
      after_resolve-Ended :
          (v : TrustValidator) (r : TrustValidator × Result Reason Claim)
          → Inv canon validate find r.0
          → Later v r.0
          → pending v ids < suc k
          → is_unvisited (state_of r.0 id) ≡ true
          → ((c : Claim) → r.1 ≡ ok c → find id ≡ some c)
          → Ended v (after_resolve canon validate visit root_id id path r)
      unfolding after_resolve visit_claim
      after_resolve-Ended v (w, err reason) inv l fits u found =
          let last = Ended-refuse root_id id path reason w in (last.0, λ j h. l j (last.1 j h))
      after_resolve-Ended v (w, ok c) inv l fits u found =
          let fewer =
            pending-lt w (begin_visit id w) id ids (Later-begin_visit w id)
              (covers id c (found c refl)) u
              (ground (arith, eq_iff id id, state_of-begin_visit w id id)) in
          let last =
            after_check-Ended c (check_support canon validate id c) (begin_visit id w)
              (Inv-begin_visit id inv) (omega (arith, fewer, pending-Later v w ids l)) in
          (last.0, λ j h. l j (Later-begin_visit w id j (last.1 j h)))

      by_state-Ended :
          (s : VisitState) (v : TrustValidator)
          → Inv canon validate find v
          → state_of v id ≡ s
          → pending v ids < suc k
          → Ended v (by_state canon validate s visit root_id id path v)
      unfolding by_state
      by_state-Ended VisitState.valid v inv h fits = (λ e. cc, λ j u. u)
      by_state-Ended VisitState.invalid v inv h fits =
          (Ended-known_failure root_id id path (get v.failures id), λ j u. u)
      by_state-Ended VisitState.visiting v inv h fits = Ended-cycle root_id id path v
      by_state-Ended VisitState.unvisited v inv h fits =
          after_resolve-Ended v (resolve id v) (Inv-resolve id inv) (Later-resolve v id) fits
            (rw (state_of-resolve v id id, h) refl)
            (λ c r. sym (inv.agrees id) ∙ resolve-eq-ok v id r)

  visit-Ended :
      ((j : String) (c : Claim) → find j ≡ some c → contains ids j ≡ true)
      → (fuel : ℕ) (root_id : String) → EndsBelow fuel (visit canon validate fuel root_id)
  unfolding visit
  visit-Ended covers zero root_id id path v inv fits = elim fits [ ]
  visit-Ended covers (suc fuel) root_id id path v inv fits =
      if_cases (Ended v) (is_active v root_id && id == root_id) (λ e. Ended-cycle root_id id path v)
        λ e.
          by_state-Ended fuel (visit canon validate fuel root_id) (visit-Sound fuel root_id)
            (visit-Ended covers fuel root_id) root_id id path covers (state_of v id) v inv refl fits

  module _ (k : ℕ) (visit : Visitor) (sound : SoundVisitor canon validate find visit)
      (ends : EndsBelow k visit) (root_id : String) where
    root_supports-Ended :
        (seen supports : List String) (v : TrustValidator)
        → Inv canon validate find v
        → pending v ids < k
        → (root_supports visit root_id seen supports v).1 ≢ out_of_fuel
    unfolding root_supports
    root_supports-Ended seen [] v inv fits = λ e. cc
    root_supports-Ended seen (s ∷ supports) v inv fits =
        let first = ends s (root_id ∷ s ∷ []) v inv fits in
        if_cases (λ (r : TrustValidator × Outcome). r.1 ≢ out_of_fuel) (not (is_claim_id s))
          (λ e p. cc)
          λ safe.
            if_cases (λ (r : TrustValidator × Outcome). r.1 ≢ out_of_fuel) (contains seen s)
              (λ e p. cc)
              λ fresh. after_root-Ended (visit s (root_id ∷ s ∷ []) v) _ first.0 (
                root_supports-Ended (s ∷ seen) supports (visit s (root_id ∷ s ∷ []) v).0
                  (sound s (root_id ∷ s ∷ []) v inv).0
                  (omega (arith, pending-Later v (visit s (root_id ∷ s ∷ []) v).0 ids first.1)))

  -- Validation ends, by a verdict: fuel above the number of ids that can be found is enough.
  pub validate_claim_with_support_total :
      ((j : String) (c : Claim) → find j ≡ some c → contains ids j ≡ true)
      → (fuel : ℕ) (root : Claim) (v : TrustValidator) → Inv canon validate find v
      → length ids < fuel
      → (validate_claim_with_support canon validate fuel root v).1 ≢ out_of_fuel
  unfolding validate_claim_with_support validate_root_supports
  validate_claim_with_support_total covers fuel root v inv fits =
      if_cases (λ (r : TrustValidator × Outcome). r.1 ≢ out_of_fuel) (not (is_claim_id root.id))
        (λ e p. cc)
        λ safe.
          root_supports-Ended fuel (visit canon validate fuel root.id) (visit-Sound fuel root.id)
            (visit-Ended covers fuel root.id) root.id [] (sort root.supporting_claim_ids) _
            (Inv-active _ inv)
            (omega (
              arith,
              pending-le-length (record v { active_roots = insert root.id true v.active_roots })
                  ids,
            ))
