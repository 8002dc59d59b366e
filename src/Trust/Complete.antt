-- ===== src/Trust/Complete.antt =====
-- trust.rs (crates/zbrain/src): visits of a trusted claim, where no id of its closure is the root, refused
-- before or being visited.
use mathlib.Core.Path.{subst}
use zbrain.Prelude.{
  ℕ, zero, suc, String, ◌≡◌, ◌≢◌, refl, Bool, true, false, not, ◌&&◌, some, List, [], ◌∷◌, ◌++◌,
  ◌==◌, eq_iff, arith, Result, ok, err, Bool-cases, ◌⊎◌, inl, inr, sym, ◌∙◌, if_cases,
}
use zbrain.Prelude.Sets.{contains, contains_self}
use zbrain.Prelude.Sort.{sort, contains-sort}
use zbrain.Ids.{is_claim_id}
use zbrain.Claims.{Claim}
use zbrain.Claims.Digest.{Canon}
use zbrain.Trust.{
  Reason, VisitState, TrustValidator, Outcome, done, failed, out_of_fuel, state_of, is_active,
}
use zbrain.Trust.Visit.{
  Visitor, Rule, after_support, visit_supports, resolve, begin_visit, check_support, after_check,
  visit_claim, after_resolve, by_state, visit,
}
use zbrain.Trust.Trusted.{Find, Trusted, trusted, PassesChecks, Reaches, Trusted-acyclic}
use zbrain.Trust.WellFormed.{well_formed, well_formed_of_AreSound}
use zbrain.Trust.Frame.{
  state_of-set_state, state_of-begin_visit, state_of-resolve, resolve_of_found,
}
use zbrain.Trust.Invariant.{Inv, Inv-resolve, Inv-begin_visit}
use zbrain.Trust.Steps.{SoundVisitor}
use zbrain.Trust.Sound.{visit-Sound}

ok-injective : {E A : Type 0} {a b : A} → ◌≡◌ {A = Result E A} (ok a) (ok b) → a ≡ b
ok-injective p = cc

abbrev pub is_open : VisitState → Bool
is_open VisitState.unvisited = true
is_open VisitState.valid = true
is_open _ = false

-- Nothing changed but that ids became valid.
abbrev pub Only : TrustValidator → TrustValidator → Type 0
Only v w = (j : String) → (state_of w j ≡ state_of v j) ⊎ (state_of w j ≡ VisitState.valid)

Only-trans : (v w u : TrustValidator) → Only v w → Only w u → Only v u
Only-trans v w u a b j = ground (arith, a j, b j)

Only-visited :
    (v w : TrustValidator) (id : String)
    → state_of w id ≡ VisitState.valid
    → Only (begin_visit id (resolve id v).0) w
    → Only v w
Only-visited v w id at only j = ground (
  arith,
  eq_iff id j,
  only j,
  state_of-begin_visit (resolve id v).0 id j,
  state_of-resolve v id j,
)

abbrev pub Finished : TrustValidator → TrustValidator × Outcome → Type 0
Finished v (w, o) = (o ≡ out_of_fuel) ⊎ ((o ≡ done) × Only v w)

-- The id, or one that it reaches.
abbrev pub InClosure : Find → String → String → Type 0
InClosure find id j = (j ≡ id) ⊎ Reaches find j id

pub record IsClean (find : Find) (root_id : String) (v : TrustValidator) (id : String)
    : Type 0 where
  pub not_root : (j : String) → InClosure find id j → j ≢ root_id
  pub open_states : (j : String) → InClosure find id j → is_open (state_of v j) ≡ true

pub IsClean-Only :
    {find : Find} {root_id : String} {v w : TrustValidator} {id : String}
    → Only v w
    → IsClean find root_id v id
    → IsClean find root_id w id
IsClean-Only {v = v} {w = w} o c = record {
  not_root = c.not_root;
  open_states = λ j i. ground (arith, o j, c.open_states j i);
}

InClosure-of_support :
    {find : Find} (id s : String) (c : Claim)
    → find id ≡ some c
    → contains c.supporting_claim_ids s ≡ true
    → (j : String) → InClosure find s j
    → Reaches find j id
InClosure-of_support {find} id s c e m j (inl same) =
    subst (λ x. Reaches find x id) (sym same) (Reaches.direct c e m)
InClosure-of_support id s c e m j (inr r) = Reaches.through c s e m r

check_support_of_passes :
    (canon : Canon) (validate : Rule) (id : String) (c : Claim)
    → PassesChecks canon validate c
    → check_support canon validate id c ≡ ok tt
unfolding check_support
check_support_of_passes canon validate id c p = ground (arith, eq_iff c.status "approved")

module _ (canon : Canon) (validate : Rule) (find : Find) (root_id : String) where
  IsClean-begin_visit :
      (id s : String) (c : Claim) (v : TrustValidator)
      → find id ≡ some c
      → contains c.supporting_claim_ids s ≡ true
      → Trusted canon validate find id
      → IsClean find root_id v id
      → IsClean find root_id (begin_visit id (resolve id v).0) s
  IsClean-begin_visit id s c v e m t clean = record {
    not_root = λ j i. clean.not_root j (inr (InClosure-of_support id s c e m j i));
    open_states = λ j i.
        let r = InClosure-of_support id s c e m j i in
        elim (Bool-cases (id == j)) [
          | inl same ↦
              absurd
                (Trusted-acyclic t (subst (λ x. Reaches find x id) (sym ((eq_iff id j).0 same)) r))
          | inr other ↦ ground (
            arith,
            state_of-begin_visit (resolve id v).0 id j,
            state_of-resolve v id j,
            clean.open_states j (inr r),
          )
        ];
  }

  abbrev pub CompleteVisitor : Visitor → Type 0
  CompleteVisitor visit =
      (id : String) (path : List String) (v : TrustValidator)
      → Inv canon validate find v
      → Trusted canon validate find id
      → IsClean find root_id v id
      → Finished v (visit id path v)

  -- The loop ends with its own claim valid.
  abbrev FinishedAt : String → TrustValidator → TrustValidator × Outcome → Type 0
  FinishedAt id v (w, o) =
      (o ≡ out_of_fuel) ⊎ ((o ≡ done) × (state_of w id ≡ VisitState.valid) × Only v w)

  FinishedAt-after_support :
      (id s : String) (v : TrustValidator) (r : TrustValidator × Outcome)
      (rest : TrustValidator → TrustValidator × Outcome)
      → Finished v r
      → (Only v r.0 → FinishedAt id r.0 (rest r.0))
      → FinishedAt id v (after_support id s r rest)
  unfolding after_support
  FinishedAt-after_support id s v (w, done) rest (inl e) k = cc
  FinishedAt-after_support id s v (w, done) rest (inr (e, o)) k = elim (k o) [
    | inl out ↦ inl out
    | inr (d, at, more) ↦ inr (d, at, Only-trans v w (rest w).0 o more)
  ]
  FinishedAt-after_support id s v (w, failed e) rest h k = absurd (ground arith)
  FinishedAt-after_support id s v (w, out_of_fuel) rest h k = inl refl

  module _ (visit : Visitor) (sound : SoundVisitor canon validate find visit)
      (complete : CompleteVisitor visit) (id : String) (path : List String) where
    visit_supports-Finished :
        (seen ids : List String) (v : TrustValidator)
        → Inv canon validate find v
        → well_formed seen ids ≡ true
        → ((s : String) → contains ids s ≡ true → Trusted canon validate find s)
        → ((s : String) → contains ids s ≡ true → IsClean find root_id v s)
        → FinishedAt id v (visit_supports visit root_id id path seen ids v)
    unfolding visit_supports
    visit_supports-Finished seen [] v inv formed all clean = inr (
      refl,
      ground (arith, state_of-set_state v id id VisitState.valid, eq_iff id id),
      λ j. ground (arith, state_of-set_state v id j VisitState.valid),
    )
    visit_supports-Finished seen (s ∷ ids) v inv formed all clean =
        if_cases (FinishedAt id v) (not (is_claim_id s)) (λ e. absurd (ground arith))
          λ safe.
            if_cases (FinishedAt id v) (contains seen s) (λ e. absurd (ground arith))
              λ fresh.
                FinishedAt-after_support id s v (visit s (path ++ s ∷ []) v) _
                  (complete s (path ++ s ∷ []) v inv (all s (contains_self s ids))
                    (clean s (contains_self s ids)))
                  λ only.
                    visit_supports-Finished (s ∷ seen) ids (visit s (path ++ s ∷ []) v).0
                      (sound s (path ++ s ∷ []) v inv).0 (ground arith)
                      (λ j m. all j (ground arith))
                      (λ j m. IsClean-Only only (clean j (ground arith)))

    module _ (c : Claim) (e : find id ≡ some c) (passes : PassesChecks canon validate c)
        (below : (s : String)
          → contains c.supporting_claim_ids s ≡ true
          → Trusted canon validate find s) where
      after_check-Finished :
          (r : Result Reason (Unit {0})) (v : TrustValidator)
          → r ≡ ok tt
          → Inv canon validate find v
          → ((s : String) → contains c.supporting_claim_ids s ≡ true → IsClean find root_id v s)
          → FinishedAt id v (after_check visit root_id id path c r v)
      unfolding after_check
      after_check-Finished (err reason) v p inv clean = absurd (ground arith)
      after_check-Finished (ok _) v p inv clean =
          visit_supports-Finished [] (sort c.supporting_claim_ids) v inv
            (well_formed_of_AreSound c.supporting_claim_ids passes.supports)
            (λ s m. below s (sym (contains-sort c.supporting_claim_ids s) ∙ m))
            (λ s m. clean s (sym (contains-sort c.supporting_claim_ids s) ∙ m))

      after_resolve-Finished :
          (r : TrustValidator × Result Reason Claim)
          → r.1 ≡ ok c
          → Inv canon validate find r.0
          → ((s : String)
              → contains c.supporting_claim_ids s ≡ true
              → IsClean find root_id (begin_visit id r.0) s)
          → FinishedAt id
              (begin_visit id r.0)
              (after_resolve canon validate visit root_id id path r)
      unfolding after_resolve visit_claim
      after_resolve-Finished (w, err reason) p inv clean = absurd (ground arith)
      after_resolve-Finished (w, ok d) p inv clean =
          subst
            (λ x. FinishedAt id (begin_visit id w) (
              after_check visit root_id id path x (check_support canon validate id x)
                (begin_visit id w)))
            (sym (ok-injective p))
            (after_check-Finished (check_support canon validate id c) (begin_visit id w)
              (check_support_of_passes canon validate id c passes) (Inv-begin_visit id inv) clean)

    unvisited-Finished :
        (v : TrustValidator)
        → Inv canon validate find v
        → Trusted canon validate find id
        → IsClean find root_id v id
        → Finished v (after_resolve canon validate visit root_id id path (resolve id v))
    unvisited-Finished v inv (trusted c e passes below) clean =
        elim (after_resolve-Finished c e passes below (resolve id v)
          (resolve_of_found v id (inv.agrees id ∙ e)) (Inv-resolve id inv)
          (λ s m. IsClean-begin_visit id s c v e m (trusted c e passes below) clean)) [
            | inl out ↦ inl out
            | inr (d, at, only) ↦ inr (
              d,
              Only-visited v (after_resolve canon validate visit root_id id path (resolve id v)).0
                  id at only,
            )
          ]

    by_state-Finished :
        (s : VisitState) (v : TrustValidator)
        → state_of v id ≡ s
        → Inv canon validate find v
        → Trusted canon validate find id
        → IsClean find root_id v id
        → Finished v (by_state canon validate s visit root_id id path v)
    unfolding by_state
    by_state-Finished VisitState.valid v h inv t clean = inr (refl, λ j. inl refl)
    by_state-Finished VisitState.invalid v h inv t clean =
        absurd (ground (arith, clean.open_states id (inl refl)))
    by_state-Finished VisitState.visiting v h inv t clean =
        absurd (ground (arith, clean.open_states id (inl refl)))
    by_state-Finished VisitState.unvisited v h inv t clean = unvisited-Finished v inv t clean

  pub visit-Finished : (fuel : ℕ) → CompleteVisitor (visit canon validate fuel root_id)
  unfolding visit
  visit-Finished zero id path v inv t clean = inl refl
  visit-Finished (suc fuel) id path v inv t clean =
      if_cases (Finished v) (is_active v root_id && id == root_id)
        (λ e. absurd (clean.not_root id (inl refl) (ground (arith, eq_iff id root_id))))
        λ e.
          by_state-Finished (visit canon validate fuel root_id) (visit-Sound fuel root_id)
            (visit-Finished fuel) id path (state_of v id) v refl inv t clean
