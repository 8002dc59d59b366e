-- ===== src/Trust/Exact.antt =====
-- trust.rs (crates/zbrain/src): validation on a fresh validator, against the closure of the root's supports.
use mathlib.Core.Path.{subst}
use zbrain.Prelude.{
  ℕ, String, ◌≡◌, ◌≢◌, refl, true, not, ◌<◌, some, List, [], ◌∷◌, ◌↔◌, arith, ◌⊎◌, inl, inr, sym,
  ◌∙◌, if_cases, length,
}
use zbrain.Prelude.Sets.{contains, contains_self}
use zbrain.Prelude.Sort.{sort, contains-sort}
use zbrain.Prelude.Assoc.{insert}
use zbrain.Ids.{is_claim_id}
use zbrain.Claims.{Claim}
use zbrain.Claims.Digest.{Canon}
use zbrain.Trust.{VisitState, TrustValidator, Outcome, done, failed, out_of_fuel, state_of}
use zbrain.Trust.Visit.{Visitor, Rule, visit}
use zbrain.Trust.Root.{
  after_root, root_supports, validate_root_supports, validate_claim_with_support,
}
use zbrain.Trust.Trusted.{Find, Trusted, trusted, Reaches, reached_is_Trusted, Trusted-acyclic}
use zbrain.Trust.WellFormed.{well_formed, well_formed_of_AreSound}
use zbrain.Trust.Invariant.{Inv}
use zbrain.Trust.Steps.{SoundVisitor}
use zbrain.Trust.Sound.{visit-Sound}
use zbrain.Trust.Validated.{SupportsTrusted, Inv-active, validate_claim_with_support-Sound}
use zbrain.Trust.Total.{validate_claim_with_support_total}
use zbrain.Trust.Complete.{
  Only, Finished, InClosure, IsClean, IsClean-Only, CompleteVisitor, visit-Finished,
}

-- The claim under the root's id has the root's supports: the root is the stored claim, or not stored.
abbrev pub IsStored : Find → Claim → Type 0
IsStored find root =
    (c : Claim) → find root.id ≡ some c → c.supporting_claim_ids ≡ root.supporting_claim_ids

-- No id has been visited.
abbrev pub IsFresh : TrustValidator → Type 0
IsFresh v = (j : String) → state_of v j ≡ VisitState.unvisited

-- A support of the root does not lead back to it, since the root would be trusted and reach itself.
root_not-Trusted :
    {canon : Canon} {validate : Rule} {find : Find} (root : Claim) (s : String)
    → IsStored find root
    → contains root.supporting_claim_ids s ≡ true
    → InClosure find s root.id
    → Trusted canon validate find root.id
    → ⊥
root_not-Trusted {canon} {validate} {find} root s stored m i t = go t
  where
    holds : (c : Claim) → find root.id ≡ some c → contains c.supporting_claim_ids s ≡ true
    holds c e = rw (stored c e) m

    cycle_at :
        (c : Claim)
        → find root.id ≡ some c
        → InClosure find s root.id
        → Reaches find root.id root.id
    cycle_at c e (inl same) = Reaches.direct c e (rw same (holds c e))
    cycle_at c e (inr r) = Reaches.through c s e (holds c e) r

    own_claim : {x : String} → Trusted canon validate find x → (c : Claim) × (find x ≡ some c)
    own_claim (trusted c e p below) = (c, e)

    go : Trusted canon validate find root.id → ⊥
    go u = let (c, e) = own_claim u in Trusted-acyclic u (cycle_at c e i)

not_back_to_root :
    {canon : Canon} {validate : Rule} {find : Find} (root : Claim) (s : String)
    → IsStored find root
    → contains root.supporting_claim_ids s ≡ true
    → Trusted canon validate find s
    → (j : String) → InClosure find s j
    → j ≢ root.id
not_back_to_root {canon} {validate} {find} root s stored m t j i back =
    root_not-Trusted root s stored m (subst (InClosure find s) back i)
      (subst (Trusted canon validate find) back (reached j i))
  where
    reached : (j : String) → InClosure find s j → Trusted canon validate find j
    reached j (inl same) = subst (Trusted canon validate find) (sym same) t
    reached j (inr r) = reached_is_Trusted r t

module _ (canon : Canon) (validate : Rule) (find : Find) (root_id : String) where
  abbrev RootFinished : TrustValidator × Outcome → Type 0
  RootFinished (w, o) = (o ≡ out_of_fuel) ⊎ (o ≡ done)

  RootFinished-after_root :
      (v : TrustValidator) (r : TrustValidator × Outcome)
      (rest : TrustValidator → TrustValidator × Outcome)
      → Finished v r
      → (Only v r.0 → RootFinished (rest r.0))
      → RootFinished (after_root r rest)
  unfolding after_root
  RootFinished-after_root v (w, done) rest (inl e) k = cc
  RootFinished-after_root v (w, done) rest (inr (e, o)) k = k o
  RootFinished-after_root v (w, failed e) rest h k = absurd (ground arith)
  RootFinished-after_root v (w, out_of_fuel) rest h k = inl refl

  root_supports-Finished :
      (visit : Visitor) (sound : SoundVisitor canon validate find visit)
      (complete : CompleteVisitor canon validate find root_id visit) (seen ids : List String)
      (v : TrustValidator)
      → Inv canon validate find v
      → well_formed seen ids ≡ true
      → ((s : String) → contains ids s ≡ true → Trusted canon validate find s)
      → ((s : String) → contains ids s ≡ true → IsClean find root_id v s)
      → RootFinished (root_supports visit root_id seen ids v)
  unfolding root_supports
  root_supports-Finished visit sound complete seen [] v inv formed all clean = inr refl
  root_supports-Finished visit sound complete seen (s ∷ ids) v inv formed all clean =
      if_cases RootFinished (not (is_claim_id s)) (λ e. absurd (ground arith))
        λ safe.
          if_cases RootFinished (contains seen s) (λ e. absurd (ground arith))
            λ fresh.
              RootFinished-after_root v (visit s (root_id ∷ s ∷ []) v) _
                (complete s (root_id ∷ s ∷ []) v inv (all s (contains_self s ids))
                  (clean s (contains_self s ids)))
                λ only.
                  root_supports-Finished visit sound complete (s ∷ seen) ids
                    (visit s (root_id ∷ s ∷ []) v).0 (sound s (root_id ∷ s ∷ []) v inv).0
                    (ground arith) (λ j m. all j (ground arith))
                    (λ j m. IsClean-Only only (clean j (ground arith)))

module _ (canon : Canon) (validate : Rule) (find : Find) where
  supports-IsClean :
      (root : Claim) (v : TrustValidator)
      → IsStored find root
      → IsFresh v
      → SupportsTrusted canon validate find root
      → (s : String) → contains root.supporting_claim_ids s ≡ true
      → IsClean find root.id v s
  supports-IsClean root v stored fresh h s m = record {
    not_root = not_back_to_root root s stored m (h.all_trusted s m);
    open_states = λ j i. ground (arith, fresh j);
  }

  validate_claim_with_support-Finished :
      (fuel : ℕ) (root : Claim) (v : TrustValidator)
      → Inv canon validate find v
      → IsFresh v
      → IsStored find root
      → is_claim_id root.id ≡ true
      → SupportsTrusted canon validate find root
      → RootFinished canon validate find root.id
          (validate_claim_with_support canon validate fuel root v)
  unfolding validate_claim_with_support validate_root_supports
  validate_claim_with_support-Finished fuel root v inv fresh stored safe h =
      if_cases (RootFinished canon validate find root.id) (not (is_claim_id root.id))
        (λ e. absurd (ground arith))
        λ e.
          root_supports-Finished canon validate find root.id (visit canon validate fuel root.id)
            (visit-Sound fuel root.id) (visit-Finished canon validate find root.id fuel) []
            (sort root.supporting_claim_ids) _ (Inv-active _ inv)
            (well_formed_of_AreSound root.supporting_claim_ids h.sound)
            (λ s m. h.all_trusted s (sym (contains-sort root.supporting_claim_ids s) ∙ m))
            (λ s m.
              supports-IsClean root (record v { active_roots = insert root.id true v.active_roots })
                stored fresh h s (sym (contains-sort root.supporting_claim_ids s) ∙ m))

  -- For a stored root with a safe id and a fresh validator, with fuel above the number of ids that
  -- can be found, validation says yes exactly when the root's supports are safe and distinct and
  -- every claim in their closure is approved, has its digest and passes the caller's rule.
  pub validate_claim_exact :
      (ids : List String) (fuel : ℕ) (root : Claim) (v : TrustValidator)
      → ((j : String) (c : Claim) → find j ≡ some c → contains ids j ≡ true)
      → length ids < fuel
      → Inv canon validate find v
      → IsFresh v
      → IsStored find root
      → is_claim_id root.id ≡ true
      → ((validate_claim_with_support canon validate fuel root v).1 ≡ done)
        ↔ SupportsTrusted canon validate find root
  validate_claim_exact ids fuel root v covers fits inv fresh stored safe = (
    (validate_claim_with_support-Sound fuel root v inv).1,
    λ h. elim (validate_claim_with_support-Finished fuel root v inv fresh stored safe h) [
      | inl out ↦ absurd (
          validate_claim_with_support_total canon validate find ids covers fuel root v inv fits out)
      | inr d ↦ d
    ],
  )
