-- ===== src/Claims/Contradictions/Symmetric.antt =====
-- claims.rs (crates/zbrain/src): the heuristics with the two claims exchanged.
use zbrain.Prelude.{String, Bool, ◌≡◌, refl, Option, none, some, List, [], ◌∷◌, ◌==◌, eq_iff, arith}
use zbrain.Claims.Contradictions.{
  Unicode, ContradictionClause, equal_token_slices, swaps_value, statuses_differ, changes_status,
  detect_negation_flip, detect_value_swap, detect_status_change, classify_contradiction,
  contradiction_tokens, normalize_contradiction_core, split_contradiction_clause,
}

eq-sym : (s t : String) → (s == t) ≡ (t == s)
eq-sym s t = ground (arith, eq_iff s t, eq_iff t s)

equal_token_slices-sym :
    (left right : List String) → equal_token_slices left right ≡ equal_token_slices right left
unfolding equal_token_slices
equal_token_slices-sym [] [] = refl
equal_token_slices-sym [] (r ∷ right) = refl
equal_token_slices-sym (l ∷ left) [] = refl
equal_token_slices-sym (l ∷ left) (r ∷ right) = cc (eq-sym l r, equal_token_slices-sym left right)

swaps_value-sym : (a b : Option ContradictionClause) → swaps_value a b ≡ swaps_value b a
unfolding swaps_value
swaps_value-sym none none = refl
swaps_value-sym none (some b) = refl
swaps_value-sym (some a) none = refl
swaps_value-sym (some a) (some b) =
    rw
      (
        eq-sym a.verb b.verb,
        equal_token_slices-sym a.subject b.subject,
        equal_token_slices-sym a.object b.object,
      )
      refl

statuses_differ-sym :
    (a b : List String) (same : Bool) → statuses_differ a b same ≡ statuses_differ b a same
unfolding statuses_differ
statuses_differ-sym [] [] same = refl
statuses_differ-sym [] (y ∷ []) same = refl
statuses_differ-sym [] (y ∷ z ∷ b) same = refl
statuses_differ-sym (x ∷ []) [] same = refl
statuses_differ-sym (x ∷ w ∷ a) [] same = refl
statuses_differ-sym (x ∷ []) (y ∷ []) same = ground (arith, eq-sym x y)
statuses_differ-sym (x ∷ []) (y ∷ z ∷ b) same = refl
statuses_differ-sym (x ∷ w ∷ a) (y ∷ []) same = refl
statuses_differ-sym (x ∷ w ∷ a) (y ∷ z ∷ b) same = refl

changes_status-sym : (a b : Option ContradictionClause) → changes_status a b ≡ changes_status b a
unfolding changes_status
changes_status-sym none none = refl
changes_status-sym none (some b) = refl
changes_status-sym (some a) none = refl
changes_status-sym (some a) (some b) =
    rw (equal_token_slices-sym a.subject b.subject) (statuses_differ-sym a.object b.object _)

module _ (unicode : Unicode) where
  negation_flip-sym :
      (a b : String) → detect_negation_flip unicode a b ≡ detect_negation_flip unicode b a
  unfolding detect_negation_flip
  negation_flip-sym a b =
      let core_a = (normalize_contradiction_core (contradiction_tokens unicode a)).0 in
      let core_b = (normalize_contradiction_core (contradiction_tokens unicode b)).0 in
      ground (arith, equal_token_slices-sym core_a core_b)

  -- Two texts contradict each other in the same way whichever of them is the draft's.
  pub classify_contradiction-sym :
      (a b : String) → classify_contradiction unicode a b ≡ classify_contradiction unicode b a
  unfolding classify_contradiction detect_status_change detect_value_swap
  classify_contradiction-sym a b =
      let clause_a = split_contradiction_clause unicode a in
      let clause_b = split_contradiction_clause unicode b in
      rw
        (
          changes_status-sym clause_a clause_b,
          negation_flip-sym a b,
          swaps_value-sym clause_a clause_b,
        )
        refl
