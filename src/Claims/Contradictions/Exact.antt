-- ===== src/Claims/Contradictions/Exact.antt =====
-- claims.rs (crates/zbrain/src): which contradictions are reported.
pub mod Keys
use mathlib.Core.Path.{subst}
use zbrain.Prelude.{
  String, true, false, ◌≡◌, ◌≢◌, refl, ap, sym, ◌∙◌, ◌⊎◌, ◌↔◌, inl, inr, Option, none, some, List,
  [], ◌∷◌, ◌++◌, ◌==◌, eq_iff, arith, Bool-cases, if_cases, not, ◌||◌, All,
}
use zbrain.Prelude.Sets.{contains, contains-cons, contains_self}
use zbrain.Claims.{Claim, Contradiction}
use zbrain.Claims.Contradictions.{
  Unicode, classify_contradiction, heuristics_of, with_found, seen_key, report, heuristic_order,
  detect_from, detect_contradictions, detect_status_change,
}
use Keys.{IsHeuristic, seen_key-injective}

-- The claim is reported for the heuristic.
abbrev pub Listed : String → String → List Contradiction → Type 0
Listed id heuristic [] = ⊥
Listed id heuristic (c ∷ cs) =
    (c.claim_id ≡ id) × (c.heuristic ≡ heuristic) ⊎ Listed id heuristic cs

Listed-append_left :
    (id h : String) (xs ys : List Contradiction) → Listed id h xs → Listed id h (xs ++ ys)
Listed-append_left id h [] ys l = absurd l
Listed-append_left id h (x ∷ xs) ys (inl e) = inl e
Listed-append_left id h (x ∷ xs) ys (inr l) = inr (Listed-append_left id h xs ys l)

Listed-append_right :
    (id h : String) (xs ys : List Contradiction) → Listed id h ys → Listed id h (xs ++ ys)
Listed-append_right id h [] ys l = l
Listed-append_right id h (x ∷ xs) ys l = inr (Listed-append_right id h xs ys l)

Listed-append :
    (id h : String) (xs ys : List Contradiction)
    → Listed id h (xs ++ ys)
    → Listed id h xs ⊎ Listed id h ys
Listed-append id h [] ys l = inr l
Listed-append id h (x ∷ xs) ys (inl e) = inl (inl e)
Listed-append id h (x ∷ xs) ys (inr l) = elim (Listed-append id h xs ys l) [
  | inl m ↦ inl (inr m)
  | inr m ↦ inr m
]

with_found-contains :
    (h : String) (t b : Option String)
    → (contains (with_found t (with_found b [])) h ≡ true) ↔ ((t ≡ some h) ⊎ (b ≡ some h))
unfolding with_found
with_found-contains h none none = (λ e. cc e, λ e. elim e [ inl f ↦ cc f | inr f ↦ cc f ])
with_found-contains h none (some y) = (
  λ e. inr (ground (arith, eq_iff y h)),
  λ e. elim e [ inl f ↦ cc f | inr f ↦ ground (arith, eq_iff y h) ],
)
with_found-contains h (some x) none = (
  λ e. inl (ground (arith, eq_iff x h)),
  λ e. elim e [ inl f ↦ ground (arith, eq_iff x h) | inr f ↦ cc f ],
)
with_found-contains h (some x) (some y) = (
  λ e. ground (arith, eq_iff x h, eq_iff y h),
  λ e. elim e [ inl f ↦ ground (arith, eq_iff x h) | inr f ↦ ground (arith, eq_iff y h) ],
)

module _ (unicode : Unicode) (draft : Claim) where
  -- The titles or the bodies of the two claims contradict each other by the heuristic.
  abbrev pub Contradicts : Claim → String → Type 0
  Contradicts approved heuristic =
      (classify_contradiction unicode draft.title approved.title ≡ some heuristic)
      ⊎ (classify_contradiction unicode draft.body approved.body ≡ some heuristic)

  -- Some claim with the id, which is not the draft's, contradicts the draft by the heuristic.
  abbrev pub Against : String → String → List Claim → Type 0
  Against id heuristic [] = ⊥
  Against id heuristic (approved ∷ claims) =
      (approved.id ≡ id) × (approved.id ≢ draft.id) × Contradicts approved heuristic
      ⊎ Against id heuristic claims

  heuristics_of-contains :
      (approved : Claim) (h : String)
      → (contains (heuristics_of unicode draft approved) h ≡ true) ↔ Contradicts approved h
  unfolding heuristics_of
  heuristics_of-contains approved h =
      with_found-contains h (classify_contradiction unicode draft.title approved.title)
        (classify_contradiction unicode draft.body approved.body)

  classify-IsHeuristic :
      (s t h : String) → classify_contradiction unicode s t ≡ some h → IsHeuristic h
  unfolding classify_contradiction
  classify-IsHeuristic s t h e = ground arith

  Contradicts-IsHeuristic : (approved : Claim) (h : String) → Contradicts approved h → IsHeuristic h
  Contradicts-IsHeuristic approved h (inl e) = classify-IsHeuristic draft.title approved.title h e
  Contradicts-IsHeuristic approved h (inr e) = classify-IsHeuristic draft.body approved.body h e

  Against-IsHeuristic : (id h : String) (claims : List Claim) → Against id h claims → IsHeuristic h
  Against-IsHeuristic id h [] a = absurd a
  Against-IsHeuristic id h (c ∷ claims) (inl (e, ne, k)) = Contradicts-IsHeuristic c h k
  Against-IsHeuristic id h (c ∷ claims) (inr a) = Against-IsHeuristic id h claims a

report-Listed :
    (id : String) (hs seen order : List String) (id2 h : String)
    → Listed id2 h (report id hs seen order).0
    → (id ≡ id2) × (contains hs h ≡ true)
unfolding report
report-Listed id hs seen [] id2 h l = absurd l
report-Listed id hs seen (o ∷ order) id2 h l = ground (
  arith,
  report-Listed id hs seen order id2 h,
  report-Listed id hs (seen_key id o ∷ seen) order id2 h,
)

-- What is found and in the order is reported or was seen.
report_complete :
    (id : String) (hs seen order : List String) (h : String)
    → All IsHeuristic order
    → IsHeuristic h
    → contains hs h ≡ true
    → contains order h ≡ true
    → Listed id h (report id hs seen order).0 ⊎ (contains seen (seen_key id h) ≡ true)
unfolding report
report_complete id hs seen [] h known kh found ordered = cc ordered
report_complete id hs seen (o ∷ order) h (ko, known) kh found ordered =
    if_cases
      (λ (r : List Contradiction × List String).
        Listed id h r.0 ⊎ (contains seen (seen_key id h) ≡ true))
      (not (contains hs o) || contains seen (seen_key id o))
      (λ t. elim (Bool-cases (o == h)) [
        | inl e ↦ inr (
            seen_as o h (subst (λ x. contains hs x ≡ true) (sym ((eq_iff o h).0 e)) found) t
              ((eq_iff o h).0 e))
        | inr e ↦ report_complete id hs seen order h known kh found (later o h order e ordered)
      ])
      (λ t. elim (Bool-cases (o == h)) [
        | inl e ↦ inl (inl (refl, (eq_iff o h).0 e))
        | inr e ↦
            elim (report_complete id hs (seen_key id o ∷ seen) order h known kh found
              (later o h order e ordered)) [
                | inl l ↦ inl (inr l)
                | inr c ↦ elim (contains-cons (seen_key id o) seen (seen_key id h) c) [
                  | inl k ↦ inl (inl (refl, (seen_key-injective id id o h ko kh k).1))
                  | inr d ↦ inr d
                ]
              ]
      ])
  where
    later :
        (o h : String) (order : List String)
        → (o == h) ≡ false
        → contains (o ∷ order) h ≡ true
        → contains order h ≡ true
    later o h order e ordered = ground arith

    seen_as :
        (o h : String)
        → contains hs o ≡ true
        → (not (contains hs o) || contains seen (seen_key id o)) ≡ true
        → o ≡ h
        → contains seen (seen_key id h) ≡ true
    seen_as o h here t same = subst (λ x. contains seen (seen_key id x) ≡ true) same (ground arith)

-- What is seen after a report was seen before or is reported.
report-seen :
    (id : String) (hs seen order : List String) (id2 h : String)
    → All IsHeuristic order
    → IsHeuristic h
    → contains (report id hs seen order).1 (seen_key id2 h) ≡ true
    → Listed id2 h (report id hs seen order).0 ⊎ (contains seen (seen_key id2 h) ≡ true)
unfolding report
report-seen id hs seen [] id2 h known kh = λ e. inr e
report-seen id hs seen (o ∷ order) id2 h (ko, known) kh =
    if_cases
      (λ (r : List Contradiction × List String).
        contains r.1 (seen_key id2 h) ≡ true
        → Listed id2 h r.0 ⊎ (contains seen (seen_key id2 h) ≡ true))
      (not (contains hs o) || contains seen (seen_key id o))
      (λ t e. report-seen id hs seen order id2 h known kh e)
      (λ t e. elim (report-seen id hs (seen_key id o ∷ seen) order id2 h known kh e) [
        | inl l ↦ inl (inr l)
        | inr c ↦ elim (contains-cons (seen_key id o) seen (seen_key id2 h) c) [
          | inl k ↦ inl (inl (seen_key-injective id id2 o h ko kh k))
          | inr d ↦ inr d
        ]
      ])

module _ (unicode : Unicode) (draft : Claim) where
  differ : (s t : String) → (s == t) ≡ false → s ≡ t → ⊥
  differ s t apart e = ground (arith, eq_iff s t)

  order_known : All IsHeuristic heuristic_order
  order_known = (inl refl, (inr (inl refl), (inr (inr refl), tt)))

  order_complete : (h : String) → IsHeuristic h → contains heuristic_order h ≡ true
  order_complete h (inl e) = rw e refl
  order_complete h (inr (inl e)) = rw e refl
  order_complete h (inr (inr e)) = rw e refl

  detect_from_sound :
      (seen : List String) (claims : List Claim) (id h : String)
      → Listed id h (detect_from unicode draft seen claims)
      → Against unicode draft id h claims
  unfolding detect_from
  detect_from_sound seen [] id h = λ l. absurd l
  detect_from_sound seen (a ∷ claims) id h =
      if_cases (λ (r : List Contradiction). Listed id h r → Against unicode draft id h (a ∷ claims))
        (a.id == draft.id) (λ same l. inr (detect_from_sound seen claims id h l))
        (λ apart l.
          elim (Listed-append id h
            (report a.id (heuristics_of unicode draft a) seen heuristic_order).0 _ l) [
              | inl m ↦
                  let (same, found) =
                    report-Listed a.id (heuristics_of unicode draft a) seen heuristic_order id h
                      m in
                  inl (
                    same,
                    λ e. differ a.id draft.id apart e,
                    (heuristics_of-contains unicode draft a h).0 found,
                  )
              | inr m ↦ inr (
                  detect_from_sound
                    (report a.id (heuristics_of unicode draft a) seen heuristic_order).1 claims id h
                    m)
            ])

  detect_from_complete :
      (seen : List String) (claims : List Claim) (id h : String)
      → Against unicode draft id h claims
      → Listed id h (detect_from unicode draft seen claims) ⊎ (contains seen (seen_key id h) ≡ true)
  unfolding detect_from
  detect_from_complete seen [] id h l = absurd l
  detect_from_complete seen (a ∷ claims) id h against =
      if_cases (λ (r : List Contradiction). Listed id h r ⊎ (contains seen (seen_key id h) ≡ true))
        (a.id == draft.id)
        (λ same. elim against [
          | inl (e, ne, c) ↦ absurd (ne ((eq_iff a.id draft.id).0 same))
          | inr rest ↦ detect_from_complete seen claims id h rest
        ])
        (λ apart. elim against [
          | inl (e, ne, c) ↦
              subst (λ x. Listed x h (reported ++ others) ⊎ (contains seen (seen_key x h) ≡ true)) e
                (elim (report_complete a.id hs seen heuristic_order h order_known
                  (Contradicts-IsHeuristic unicode draft a h c)
                  ((heuristics_of-contains unicode draft a h).1 c)
                  (order_complete h (Contradicts-IsHeuristic unicode draft a h c))) [
                    | inl l ↦ inl (Listed-append_left a.id h reported others l)
                    | inr s ↦ inr s
                  ])
          | inr rest ↦ elim (detect_from_complete seen_now claims id h rest) [
            | inl l ↦ inl (Listed-append_right id h reported others l)
            | inr c ↦
                elim (report-seen a.id hs seen heuristic_order id h order_known
                  (Against-IsHeuristic unicode draft id h claims rest) c) [
                    | inl l ↦ inl (Listed-append_left id h reported others l)
                    | inr d ↦ inr d
                  ]
          ]
        ])
    where
      hs : List String
      hs = heuristics_of unicode draft a

      reported : List Contradiction
      reported = (report a.id hs seen heuristic_order).0

      seen_now : List String
      seen_now = (report a.id hs seen heuristic_order).1

      others : List Contradiction
      others = detect_from unicode draft seen_now claims

  -- A claim is reported for a heuristic exactly when some approved claim with its id, which is not the
  -- draft's, contradicts the draft by that heuristic in its title or in its body.
  pub detect_contradictions_exact :
      (claims : List Claim) (id h : String)
      → Listed id h (detect_contradictions unicode draft claims) ↔ Against unicode draft id h claims
  unfolding detect_contradictions
  detect_contradictions_exact claims id h = (
    detect_from_sound [] claims id h,
    λ a. elim (detect_from_complete [] claims id h a) [ inl l ↦ l | inr e ↦ cc e ],
  )
