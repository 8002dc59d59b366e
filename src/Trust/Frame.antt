-- ===== src/Trust/Frame.antt =====
-- trust.rs (crates/zbrain/src): what each step of a visit does to the claims that can be found and
-- to the state of each id.
use zbrain.Prelude.{
  Option-cases, ◌⊎◌, inl, inr, String, ◌≡◌, refl, Option, none, some, ◌==◌, eq_iff, arith, ok, err,
  if◌then◌else◌,
}
use zbrain.Prelude.Assoc.{get, insert, get-insert}
use zbrain.Claims.{Claim}
use zbrain.Trust.{
  Reason, TrustFailure, VisitState, Loaded, loaded, not_found, unreadable, TrustValidator, state_of,
  set_state, mark_invalid,
}
use zbrain.Trust.Visit.{resolve, begin_visit}

abbrev found_by : Loaded → Option Claim
found_by (loaded c) = some c
found_by not_found = none
found_by (unreadable e) = none

abbrev find_by : Option Claim → Option (String → Loaded) → String → Option Claim
find_by (some c) load id = some c
find_by none none id = none
find_by none (some load) id = found_by (load id)

-- The claim that the validator holds or would load.
unfoldable pub find_in : TrustValidator → String → Option Claim
find_in v id = find_by (get v.claims id) v.load id

Loaded-cases : (l : Loaded) → ((c : Claim) × (l ≡ loaded c)) ⊎ (found_by l ≡ none)
Loaded-cases (loaded c) = inl (c, refl)
Loaded-cases not_found = inr refl
Loaded-cases (unreadable e) = inr refl

module _ (v : TrustValidator) (id j : String) where
  pub state_of-set_state :
      (s : VisitState) → state_of (set_state id s v) j ≡ (if id == j then s else state_of v j)
  state_of-set_state s = ground (arith, get-insert id j s v.states)

  pub find_in-set_state : (s : VisitState) → find_in (set_state id s v) j ≡ find_in v j
  unfolding find_in
  find_in-set_state s = refl

  pub state_of-mark_invalid :
      (f : TrustFailure)
      → state_of (mark_invalid id f v) j ≡ (if id == j then VisitState.invalid else state_of v j)
  unfolding mark_invalid
  state_of-mark_invalid f = ground (arith, get-insert id j VisitState.invalid v.states, eq_iff id j)

  pub find_in-mark_invalid : (f : TrustFailure) → find_in (mark_invalid id f v) j ≡ find_in v j
  unfolding mark_invalid find_in
  find_in-mark_invalid f = ground arith

  pub state_of-begin_visit :
      state_of (begin_visit id v) j ≡ (if id == j then VisitState.visiting else state_of v j)
  unfolding begin_visit
  state_of-begin_visit = ground (arith, get-insert id j VisitState.visiting v.states)

  pub find_in-begin_visit : find_in (begin_visit id v) j ≡ find_in v j
  unfolding begin_visit find_in
  find_in-begin_visit = refl

  find_in-hold :
      (load : String → Loaded) (c : Claim)
      → get v.claims id ≡ none
      → v.load ≡ some load
      → load id ≡ loaded c
      → find_in (record v { claims = insert id c v.claims }) j ≡ find_in v j
  unfolding find_in
  find_in-hold load c h l k = ground (arith, get-insert id j c v.claims, eq_iff id j)

  pub find_in-resolve : find_in (resolve id v).0 j ≡ find_in v j
  unfolding resolve
  find_in-resolve = elim (Option-cases (get v.claims id)) [
    | inl none_held ↦ elim (Option-cases v.load) [
      | inl no_load ↦ ground arith
      | inr (load, l) ↦ elim (Loaded-cases (load id)) [
        | inl (c, k) ↦ ground (arith, find_in-hold load c none_held l k)
        | inr k ↦ ground arith
      ]
    ]
    | inr held ↦ ground arith
  ]

  pub state_of-resolve : state_of (resolve id v).0 j ≡ state_of v j
  unfolding resolve
  state_of-resolve = ground arith

module _ (v : TrustValidator) (id : String) where
  pub resolve-eq-ok : {c : Claim} → (resolve id v).1 ≡ ok c → find_in v id ≡ some c
  unfolding resolve find_in
  resolve-eq-ok h = ground arith

  pub resolve-eq-err : {r : Reason} → (resolve id v).1 ≡ err r → find_in v id ≡ none
  unfolding resolve find_in
  resolve-eq-err h = ground arith

  pub resolve_of_found : {c : Claim} → find_in v id ≡ some c → (resolve id v).1 ≡ ok c
  unfolding resolve find_in
  resolve_of_found h = ground arith
