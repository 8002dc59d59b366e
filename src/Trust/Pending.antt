-- ===== src/Trust/Pending.antt =====
-- trust.rs (crates/zbrain/src): the ids still unvisited, and the steps of a visit.
use zbrain.Prelude.{
  ℕ, ◌+◌, ◌≤◌, ◌<◌, String, ◌≡◌, ◌≢◌, Bool, true, false, List, [], ◌∷◌, ◌++◌, ◌==◌, eq_iff, arith,
  if◌then◌else◌, Bool-cases, inl, inr, length,
}
use zbrain.Prelude.Sets.{contains}
use zbrain.Prelude.Assoc.{get}
use zbrain.Trust.{
  Reason, TrustFailure, VisitState, TrustValidator, Outcome, out_of_fuel, state_of, set_state,
  mark_invalid, mark_cycle,
}
use zbrain.Trust.Visit.{inherited, inherit_failure, resolve, begin_visit}
use zbrain.Trust.Frame.{
  state_of-set_state, state_of-mark_invalid, state_of-begin_visit, state_of-resolve,
}

abbrev pub is_unvisited : VisitState → Bool
is_unvisited VisitState.unvisited = true
is_unvisited _ = false

-- How many of the ids are unvisited.
pub pending : TrustValidator → List String → ℕ
pending v [] = 0
pending v (id ∷ ids) = (if is_unvisited (state_of v id) then 1 else 0) + pending v ids

-- An id that was visited stays so.
abbrev pub Later : TrustValidator → TrustValidator → Type 0
Later v w = (j : String) → is_unvisited (state_of w j) ≡ true → is_unvisited (state_of v j) ≡ true

pub pending-Later :
    (v w : TrustValidator) (ids : List String) → Later v w → pending w ids ≤ pending v ids
unfolding pending
pending-Later v w [] l = omega arith
pending-Later v w (id ∷ ids) l = ground (arith, l id, pending-Later v w ids l)

pub pending-le-length : (v : TrustValidator) (ids : List String) → pending v ids ≤ length ids
unfolding pending
pending-le-length v [] = omega arith
pending-le-length v (id ∷ ids) = ground (arith, pending-le-length v ids)

-- Marking an id of the list leaves fewer.
pub pending-lt :
    (v w : TrustValidator) (id : String) (ids : List String)
    → Later v w
    → contains ids id ≡ true
    → is_unvisited (state_of v id) ≡ true
    → is_unvisited (state_of w id) ≡ false
    → pending w ids < pending v ids
unfolding pending
pending-lt v w id [] l m u s = cc
pending-lt v w id (j ∷ ids) l m u s = elim (Bool-cases (j == id)) [
  | inl same ↦ ground (arith, eq_iff j id, l id, l j, pending-Later v w ids l)
  | inr other ↦ ground (arith, l j, pending-lt v w id ids l)
]

pub Later-mark_invalid :
    (v : TrustValidator) (id : String) (f : TrustFailure) → Later v (mark_invalid id f v)
Later-mark_invalid v id f j h = ground (arith, state_of-mark_invalid v id j f)

pub Later-set_valid : (v : TrustValidator) (id : String) → Later v (set_state id VisitState.valid v)
Later-set_valid v id j h = ground (arith, state_of-set_state v id j VisitState.valid)

pub Later-begin_visit : (v : TrustValidator) (id : String) → Later v (begin_visit id v)
Later-begin_visit v id j h = ground (arith, state_of-begin_visit v id j)

pub Later-resolve : (v : TrustValidator) (id : String) → Later v (resolve id v).0
Later-resolve v id j h = rw (← state_of-resolve v id j) h

pub Later-mark_cycle :
    (before nodes : List String) (v : TrustValidator) → Later v (mark_cycle before nodes v)
unfolding mark_cycle
Later-mark_cycle before [] v j h = h
Later-mark_cycle before (node ∷ nodes) v j h =
    Later-mark_invalid v node _ j (Later-mark_cycle (before ++ node ∷ []) nodes _ j h)

pub Later-inherit_failure :
    (v : TrustValidator) (id s : String) (r : Reason) → Later v (inherit_failure id s r v)
unfolding inherit_failure
Later-inherit_failure v id s r =
    elim (state_of v id)
      as (λ x. Later v (elim x [
        | VisitState.invalid ↦ v
        | _ ↦ mark_invalid id (inherited id s r (get v.failures s)) v
      ])) [ VisitState.invalid ↦ λ j h. h | _ ↦ Later-mark_invalid v id _ ]

-- The visit did not stop for want of fuel.
abbrev pub Ended : TrustValidator → TrustValidator × Outcome → Type 0
Ended v (w, o) = (o ≢ out_of_fuel) × Later v w
