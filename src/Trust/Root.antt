-- ===== src/Trust/Root.antt =====
-- trust.rs (crates/zbrain/src): `validate_root_supports`, `validate_claim` and
-- `validate_claim_with_support`, which visit each support of a root.
use zbrain.Prelude.{ℕ, String, true, not, List, [], ◌∷◌, ok, if◌then◌else◌}
use zbrain.Prelude.Assoc.{insert, remove}
use zbrain.Prelude.Sets.{contains}
use zbrain.Prelude.Sort.{sort}
use zbrain.Ids.{is_claim_id}
use zbrain.Claims.{Claim}
use zbrain.Claims.Digest.{Canon}
use zbrain.Trust.{Reason, TrustValidator, Outcome, done, failed, out_of_fuel, fail}
use zbrain.Trust.Visit.{Visitor, Rule, visit}

unfoldable pub after_root :
    TrustValidator × Outcome
    → (TrustValidator → TrustValidator × Outcome)
    → TrustValidator × Outcome
after_root (v, done) rest = rest v
after_root (v, failed e) rest = (v, failed e)
after_root (v, out_of_fuel) rest = (v, out_of_fuel)

unfoldable pub root_supports :
    Visitor → String → List String → List String → TrustValidator → TrustValidator × Outcome
root_supports visit root_id seen [] v = (v, done)
root_supports visit root_id seen (id ∷ ids) v =
    let rest = root_supports visit root_id (id ∷ seen) ids in
    if not (is_claim_id id)
    then (v, fail root_id (root_id ∷ id ∷ []) (Reason.support_unsafe id))
    else if contains seen id
    then (v, fail root_id (root_id ∷ id ∷ []) (Reason.support_duplicated id))
    else after_root (visit id (root_id ∷ id ∷ []) v) rest

module _ (canon : Canon) (validate : Rule) where
  unfoldable pub validate_root_supports : ℕ → Claim → TrustValidator → TrustValidator × Outcome
  validate_root_supports fuel root v =
      root_supports (visit canon validate fuel root.id) root.id [] (sort root.supporting_claim_ids)
        v

  abbrev pub end_root : String → TrustValidator × Outcome → TrustValidator × Outcome
  end_root root_id (v, o) = (record v { active_roots = remove root_id v.active_roots }, o)

  -- `validate_claim_with_support`; `validate_claim` passes a rule that accepts every claim.
  unfoldable pub validate_claim_with_support : ℕ → Claim → TrustValidator → TrustValidator × Outcome
  validate_claim_with_support fuel root v =
      if not (is_claim_id root.id)
      then (v, fail root.id (root.id ∷ []) (Reason.root_unsafe root.id))
      else end_root root.id (
          validate_root_supports fuel root
            (record v { active_roots = insert root.id true v.active_roots }))

abbrev pub accept_all : Rule
accept_all claim = ok tt

unfoldable pub validate_claim : Canon → ℕ → Claim → TrustValidator → TrustValidator × Outcome
unfolding validate_claim_with_support
validate_claim canon = validate_claim_with_support canon accept_all
