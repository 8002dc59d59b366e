-- ===== src/Examples/Trust.antt =====
-- The theorems on trust for a root with one support, and for a support that supports itself.
use zbrain.Prelude.{
  String, ◌≡◌, ◌≢◌, ◌↔◌, refl, true, some, List, [], ◌∷◌, ◌==◌, inl, arith, if◌then◌else◌,
}
use zbrain.Prelude.Sets.{contains}
use zbrain.Ids.{is_claim_id}
use zbrain.Claims.{Claim}
use zbrain.Trust.{Loaded, loaded, not_found, done, out_of_fuel, from_store}
use zbrain.Prelude.{All, ok}
use zbrain.Prelude.Assoc.{get, insert}
use zbrain.Prelude.Sort.{sort_by, insert_by}
use zbrain.Trust.{TrustValidator, empty_validator, add_claims, new}
use zbrain.Trust.Exact.{IsStored}
use zbrain.Trust.New.{held_by, new_validation_exact}
use zbrain.Trust.Root.{validate_claim_with_support, accept_all}
use zbrain.Trust.Trusted.{Reaches}
use zbrain.Trust.Validated.{SupportsTrusted}
use zbrain.Trust.Refusals.{
  read_by, store_validation_exact, cyclic_support_refused, bad_claim_refused,
  store_validation_total,
}
use zbrain.Examples.Worlds.{canon}

abbrev support_id : String
support_id = "clm_00000000000000000000000000000001"

abbrev claim_with : String → String → List String → Claim
claim_with id status supports = record {
  schema = "zbrain.claim/v1";
  claim_type = "zbrain.claim";
  id = id;
  tier = "axioms";
  path = "wiki/axioms/a.md";
  status = status;
  title = "A";
  description = "";
  resource = "";
  basis = "derived";
  created_at = "T";
  created_by = "owner";
  verified_at = "T";
  verified_by = "owner";
  verified_digest = "sha256:0000000000000000000000000000000000000000000000000000000000000000";
  stale_after = "";
  sources = [];
  evidence_ids = [];
  supporting_claim_ids = supports;
  supersedes = [];
  conflicts_with = [];
  contradicts = [];
  tags = [];
  transitions = [];
  body = "";
}

abbrev root : Claim
root = claim_with "clm_00000000000000000000000000000002" "draft" (support_id ∷ [])

-- A store with one claim.
abbrev holding : Claim → String → Loaded
holding c id = if support_id == id then loaded c else not_found

abbrev approved : String → Loaded
approved = holding (claim_with support_id "approved" [])

abbrev revoked : String → Loaded
revoked = holding (claim_with support_id "revoked" [])

abbrev circular : String → Loaded
circular = holding (claim_with support_id "approved" (support_id ∷ []))

covered :
    (j : String) (c : Claim) → read_by approved j ≡ some c → contains (support_id ∷ []) j ≡ true
covered j c h = ground arith

root_is_safe : is_claim_id root.id ≡ true
unfolding is_claim_id
root_is_safe = refl

store_validation_exact_example :
    ((validate_claim_with_support canon accept_all 2 root (from_store approved)).1 ≡ done)
    ↔ SupportsTrusted canon accept_all (read_by approved) root
store_validation_exact_example =
    store_validation_exact canon accept_all approved (support_id ∷ []) 2 root covered (omega arith)
      (λ c e. cc) root_is_safe

store_validation_total_example :
    (validate_claim_with_support canon accept_all 2 root (from_store approved)).1 ≢ out_of_fuel
store_validation_total_example =
    store_validation_total canon accept_all approved (support_id ∷ []) 2 root covered (omega arith)

cyclic_support_refused_example :
    (validate_claim_with_support canon accept_all 9 root (from_store circular)).1 ≢ done
cyclic_support_refused_example =
    cyclic_support_refused canon accept_all circular 9 root support_id refl
      (Reaches.direct (claim_with support_id "approved" (support_id ∷ [])) refl refl)

bad_claim_refused_example :
    (validate_claim_with_support canon accept_all 9 root (from_store revoked)).1 ≢ done
bad_claim_refused_example =
    bad_claim_refused canon accept_all revoked 9 root support_id support_id
      (claim_with support_id "revoked" []) refl (inl refl) refl (inl (λ e. cc))

abbrev support : Claim
support = claim_with support_id "approved" []

abbrev both : List Claim
both = root ∷ support ∷ []

abbrev both_ids : List String
both_ids = support_id ∷ root.id ∷ []

abbrev made : TrustValidator
made = record empty_validator { claims = (support_id, support) ∷ (root.id, root) ∷ [] }

construction : new both ≡ ok made
unfolding new add_claims is_claim_id get insert sort_by insert_by
construction = refl

both_covered : (j : String) (c : Claim) → held_by made j ≡ some c → contains both_ids j ≡ true
unfolding get
both_covered j c h = ground arith

root_held : IsStored (held_by made) root
unfolding get
root_held c e = ground arith

new_validation_exact_example :
    All (λ (c : Claim). held_by made c.id ≡ some c) both
    × (((validate_claim_with_support canon accept_all 3 root made).1 ≡ done)
        ↔ SupportsTrusted canon accept_all (held_by made) root)
new_validation_exact_example =
    new_validation_exact canon accept_all both made both_ids 3 root construction both_covered
      (omega arith) root_held root_is_safe
