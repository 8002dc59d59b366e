-- ===== src/Trust/WellFormed.antt =====
-- trust.rs (crates/zbrain/src): what the loops over supporting ids test, against the plain reading,
-- that every id is safe and none stands twice.
use zbrain.Prelude.{
  String, ◌≡◌, refl, Bool, true, false, not, ◌&&◌, List, [], ◌∷◌, eq_iff, arith, ◌∙◌, sym,
}
use zbrain.Prelude.Sets.{contains, distinct}
use zbrain.Prelude.Sort.{sort, contains-sort, distinct-sort}
use zbrain.Ids.{is_claim_id}
use zbrain.Trust.Trusted.{AreSound}

-- The ids are safe, and none stands twice or among those seen.
abbrev pub well_formed : List String → List String → Bool
well_formed seen [] = true
well_formed seen (id ∷ ids) =
    is_claim_id id && not (contains seen id) && well_formed (id ∷ seen) ids

well_formed-safe :
    (seen ids : List String) (s : String)
    → well_formed seen ids ≡ true
    → contains ids s ≡ true
    → is_claim_id s ≡ true
well_formed-safe seen [] s h m = cc
well_formed-safe seen (id ∷ ids) s h m =
    ground (arith, eq_iff id s, well_formed-safe (id ∷ seen) ids s)

well_formed-fresh :
    (seen ids : List String) (s : String)
    → well_formed seen ids ≡ true
    → contains seen s ≡ true
    → contains ids s ≡ false
well_formed-fresh seen [] s h m = refl
well_formed-fresh seen (id ∷ ids) s h m =
    ground (arith, eq_iff id s, well_formed-fresh (id ∷ seen) ids s)

well_formed-distinct : (seen ids : List String) → well_formed seen ids ≡ true → distinct ids ≡ true
well_formed-distinct seen [] h = refl
well_formed-distinct seen (id ∷ ids) h = ground (
  arith,
  eq_iff id id,
  well_formed-distinct (id ∷ seen) ids,
  well_formed-fresh (id ∷ seen) ids id,
)

pub AreSound-of_well_formed : (ids : List String) → well_formed [] (sort ids) ≡ true → AreSound ids
AreSound-of_well_formed ids h = record {
  safe = λ s m. well_formed-safe [] (sort ids) s h (contains-sort ids s ∙ m);
  single = sym (distinct-sort ids) ∙ well_formed-distinct [] (sort ids) h;
}

distinct-well_formed :
    (seen ids : List String)
    → distinct ids ≡ true
    → ((s : String) → contains ids s ≡ true → is_claim_id s ≡ true)
    → ((s : String) → contains ids s ≡ true → contains seen s ≡ false)
    → well_formed seen ids ≡ true
distinct-well_formed seen [] d safe fresh = refl
distinct-well_formed seen (id ∷ ids) d safe fresh = ground (
  arith,
  eq_iff id id,
  safe id,
  fresh id,
  distinct-well_formed (id ∷ seen) ids (ground arith) (λ s m. safe s (ground arith))
      (λ s m. ground (arith, eq_iff id s, fresh s)),
)

pub well_formed_of_AreSound : (ids : List String) → AreSound ids → well_formed [] (sort ids) ≡ true
well_formed_of_AreSound ids h =
    distinct-well_formed [] (sort ids) (distinct-sort ids ∙ h.single)
      (λ s m. h.safe s (sym (contains-sort ids s) ∙ m)) (λ s m. refl)
