-- ===== src/Trust/New.antt =====
-- trust.rs (crates/zbrain/src): the validator that `new` makes of a list of claims.
use zbrain.Prelude.{
  ℕ, String, Bool, true, false, ◌≡◌, refl, sym, ap, ◌∙◌, none, some, List, [], ◌∷◌, Result, ok, err,
  ensure, arith, eq_iff, All, >>-eq-ok, ◌<◌, length, ◌↔◌, if◌then◌else◌,
}
use zbrain.Prelude.Sets.{contains}
use zbrain.Prelude.Text.{text_le}
use zbrain.Prelude.Sort.{sort_by, insert_by}
use zbrain.Prelude.Assoc.{get, insert, get-insert}
use zbrain.Ids.{is_claim_id}
use zbrain.Claims.{Claim}
use zbrain.Claims.Digest.{Canon}
use zbrain.Trust.{NewError, TrustValidator, done, add_claims, new, empty_validator}
use zbrain.Trust.Visit.{Rule}
use zbrain.Trust.Root.{validate_claim_with_support}
use zbrain.Trust.Trusted.{Find}
use zbrain.Trust.Frame.{find_in}
use zbrain.Trust.Invariant.{Inv}
use zbrain.Trust.Validated.{SupportsTrusted}
use zbrain.Trust.Exact.{IsStored, IsFresh, validate_claim_exact}

-- What the loop of `new` makes of a validator.
record Extends (v w : TrustValidator) (claims : List Claim) : Type 0 where
  load : w.load ≡ v.load
  states : w.states ≡ v.states
  kept : (j : String) (c : Claim) → get v.claims j ≡ some c → get w.claims j ≡ some c
  stored : All (λ (c : Claim). get w.claims c.id ≡ some c) claims

add_claims-Extends :
    (claims : List Claim) (v w : TrustValidator) → add_claims v claims ≡ ok w → Extends v w claims
unfolding add_claims
add_claims-Extends [] v w h =
    let same : v ≡ w = ground arith in
    record {
      load = sym (ap (λ (x : TrustValidator). x.load) same);
      states = sym (ap (λ (x : TrustValidator). x.states) same);
      kept = λ j c e. ap (λ (x : TrustValidator). get x.claims j) (sym same) ∙ e;
      stored = tt;
    }
add_claims-Extends (claim ∷ rest) v w h =
    let (safe, h₁) = >>-eq-ok (ensure (is_claim_id claim.id) (NewError.id_unsafe claim.id)) _ h in
    let (fresh, h₂) =
      >>-eq-ok
        (elim (get v.claims claim.id) as (λ x. Result NewError (Unit {0})) [
          | none ↦ ok tt
          | some c ↦ err (NewError.id_duplicated claim.id)
        ])
        _ h₁ in
    let r = add_claims-Extends rest (record v { claims = insert claim.id claim v.claims }) w h₂ in
    let unused : get v.claims claim.id ≡ none = ground arith in
    record {
      load = r.load;
      states = r.states;
      kept = λ j c e.
          r.kept j c
            (rw (get-insert claim.id j claim v.claims) (ground (arith, eq_iff claim.id j)));
      stored = (
        r.kept claim.id claim (
            rw (get-insert claim.id claim.id claim v.claims, (eq_iff claim.id claim.id).1 refl)
              refl),
        r.stored,
      );
    }

All-insert_by :
    (P : Claim → Type 0) (key : Claim → String) (x : Claim) (xs : List Claim)
    → All P (insert_by key x xs)
    → P x × All P xs
unfolding insert_by
All-insert_by P key x [] h = h
All-insert_by P key x (y ∷ ys) h = by_order (text_le (key x) (key y)) (All-insert_by P key x ys) h
  where
    by_order :
        (b : Bool)
        → (All P (insert_by key x ys) → P x × All P ys)
        → All P (if b then x ∷ y ∷ ys else y ∷ insert_by key x ys)
        → P x × All P (y ∷ ys)
    by_order true deeper (px, pys) = (px, pys)
    by_order false deeper (py, below) = let (px, pys) = deeper below in (px, (py, pys))

All-sort_by :
    (P : Claim → Type 0) (key : Claim → String) (xs : List Claim)
    → All P (sort_by key xs)
    → All P xs
unfolding sort_by
All-sort_by P key [] h = tt
All-sort_by P key (x ∷ xs) h =
    let (px, below) = All-insert_by P key x (sort_by key xs) h in (px, All-sort_by P key xs below)

-- The claims that a validator holds.
abbrev pub held_by : TrustValidator → Find
held_by v id = get v.claims id

module _ (claims : List Claim) (v : TrustValidator) (made : new claims ≡ ok v) where
  new-Extends : Extends empty_validator v (sort_by (λ (c : Claim). c.id) claims)
  unfolding new
  new-Extends = add_claims-Extends (sort_by (λ (c : Claim). c.id) claims) empty_validator v made

  new-stored : All (λ (c : Claim). held_by v c.id ≡ some c) claims
  new-stored =
      All-sort_by (λ (c : Claim). held_by v c.id ≡ some c) (λ (c : Claim). c.id) claims
        new-Extends.stored

new-IsFresh : (claims : List Claim) (v : TrustValidator) → new claims ≡ ok v → IsFresh v
unfolding get
new-IsFresh claims v made j = rw (new-Extends claims v made).states refl

module _ (canon : Canon) (validate : Rule) where
  new-Inv :
      (claims : List Claim) (v : TrustValidator)
      → new claims ≡ ok v
      → Inv canon validate (held_by v) v × IsFresh v
  unfolding find_in
  new-Inv claims v made =
      let e = new-Extends claims v made in
      let fresh = new-IsFresh claims v made in
      (
        record {
          agrees = λ id. ground (arith, e.load);
          valid_trusted = λ id h. absurd (ground (arith, fresh id));
        },
        fresh,
      )

  -- Let `new` make a validator of some claims, under ids among the listed ones, and let there be more fuel
  -- than ids. Then the validator holds each of the claims under its own id, and validation of a root
  -- with a safe id, held with the same supports or not at all, says yes exactly when the root's
  -- supports are safe and distinct and every claim in their closure is held, approved, has its digest,
  -- passes the caller's rule and has safe, distinct supports.
  pub new_validation_exact :
      (claims : List Claim) (v : TrustValidator) (ids : List String) (fuel : ℕ) (root : Claim)
      → new claims ≡ ok v
      → ((j : String) (c : Claim) → held_by v j ≡ some c → contains ids j ≡ true)
      → length ids < fuel
      → IsStored (held_by v) root
      → is_claim_id root.id ≡ true
      → All (λ (c : Claim). held_by v c.id ≡ some c) claims
        × (((validate_claim_with_support canon validate fuel root v).1 ≡ done)
            ↔ SupportsTrusted canon validate (held_by v) root)
  new_validation_exact claims v ids fuel root made covers fits stored safe =
      let (inv, fresh) = new-Inv claims v made in
      (
        new-stored claims v made,
        validate_claim_exact canon validate (held_by v) ids fuel root v covers fits inv fresh stored
            safe,
      )
