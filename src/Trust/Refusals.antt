-- ===== src/Trust/Refusals.antt =====
-- trust.rs (crates/zbrain/src): what a validator made by `from_store` refuses.
use mathlib.Core.Path.{subst}
use zbrain.Trust.{out_of_fuel}
use zbrain.Trust.Total.{validate_claim_with_support_total}
use zbrain.Prelude.{
  sym, ℕ, String, ◌≡◌, ◌≢◌, refl, true, none, some, List, ◌<◌, ◌↔◌, ◌⊎◌, inl, inr, ok, arith,
  length,
}
use zbrain.Prelude.Sets.{contains}
use zbrain.Prelude.Assoc.{get}
use zbrain.Ids.{is_claim_id}
use zbrain.Claims.{Claim}
use zbrain.Claims.Digest.{Canon, verify_claim_digest}
use zbrain.Trust.{Loaded, loaded, not_found, unreadable, done, from_store}
use zbrain.Trust.Visit.{Rule}
use zbrain.Trust.Root.{validate_claim_with_support}
use zbrain.Trust.Trusted.{Find, Trusted, Reaches, reached_is_Trusted, Trusted-acyclic}
use zbrain.Trust.Frame.{find_in}
use zbrain.Trust.Invariant.{Inv}
use zbrain.Trust.Validated.{SupportsTrusted, validate_claim_with_support-Sound}
use zbrain.Trust.Exact.{IsStored, IsFresh, validate_claim_exact}

-- The claims that a store reads.
abbrev pub read_by : (String → Loaded) → Find
read_by load id = elim (load id) [ loaded c ↦ some c | not_found ↦ none | unreadable e ↦ none ]

module _ (canon : Canon) (validate : Rule) (load : String → Loaded) where
  from_store-Inv : Inv canon validate (read_by load) (from_store load)
  unfolding find_in get
  from_store-Inv = record { agrees = λ id. refl; valid_trusted = λ id h. cc }

  from_store-IsFresh : IsFresh (from_store load)
  unfolding get
  from_store-IsFresh j = refl

  -- Let a store hold claims under the listed ids only, and let there be more fuel than ids. Then
  -- validation of a root with a safe id, which the store holds with the same supports or not at all,
  -- says yes exactly when the root's supports are safe and distinct and every claim in their closure is
  -- read, approved, has its digest, passes the caller's rule and has safe, distinct supports.
  pub store_validation_exact :
      (ids : List String) (fuel : ℕ) (root : Claim)
      → ((j : String) (c : Claim) → read_by load j ≡ some c → contains ids j ≡ true)
      → length ids < fuel
      → IsStored (read_by load) root
      → is_claim_id root.id ≡ true
      → ((validate_claim_with_support canon validate fuel root (from_store load)).1 ≡ done)
        ↔ SupportsTrusted canon validate (read_by load) root
  store_validation_exact ids fuel root covers fits stored safe =
      validate_claim_exact canon validate (read_by load) ids fuel root (from_store load) covers fits
        from_store-Inv from_store-IsFresh stored safe

  -- What validation accepts is trusted.
  pub accepted-Trusted :
      (fuel : ℕ) (root : Claim) (s : String)
      → contains root.supporting_claim_ids s ≡ true
      → (validate_claim_with_support canon validate fuel root (from_store load)).1 ≡ done
      → Trusted canon validate (read_by load) s
  accepted-Trusted fuel root s m d =
      ((validate_claim_with_support-Sound fuel root (from_store load) from_store-Inv).1
          d).all_trusted
        s m

  -- A root with a support that leads back to itself is never accepted, whatever the fuel.
  pub cyclic_support_refused :
      (fuel : ℕ) (root : Claim) (s : String)
      → contains root.supporting_claim_ids s ≡ true
      → Reaches (read_by load) s s
      → (validate_claim_with_support canon validate fuel root (from_store load)).1 ≢ done
  cyclic_support_refused fuel root s m r d = Trusted-acyclic (accepted-Trusted fuel root s m d) r

  -- The claim under an id in the closure passes each check of its own.
  passes_of_Trusted :
      (s : String) (c : Claim)
      → read_by load s ≡ some c
      → Trusted canon validate (read_by load) s
      → (c.status ≡ "approved") × (verify_claim_digest canon c ≡ ok tt) × (validate c ≡ ok tt)
  passes_of_Trusted s c e (Trusted.trusted d e' p below) =
      ground (arith, p.approved, p.digest, p.rule)

  -- A root is never accepted when a support of it is read as a claim that is not approved, whose digest
  -- does not fit its text or that the caller's rule refuses, or leads to such a claim at any depth,
  -- whatever the fuel.
  pub bad_claim_refused :
      (fuel : ℕ) (root : Claim) (s b : String) (c : Claim)
      → contains root.supporting_claim_ids s ≡ true
      → (b ≡ s) ⊎ Reaches (read_by load) b s
      → read_by load b ≡ some c
      → (c.status ≢ "approved") ⊎ ((verify_claim_digest canon c ≢ ok tt) ⊎ (validate c ≢ ok tt))
      → (validate_claim_with_support canon validate fuel root (from_store load)).1 ≢ done
  bad_claim_refused fuel root s b c m r e bad d =
      let t = accepted-Trusted fuel root s m d in
      let trusted_b : Trusted canon validate (read_by load) b = elim r [
        | inl same ↦ subst (Trusted canon validate (read_by load)) (sym same) t
        | inr way ↦ reached_is_Trusted way t
      ] in
      let (approved, digest, rule) = passes_of_Trusted b c e trusted_b in
      elim bad [ inl h ↦ h approved | inr h ↦ elim h [ inl k ↦ k digest | inr k ↦ k rule ] ]

  -- Let a store hold claims under the listed ids only, and let there be more fuel than ids. Then
  -- validation of any root ends by a verdict: the recursion needs no more fuel than that.
  pub store_validation_total :
      (ids : List String) (fuel : ℕ) (root : Claim)
      → ((j : String) (c : Claim) → read_by load j ≡ some c → contains ids j ≡ true)
      → length ids < fuel
      → (validate_claim_with_support canon validate fuel root (from_store load)).1 ≢ out_of_fuel
  store_validation_total ids fuel root covers fits =
      validate_claim_with_support_total canon validate (read_by load) ids covers fuel root
        (from_store load) from_store-Inv fits
