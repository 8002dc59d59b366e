-- ===== src/Trust/Validated.antt =====
-- trust.rs (crates/zbrain/src): what a validation that says yes has established.
use mathlib.Core.Bool.{false≢true}
use zbrain.Prelude.{if_cases, ℕ, String, ◌≡◌, refl, Bool, true, not, List, [], ◌∷◌, arith, ◌∙◌}
use zbrain.Prelude.Sets.{contains}
use zbrain.Prelude.Sort.{sort, contains-sort}
use zbrain.Prelude.Assoc.{Assoc}
use zbrain.Ids.{is_claim_id}
use zbrain.Claims.{Claim}
use zbrain.Claims.Digest.{Canon}
use zbrain.Trust.{TrustValidator, Outcome, done, failed, out_of_fuel}
use zbrain.Trust.Visit.{Visitor, Rule, visit}
use zbrain.Trust.Root.{
  after_root, root_supports, validate_root_supports, validate_claim_with_support,
}
use zbrain.Trust.Trusted.{Find, Trusted, AreSound}
use zbrain.Trust.WellFormed.{well_formed, AreSound-of_well_formed}
use zbrain.Trust.Frame.{find_in}
use zbrain.Trust.Invariant.{Inv}
use zbrain.Trust.Steps.{Sound, SoundVisitor, AllTrusted, AllTrusted-cons}
use zbrain.Trust.Sound.{visit-Sound}

module _ (canon : Canon) (validate : Rule) (find : Find) where
  -- The claim that is validated, with all its supports.
  pub record SupportsTrusted (root : Claim) : Type 0 where
    pub sound : AreSound root.supporting_claim_ids
    pub all_trusted : AllTrusted canon validate find root.supporting_claim_ids

  abbrev pub SoundRoot : Type 0 → TrustValidator × Outcome → Type 0
  SoundRoot P (v, o) = Inv canon validate find v × (o ≡ done → P)

module _ {canon : Canon} {validate : Rule} {find : Find} where
  module _ (visit : Visitor) (visit_sound : SoundVisitor canon validate find visit)
      (root_id : String) (P : Type 0) where
    after_root-Sound :
        (id : String) (r : TrustValidator × Outcome)
        (rest : TrustValidator → TrustValidator × Outcome)
        → Sound canon validate find id r
        → ((w : TrustValidator)
            → Inv canon validate find w
            → Trusted canon validate find id
            → SoundRoot canon validate find P (rest w))
        → SoundRoot canon validate find P (after_root r rest)
    unfolding after_root
    after_root-Sound id (v, done) rest h k = k v h.0 (h.1 refl)
    after_root-Sound id (v, failed e) rest h k = (h.0, λ e. cc)
    after_root-Sound id (v, out_of_fuel) rest h k = (h.0, λ e. cc)

    root_supports-Sound :
        (seen ids : List String) (v : TrustValidator)
        → Inv canon validate find v
        → (well_formed seen ids ≡ true → AllTrusted canon validate find ids → P)
        → SoundRoot canon validate find P (root_supports visit root_id seen ids v)
    unfolding root_supports
    root_supports-Sound seen [] v inv close = (inv, λ e. close refl (λ s m. absurd (false≢true m)))
    root_supports-Sound seen (s ∷ ids) v inv close =
        if_cases (SoundRoot canon validate find P) (not (is_claim_id s)) (λ e. (inv, λ e. cc))
          λ safe.
            if_cases (SoundRoot canon validate find P) (contains seen s) (λ e. (inv, λ e. cc))
              λ fresh. after_root-Sound s _ _ (visit_sound s (root_id ∷ s ∷ []) v inv) λ w inv_w t.
                root_supports-Sound (s ∷ seen) ids w inv_w
                  λ formed all. close (ground arith) (AllTrusted-cons s ids t all)

  pub Inv-active :
      (m : Assoc Bool) {v : TrustValidator}
      → Inv canon validate find v
      → Inv canon validate find (record v { active_roots = m })
  unfolding find_in
  Inv-active m inv = record { agrees = inv.agrees; valid_trusted = inv.valid_trusted }

  -- When validation says yes, every claim in the closure of the root's supports passes the checks.
  -- The validator's memory stays true, whatever the outcome.
  pub validate_claim_with_support-Sound :
      (fuel : ℕ) (root : Claim) (v : TrustValidator)
      → Inv canon validate find v
      → SoundRoot canon validate find
          (SupportsTrusted canon validate find root)
          (validate_claim_with_support canon validate fuel root v)
  unfolding validate_claim_with_support validate_root_supports
  validate_claim_with_support-Sound fuel root v inv =
      if_cases (SoundRoot canon validate find (SupportsTrusted canon validate find root))
        (not (is_claim_id root.id)) (λ e. (inv, λ e. cc))
        λ safe.
          let r =
            root_supports-Sound (visit canon validate fuel root.id) (visit-Sound fuel root.id)
              root.id (SupportsTrusted canon validate find root) [] (sort root.supporting_claim_ids)
              _ (Inv-active _ inv)
              λ formed all. record {
                sound = AreSound-of_well_formed root.supporting_claim_ids formed;
                all_trusted = λ s m. all s (contains-sort root.supporting_claim_ids s ∙ m);
              } in
          (Inv-active _ r.0, r.1)
