-- ===== src/Trust/Steps.antt =====
-- trust.rs (crates/zbrain/src): the soundness of the steps that a visit is made of.
use mathlib.Core.Path.{subst}
use mathlib.Core.Bool.{false≢true}
use zbrain.Prelude.{
  if_cases, String, ◌≡◌, refl, true, not, Option, none, some, List, [], ◌∷◌, ◌++◌, arith, inl, inr,
  but_last,
}
use zbrain.Prelude.Sets.{contains, contains-cons}
use zbrain.Ids.{is_claim_id}
use zbrain.Claims.Digest.{Canon}
use zbrain.Trust.{
  Reason, TrustFailure, TrustValidator, Outcome, done, failed, out_of_fuel, cycle, cycle_path,
}
use zbrain.Trust.Visit.{
  Visitor, Rule, refuse, refuse_support, after_support, visit_supports, known_failure, visit,
}
use zbrain.Trust.Trusted.{Find, Trusted}
use zbrain.Trust.WellFormed.{well_formed}
use zbrain.Trust.Invariant.{
  Inv, Inv-mark_invalid, Inv-mark_cycle, Inv-set_valid, Inv-inherit_failure,
}

module _ (canon : Canon) (validate : Rule) (find : Find) where
  -- What a visit of `id` may leave and say.
  abbrev pub Sound : String → TrustValidator × Outcome → Type 0
  Sound id (v, o) = Inv canon validate find v × (o ≡ done → Trusted canon validate find id)

  abbrev pub SoundVisitor : Visitor → Type 0
  SoundVisitor visit =
      (id : String) (path : List String) (v : TrustValidator)
      → Inv canon validate find v
      → Sound id (visit id path v)

  abbrev pub AllTrusted : List String → Type 0
  AllTrusted ids = (s : String) → contains ids s ≡ true → Trusted canon validate find s

module _ {canon : Canon} {validate : Rule} {find : Find} where
  pub AllTrusted-cons :
      (s : String) (ids : List String)
      → Trusted canon validate find s
      → AllTrusted canon validate find ids
      → AllTrusted canon validate find (s ∷ ids)
  AllTrusted-cons s ids t all j m = elim (contains-cons s ids j m) [
    | inl same ↦ subst (Trusted canon validate find) same t
    | inr later ↦ all j later
  ]

  pub Sound-refuse :
      (root_id id : String) (path : List String) (r : Reason) {v : TrustValidator}
      → Inv canon validate find v
      → Sound canon validate find id (refuse root_id id path r v)
  unfolding refuse
  Sound-refuse root_id id path r inv = (Inv-mark_invalid id _ inv, λ e. cc)

  pub Sound-refuse_support :
      (root_id id s : String) (path : List String) (r : Reason) {v : TrustValidator}
      → Inv canon validate find v
      → Sound canon validate find id (refuse_support root_id id s path r v)
  unfolding refuse_support
  Sound-refuse_support root_id id s path r inv = (Inv-mark_invalid id _ inv, λ e. cc)

  pub Sound-cycle :
      (root_id id : String) (path : List String) {v : TrustValidator}
      → Inv canon validate find v
      → Sound canon validate find id (cycle root_id id path v)
  unfolding cycle
  Sound-cycle root_id id path inv = (Inv-mark_cycle [] (but_last (cycle_path id path)) inv, λ e. cc)

  pub Sound-after_support :
      (id s : String) (r : TrustValidator × Outcome)
      (rest : TrustValidator → TrustValidator × Outcome)
      → Sound canon validate find s r
      → ((w : TrustValidator)
          → Inv canon validate find w
          → Trusted canon validate find s
          → Sound canon validate find id (rest w))
      → Sound canon validate find id (after_support id s r rest)
  unfolding after_support
  Sound-after_support id s (v, done) rest h k = k v h.0 (h.1 refl)
  Sound-after_support id s (v, failed e) rest h k = (Inv-inherit_failure id s e.reason h.0, λ e. cc)
  Sound-after_support id s (v, out_of_fuel) rest h k = (h.0, λ e. cc)

  module _ (visit : Visitor) (visit_sound : SoundVisitor canon validate find visit)
      (root_id id : String) (path : List String) where
    pub visit_supports-Sound :
        (seen ids : List String) (v : TrustValidator)
        → Inv canon validate find v
        → (well_formed seen ids ≡ true
            → AllTrusted canon validate find ids
            → Trusted canon validate find id)
        → Sound canon validate find id (visit_supports visit root_id id path seen ids v)
    unfolding visit_supports
    visit_supports-Sound seen [] v inv close =
        let t = close refl (λ s m. absurd (false≢true m)) in (Inv-set_valid id inv t, λ e. t)
    visit_supports-Sound seen (s ∷ ids) v inv close =
        if_cases (Sound canon validate find id) (not (is_claim_id s))
          (λ e. Sound-refuse_support root_id id s path _ inv)
          λ safe.
            if_cases (Sound canon validate find id) (contains seen s)
              (λ e. Sound-refuse_support root_id id s path _ inv)
              λ fresh.
                Sound-after_support id s _ _ (visit_sound s (path ++ s ∷ []) v inv) λ w inv_w t.
                  visit_supports-Sound (s ∷ seen) ids w inv_w
                    λ formed all. close (ground arith) (AllTrusted-cons s ids t all)

  pub known_failure-ne-done :
      (root_id id : String) (path : List String) (o : Option TrustFailure)
      → known_failure root_id id path o ≡ done
      → Trusted canon validate find id
  unfolding known_failure
  known_failure-ne-done root_id id path none e = cc
  known_failure-ne-done root_id id path (some f) e = cc
