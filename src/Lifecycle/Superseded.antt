-- ===== src/Lifecycle/Superseded.antt =====
-- lifecycle.rs (crates/zbrain/src): what the plan of a supersession writes, and for which claims.
use mathlib.Core.Path.{subst}
use zbrain.Prelude.{
  String, ◌≡◌, refl, ap, Option, none, some, List, [], ◌∷◌, ◌++◌, Result, ok, err, >>=-eq-ok,
  >>-eq-ok, or_fail, ensure,
}
use zbrain.Prelude.Assoc.{get}
use zbrain.Claims.{Claim, ClaimError, ClaimTransition, claim_rel_path}
use zbrain.Claims.Scan.{Text, Answers, Files, in_wiki}
use zbrain.Claims.Store.{claim_file_path}
use zbrain.Claims.Drafted.{claim_file_path-ok}
use zbrain.Transition.{PendingTransition, PendingTransitionTarget, transition_sha256}
use zbrain.Lifecycle.{
  ClaimMutationOptions, Meets, superseded, superseded_all, supersession_targets,
  pending_supersession, planned_supersession,
}

-- A claim that was superseded by the claim of an id: its status, one more transition, and the rest kept.
pub record IsSuperseded (id : String) (old marked : Claim) : Type 0 where
  pub transition : ClaimTransition
  pub has_status : marked.status ≡ "superseded"
  pub keeps : record marked { status = old.status; transitions = old.transitions } ≡ old
  pub added : marked.transitions ≡ old.transitions ++ transition ∷ []
  pub has_kind : transition.kind ≡ "supersede"
  pub names : transition.related_claim_ids ≡ id ∷ []
  pub prior : transition.prior_verification_digest ≡ old.verified_digest

abbrev pub AreSuperseded : String → List Claim → List Claim → Type 0
AreSuperseded id [] [] = Unit
AreSuperseded id [] (claim ∷ marked) = ⊥
AreSuperseded id (old ∷ olds) [] = ⊥
AreSuperseded id (old ∷ olds) (claim ∷ marked) =
    IsSuperseded id old claim × AreSuperseded id olds marked

module _ (text : Text) where
  -- A target that holds a claim, under its path and with the hash of its text.
  pub record Renders (claim : Claim) (target : PendingTransitionTarget) : Type 0 where
    pub placed : target.path ≡ in_wiki (claim_rel_path claim)
    pub rendered : text.canon.render_claim_markdown claim ≡ ok target.target_bytes
    pub hashed : target.target_sha256 ≡ transition_sha256 text.journals.sha256 target.target_bytes

  abbrev pub AllRender : List Claim → List PendingTransitionTarget → Type 0
  AllRender [] [] = Unit
  AllRender [] (target ∷ targets) = ⊥
  AllRender (claim ∷ claims) [] = ⊥
  AllRender (claim ∷ claims) (target ∷ targets) = Renders claim target × AllRender claims targets

  -- What a plan journals: nothing where nothing is superseded, and else the new claim and the old ones.
  abbrev pub IsPlanned : Claim → List Claim → Option PendingTransition → Type 0
  IsPlanned claim [] none = Unit
  IsPlanned claim [] (some pending) = ⊥
  IsPlanned claim (old ∷ olds) none = ⊥
  IsPlanned claim (old ∷ olds) (some pending) =
      (marked : List Claim) × AreSuperseded claim.id (old ∷ olds) marked
      × AllRender (claim ∷ marked) pending.targets

module _ (text : Text) (workspace : String) where
  superseded-IsSuperseded :
      (claim : Claim) (options : ClaimMutationOptions) (at : String) (old : Claim)
      → IsSuperseded claim.id old (superseded text workspace claim options at old)
  unfolding superseded
  superseded-IsSuperseded claim options at old = record {
    transition = record {
      kind = "supersede";
      at = at;
      by = options.verified_by;
      reason = "";
      related_claim_ids = claim.id ∷ [];
      prior_verification_digest = old.verified_digest;
      authorization = options.authorization;
    };
    has_status = refl;
    keeps = refl;
    added = refl;
    has_kind = refl;
    names = refl;
    prior = refl;
  }

  superseded_all-AreSuperseded :
      (claim : Claim) (options : ClaimMutationOptions) (at : String) (olds : List Claim)
      → AreSuperseded claim.id olds (superseded_all text workspace claim options at olds)
  superseded_all-AreSuperseded claim options at [] = tt
  superseded_all-AreSuperseded claim options at (old ∷ olds) = (
    superseded-IsSuperseded claim options at old,
    superseded_all-AreSuperseded claim options at olds,
  )

  supersession_targets-AllRender :
      (answers : Answers) (files : Files) (claims : List Claim)
      (targets : List PendingTransitionTarget)
      → supersession_targets text workspace answers files claims ≡ ok targets
      → AllRender text claims targets
  unfolding supersession_targets
  supersession_targets-AllRender answers files [] targets h =
      let same : [] ≡ targets = cc h in subst (AllRender text []) same tt
  supersession_targets-AllRender answers files (claim ∷ claims) targets h =
      let (path, found, h1) = >>=-eq-ok (claim_file_path text answers claim) _ h in
      let (contents, made, h2) = >>=-eq-ok (text.canon.render_claim_markdown claim) _ h1 in
      let (preimage, stored, h3) =
        >>=-eq-ok (or_fail (get files path) ClaimError.preimage_unreadable) _ h2 in
      let (readable, h4) =
        >>-eq-ok (ensure (answers.is_readable path) ClaimError.preimage_unreadable) _ h3 in
      let (others, rest, h5) =
        >>=-eq-ok (supersession_targets text workspace answers files claims) _ h4 in
      let target : PendingTransitionTarget = record {
        path = path;
        preimage_sha256 = transition_sha256 text.journals.sha256 preimage;
        target_sha256 = transition_sha256 text.journals.sha256 contents;
        target_bytes = contents;
      } in
      let same : target ∷ others ≡ targets = cc h5 in
      subst (AllRender text (claim ∷ claims)) same (
        record {
          placed = claim_file_path-ok text answers claim path found;
          rendered = made;
          hashed = refl;
        },
        supersession_targets-AllRender answers files claims others rest,
      )

  pub planned_supersession-IsPlanned :
      (meets : Meets) (files : Files) (claim : Claim) (options : ClaimMutationOptions) (at : String)
      (olds : List Claim) (pending : Option PendingTransition)
      → planned_supersession text workspace meets files claim options at olds ≡ ok pending
      → IsPlanned text claim olds pending
  unfolding planned_supersession pending_supersession
  planned_supersession-IsPlanned meets files claim options at [] pending h =
      let same : none ≡ pending = cc h in subst (IsPlanned text claim []) same tt
  planned_supersession-IsPlanned meets files claim options at (old ∷ olds) pending h =
      let marked = superseded_all text workspace claim options at (old ∷ olds) in
      let (made, m, h1) =
        >>=-eq-ok (pending_supersession text workspace meets files claim marked) _ h in
      let (valid, m1) =
        >>-eq-ok (ensure meets.answers.is_workspace ClaimError.boundary_refused) _ m in
      let (random, drawn, m2) =
        >>=-eq-ok (or_fail meets.random ClaimError.random_unavailable) _ m1 in
      let (targets, t, m3) =
        >>=-eq-ok (supersession_targets text workspace meets.answers files (claim ∷ marked)) _ m2 in
      let all = supersession_targets-AllRender meets.answers files (claim ∷ marked) targets t in
      let same_targets : targets ≡ made.targets = ap targets_of m3 in
      let same : some made ≡ pending = cc h1 in
      subst (IsPlanned text claim (old ∷ olds)) same (
        marked,
        superseded_all-AreSuperseded claim options at (old ∷ olds),
        subst (AllRender text (claim ∷ marked)) same_targets all,
      )
    where
      targets_of : Result ClaimError PendingTransition → List PendingTransitionTarget
      targets_of (ok p) = p.targets
      targets_of (err e) = []
