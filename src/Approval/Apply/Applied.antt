-- ===== src/Approval/Apply/Applied.antt =====
-- approval.rs (crates/zbrain/src): what an applied challenge rests on.
use mathlib.Core.Path.{subst}
use zbrain.Prelude.{
  false, String, true, ◌≡◌, sym, ◌∙◌, ok, arith, >>=-eq-ok, >>-eq-ok, ensure, map_err,
  map_err-eq-ok,
}
use zbrain.Prelude.Effects.{Outcome, after_checks-ok, after_step-ok}
use zbrain.Claims.{Claim}
use zbrain.Claims.Scan.{Text}
use zbrain.Lifecycle.{ClaimMutationOptions, ClaimMutationPlan, Evidence}
use zbrain.Lifecycle.Commit.{Encounter, recover_first, locked}
use zbrain.Approval.{Challenge}
use zbrain.Approval.Ceremony.{Crates, Call, read_challenge, validate_token, consume}
use zbrain.Approval.Files.{IsSound, read_challenge-Holds}
use zbrain.Approval.OneTime.{IsConsumed}
use zbrain.Approval.Replay.{consume-IsConsumed}
use zbrain.Approval.Apply.{
  ApplyError, by_claim, by_challenge, Office, check_authorization, check_bound, plan_by_operation,
  apply_checks, on_wiki, on_challenges, commit_by_operation, under_lock, apply_unlocked,
  apply_challenge,
}
use zbrain.Approval.Apply.Planned.{
  IsBound, PlannedFor, CarriedOut, check_bound-IsBound, plan_by_operation-PlannedFor,
  commit_by_operation-CarriedOut,
}

module _ (text : Text) (crates : Crates) (workspace : String) where
  -- The office after the recovery.
  abbrev pub recovered : Encounter → Office text crates → Office text crates
  recovered encounter office = record office {
    wiki = (recover_first text workspace encounter office.wiki).0;
  }

  pub under_lock-ok :
      {A : Type 0} (encounter : Encounter)
      (operation : Office text crates → Outcome (Office text crates) ApplyError A)
      (office : Office text crates) {a : A}
      → (under_lock text crates workspace encounter operation office).1 ≡ ok a
      → (under_lock text crates workspace encounter operation office
          ≡ operation (recovered encounter office))
        × ((operation (recovered encounter office)).1 ≡ ok a)
  unfolding under_lock on_wiki
  under_lock-ok encounter operation office h =
      let (l, is_locked, same, h1) =
        after_checks-ok office (map_err by_claim (locked text workspace encounter)) _ h in
      let (d, done, same1, h2) =
        after_step-ok
          (on_wiki text crates workspace office
            (recover_first text workspace encounter office.wiki))
          _ h1 in
      (same ∙ same1, h2)

  -- A token passes only for a challenge that is granted and not consumed.
  pub token-unspent :
      (call : Call) (challenge : Challenge) (token : String)
      → validate_token crates workspace call.now challenge token ≡ ok tt
      → (challenge.granted ≡ true) × (challenge.consumed ≡ false)
  unfolding validate_token
  token-unspent call challenge token h = ground arith

  -- What was read before a challenge is applied.
  pub record IsReady (evidence : Evidence) (encounter : Encounter) (call : Call) (id : String)
      (options : ClaimMutationOptions) (office : Office text crates) (challenge : Challenge)
      (plan : ClaimMutationPlan) : Type 0 where
    pub was_read : read_challenge crates workspace call id office.challenges ≡ ok challenge
    pub was_granted : challenge.granted ≡ true
    pub was_unspent : challenge.consumed ≡ false
    pub claim : Claim
    pub bound :
        IsBound text crates workspace encounter.meets.answers office.wiki.files challenge claim
    pub planned :
        PlannedFor text crates workspace evidence encounter.meets office.wiki.files challenge
          options plan

  pub apply_checks-IsReady :
      (evidence : Evidence) (encounter : Encounter) (call : Call) (id token : String)
      (options : ClaimMutationOptions) (office : Office text crates)
      (c : Challenge × ClaimMutationPlan)
      → apply_checks text crates workspace evidence encounter.meets call id token options office
        ≡ ok c
      → IsReady evidence encounter call id options office c.0 c.1
  unfolding apply_checks
  apply_checks-IsReady evidence encounter call id token options office c h =
      let (challenge, r, h1) =
        >>=-eq-ok (map_err by_challenge (read_challenge crates workspace call id office.challenges))
          _ h in
      let (t, h2) =
        >>-eq-ok (map_err by_challenge (validate_token crates workspace call.now challenge token)) _
          h1 in
      let (g, h3) = >>-eq-ok (ensure challenge.granted ApplyError.not_owner_granted) _ h2 in
      let (b, h4) =
        >>-eq-ok
          (check_bound text crates workspace encounter.meets.answers office.wiki.files challenge) _
          h3 in
      let (a, h5) = >>-eq-ok (check_authorization options.authorization challenge) _ h4 in
      let (plan, p, h6) =
        >>=-eq-ok
          (plan_by_operation text crates workspace evidence encounter.meets office.wiki.files
            challenge options)
          _ h5 in
      let (granted, unspent) =
        token-unspent call challenge token (map_err-eq-ok by_challenge _ t) in
      let (claim, bound) =
        check_bound-IsBound text crates workspace encounter.meets.answers office.wiki.files
          challenge b in
      let same : (challenge, plan) ≡ c = cc h6 in
      subst
        (λ (x : Challenge × ClaimMutationPlan).
          IsReady evidence encounter call id options office x.0 x.1)
        same
        (record {
          was_read = map_err-eq-ok by_challenge _ r;
          was_granted = granted;
          was_unspent = unspent;
          claim = claim;
          bound = bound;
          planned =
              plan_by_operation-PlannedFor text crates workspace evidence encounter.meets
                office.wiki.files challenge options plan p;
        })

  -- What the application of a challenge rests on, and what it leaves.
  pub record IsApplied (evidence : Evidence) (encounter : Encounter) (call : Call) (id : String)
      (options : ClaimMutationOptions) (before now : Office text crates) (result : Claim)
      : Type 0 where
    pub challenge : Challenge
    pub plan : ClaimMutationPlan
    pub was_read : read_challenge crates workspace call id before.challenges ≡ ok challenge
    pub was_granted : challenge.granted ≡ true
    pub was_unspent : challenge.consumed ≡ false
    pub claim : Claim
    pub bound :
        IsBound text crates workspace encounter.meets.answers before.wiki.files challenge claim
    pub gives : result ≡ plan.claim
    pub carried_out :
        CarriedOut text crates workspace evidence encounter.meets before.wiki.files challenge
          options plan now.wiki
    pub spent : IsConsumed crates workspace now.challenges id
    pub still_sound : IsSound crates workspace now.challenges

  apply_unlocked-IsApplied :
      (evidence : Evidence) (encounter : Encounter) (call consumption : Call) (id token : String)
      (options : ClaimMutationOptions) (office : Office text crates) (result : Claim)
      → IsSound crates workspace office.challenges
      → (apply_unlocked text crates workspace evidence encounter call consumption id token options
          office).1
        ≡ ok result
      → IsApplied evidence encounter call id options office
          (apply_unlocked text crates workspace evidence encounter call consumption id token options
            office).0
          result
  unfolding apply_unlocked on_challenges on_wiki
  apply_unlocked-IsApplied evidence encounter call consumption id token options office result sound
        h =
      let (c, checked, same, h1) =
        after_checks-ok office
          (apply_checks text crates workspace evidence encounter.meets call id token options office)
          _ h in
      let use_of = consume crates workspace consumption c.0.id token office.challenges in
      let (d, used, same1, h2) =
        after_step-ok (on_challenges text crates workspace office use_of) _ h1 in
      let ready = apply_checks-IsReady evidence encounter call id token options office c checked in
      let (consumed, still) =
        consume-IsConsumed crates workspace consumption c.0.id token office.challenges d sound
          (map_err-eq-ok by_challenge use_of.1 used) in
      let placed =
        (read_challenge-Holds crates workspace call id office.challenges sound
          ready.was_read).placed in
      let commit = commit_by_operation text crates workspace encounter c.0 c.1 office.wiki in
      let (gives, carried_out) =
        commit_by_operation-CarriedOut text crates workspace evidence encounter office.wiki.files
          c.0 options c.1 office.wiki result ready.planned (map_err-eq-ok by_claim commit.1 h2) in
      subst
        (λ (o : Outcome (Office text crates) ApplyError Claim).
          IsApplied evidence encounter call id options office o.0 result)
        (sym (same ∙ same1))
        (record {
          challenge = c.0;
          plan = c.1;
          was_read = ready.was_read;
          was_granted = ready.was_granted;
          was_unspent = ready.was_unspent;
          claim = ready.claim;
          bound = ready.bound;
          gives = gives;
          carried_out = carried_out;
          spent = subst (λ x. IsConsumed crates workspace use_of.0 x) placed consumed;
          still_sound = still;
        })

  -- When the application of a challenge in sound files succeeds, then after the recovery the challenge was
  -- read as granted and not consumed, and the claim that it names was read with the digest and the superseded
  -- ids that the challenge binds. For an approval or a supersession the plan is an approval of that claim,
  -- and for a revocation it is a revocation of it for the reason of the challenge. The result is the claim of
  -- the plan, and it is on disk: its file holds its text, or where the plan has a journal whose targets have
  -- different paths, no journal is left and the file of every target has the target's hash; and the index is
  -- marked dirty. The challenge is consumed, in files that are still sound.
  pub apply_challenge-IsApplied :
      (evidence : Evidence) (encounter : Encounter) (call consumption : Call) (id token : String)
      (options : ClaimMutationOptions) (office : Office text crates) (result : Claim)
      → IsSound crates workspace office.challenges
      → (apply_challenge text crates workspace evidence encounter call consumption id token options
          office).1
        ≡ ok result
      → IsApplied evidence encounter call id options
          (recovered encounter office)
          (apply_challenge text crates workspace evidence encounter call consumption id token
            options office).0
          result
  unfolding apply_challenge
  apply_challenge-IsApplied evidence encounter call consumption id token options office result sound
        h =
      let (same, h1) =
        under_lock-ok encounter
          (apply_unlocked text crates workspace evidence encounter call consumption id token
            options)
          office h in
      subst
        (λ (o : Outcome (Office text crates) ApplyError Claim).
          IsApplied evidence encounter call id options (recovered encounter office) o.0 result)
        (sym same)
        (apply_unlocked-IsApplied evidence encounter call consumption id token options
          (recovered encounter office) result sound h1)
