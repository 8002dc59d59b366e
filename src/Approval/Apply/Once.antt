-- ===== src/Approval/Apply/Once.antt =====
-- approval.rs (crates/zbrain/src): a challenge that was applied is not applied again.
use mathlib.Core.Path.{subst}
use zbrain.Prelude.{
  String, false, ◌≡◌, refl, sym, List, Result, ok, err, All, is_ok, >>=-eq-ok, >>-eq-ok, refuse_if,
  map_err, map_err-eq-ok, is_empty,
}
use zbrain.Prelude.Effects.{after_checks-ok}
use zbrain.Claims.{Claim}
use zbrain.Claims.Scan.{Text}
use zbrain.Lifecycle.{ClaimMutationOptions, Evidence}
use zbrain.Lifecycle.Commit.{Encounter}
use zbrain.Approval.{Challenge}
use zbrain.Approval.Ceremony.{Crates, Call, read_challenge, validate_token}
use zbrain.Approval.Files.{Op, run_ops, IsSound}
use zbrain.Approval.OneTime.{AvoidsId, IsConsumed, read_consumed, run_ops-IsConsumed}
use zbrain.Approval.Apply.{
  ApplyError, by_challenge, Office, check_authorization, apply_checks, apply_unlocked,
  apply_challenge,
}
use zbrain.Approval.Apply.Batch.{batch_checks, apply_batch_unlocked, apply_challenge_batch}
use zbrain.Approval.Apply.Applied.{
  recovered, under_lock-ok, token-unspent, apply_checks-IsReady, apply_challenge-IsApplied,
}

not_ok : {E A : Type 0} (r : Result E A) → ((a : A) → r ≡ ok a → ⊥) → is_ok r ≡ false
not_ok (ok a) h = absurd (h a refl)
not_ok (err e) h = refl

module _ (text : Text) (crates : Crates) (workspace : String) where
  -- A consumed challenge is applied by neither operation.
  apply_consumed :
      (evidence : Evidence) (encounter : Encounter) (call consumption : Call) (id token : String)
      (options : ClaimMutationOptions) (office : Office text crates)
      → IsConsumed crates workspace office.challenges id
      → is_ok
          (apply_challenge text crates workspace evidence encounter call consumption id token
            options office).1
        ≡ false
  unfolding apply_challenge apply_unlocked
  apply_consumed evidence encounter call consumption id token options office k = not_ok _ λ a h.
      let (same, h1) =
        under_lock-ok text crates workspace encounter
          (apply_unlocked text crates workspace evidence encounter call consumption id token
            options)
          office h in
      let (c, checked, same1, h2) =
        after_checks-ok (recovered text crates workspace encounter office)
          (apply_checks text crates workspace evidence encounter.meets call id token options
            (recovered text crates workspace encounter office))
          _ h1 in
      let ready =
        apply_checks-IsReady text crates workspace evidence encounter call id token options
          (recovered text crates workspace encounter office) c checked in
      let spent =
        (read_consumed crates workspace call id office.challenges c.0 k ready.was_read).0 in
      let fresh = ready.was_unspent in cc (spent, fresh)

  batch_checks-unspent :
      (call : Call) (id token : String) (options : ClaimMutationOptions)
      (office : Office text crates) (c : Challenge)
      → batch_checks text crates workspace call id token options office ≡ ok c
      → (read_challenge crates workspace call id office.challenges ≡ ok c) × (c.consumed ≡ false)
  unfolding batch_checks
  batch_checks-unspent call id token options office c h =
      let (challenge, r, h1) =
        >>=-eq-ok (map_err by_challenge (read_challenge crates workspace call id office.challenges))
          _ h in
      let (b, h2) = >>-eq-ok (refuse_if (is_empty challenge.items) ApplyError.not_a_batch) _ h1 in
      let (t, h3) =
        >>-eq-ok (map_err by_challenge (validate_token crates workspace call.now challenge token)) _
          h2 in
      let (a, h4) = >>-eq-ok (check_authorization options.authorization challenge) _ h3 in
      let (granted, unspent) =
        token-unspent text crates workspace call challenge token (map_err-eq-ok by_challenge _ t) in
      let same : challenge ≡ c = cc h4 in
      subst
        (λ x.
          (read_challenge crates workspace call id office.challenges ≡ ok x) × (x.consumed ≡ false))
        same (map_err-eq-ok by_challenge _ r, unspent)

  apply_batch_consumed :
      (evidence : Evidence) (encounter : Encounter) (encounters : String → Encounter)
      (call consumption : Call) (id token : String) (options : ClaimMutationOptions)
      (office : Office text crates)
      → IsConsumed crates workspace office.challenges id
      → is_ok
          (apply_challenge_batch text crates workspace evidence encounter encounters call
            consumption id token options office).1
        ≡ false
  unfolding apply_challenge_batch apply_batch_unlocked
  apply_batch_consumed evidence encounter encounters call consumption id token options office k =
      not_ok _ λ a h.
        let (same, h1) =
          under_lock-ok text crates workspace encounter
            (apply_batch_unlocked text crates workspace evidence encounter encounters call
              consumption id token options)
            office h in
        let (c, checked, same1, h2) =
          after_checks-ok (recovered text crates workspace encounter office)
            (batch_checks text crates workspace call id token options
              (recovered text crates workspace encounter office))
            _ h1 in
        let (r, fresh) =
          batch_checks-unspent call id token options
            (recovered text crates workspace encounter office) c checked in
        let spent = (read_consumed crates workspace call id office.challenges c k r).0 in
        cc (spent, fresh)

  -- Let the application of a challenge in sound files succeed, and let any operations on the challenges
  -- follow whose random bytes do not draw its id again. Then neither `apply_challenge` nor
  -- `apply_challenge_batch` applies it, whatever their token, time, surroundings and claims.
  pub apply_challenge_once :
      (evidence : Evidence) (encounter : Encounter) (call consumption : Call) (id token : String)
      (options : ClaimMutationOptions) (office : Office text crates) (result : Claim)
      (ops : List Op) (later : Encounter) (each : String → Encounter)
      (later_call later_consumption : Call) (other : String) (office_then : Office text crates)
      → IsSound crates workspace office.challenges
      → (apply_challenge text crates workspace evidence encounter call consumption id token options
          office).1
        ≡ ok result
      → All (AvoidsId id) ops
      → office_then.challenges
        ≡ run_ops crates workspace ops
            (apply_challenge text crates workspace evidence encounter call consumption id token
              options office).0.challenges
      → (is_ok
            (apply_challenge text crates workspace evidence later later_call later_consumption id
              other options office_then).1
          ≡ false)
        × (is_ok
              (apply_challenge_batch text crates workspace evidence later each later_call
                later_consumption id other options office_then).1
            ≡ false)
  apply_challenge_once evidence encounter call consumption id token options office result ops later
        each later_call later_consumption other office_then sound h avoids holds =
      let applied =
        apply_challenge-IsApplied text crates workspace evidence encounter call consumption id token
          options office result sound h in
      let after =
        run_ops-IsConsumed crates workspace ops _ id avoids (applied.still_sound) applied.spent in
      let k = subst (λ f. IsConsumed crates workspace f id) (sym holds) after in
      (
        apply_consumed evidence later later_call later_consumption id other options office_then k,
        apply_batch_consumed evidence later each later_call later_consumption id other options
            office_then k,
      )
