-- ===== src/Approval/Replay.antt =====
-- approval.rs (crates/zbrain/src): `verify`, `grant` and `consume` of a challenge that was consumed.
use mathlib.Core.Path.{subst}
use zbrain.Prelude.{String, false, ◌≡◌, refl, ◌∙◌, List, Result, ok, err, arith, is_ok, All}
use zbrain.Prelude.Assoc.{insert}
use zbrain.Approval.{Challenge, ChallengeError}
use zbrain.Approval.Ceremony.{
  Crates, Call, Files, Outcome, after_checks, read_challenge, verify, validate_token, grant,
  consume,
}
use zbrain.Approval.Files.{
  Op, run_ops, IsSound, read_challenge-Holds, Holds-insert_self, IsSound-insert,
}
use zbrain.Approval.Written.{checked_write-ok}
use zbrain.Approval.OneTime.{
  AvoidsId, IsConsumed, consume_checks-ok, read_consumed, run_ops-IsConsumed, grant_checks-ok,
}

-- A use of the challenge is refused.
abbrev pub IsRefused : {A : Type 0} → Result ChallengeError A → Type 0
IsRefused r = is_ok r ≡ false

IsRefused-intro :
    {A : Type 0} (r : Result ChallengeError A) → ((a : A) → r ≡ ok a → ⊥) → IsRefused r
IsRefused-intro (ok a) h = absurd (h a refl)
IsRefused-intro (err e) h = refl

after_checks-IsRefused :
    {F A B : Type 0} (files : F) (r : Result ChallengeError A) (rest : A → Outcome F B)
    → IsRefused r
    → IsRefused (after_checks files r rest).1
after_checks-IsRefused files (ok a) rest h = cc
after_checks-IsRefused files (err e) rest h = refl

module _ (crates : Crates) (workspace : String) where
  verify-consumed :
      (call : Call) (id token : String) (files : Files crates)
      → IsConsumed crates workspace files id
      → IsRefused (verify crates workspace call id token files)
  unfolding verify validate_token
  verify-consumed call id token files k = IsRefused-intro _ λ c e.
      let parts : (read_challenge crates workspace call id files ≡ ok c) × (c.consumed ≡ false) =
        ground arith in
      ground (arith, read_consumed crates workspace call id files c k parts.0)

  grant-consumed :
      (call : Call) (id : String) (files : Files crates)
      → IsConsumed crates workspace files id
      → IsRefused (grant crates workspace call id files).1
  unfolding grant
  grant-consumed call id files k = after_checks-IsRefused files _ _ (
      IsRefused-intro _ λ g e.
        let (c, r, ungranted, ids) = grant_checks-ok crates workspace call id files g e in
        ground (arith, read_consumed crates workspace call id files c k r))

  consume-consumed :
      (call : Call) (id token : String) (files : Files crates)
      → IsConsumed crates workspace files id
      → IsRefused (consume crates workspace call id token files).1
  unfolding consume
  consume-consumed call id token files k = after_checks-IsRefused files _ _ (
      IsRefused-intro _ λ d e.
        let (c, r, fresh, ids, spent) =
          consume_checks-ok crates workspace call id token files d e in
        ground (arith, read_consumed crates workspace call id files c k r))

  -- A consumption that succeeds leaves its challenge consumed, and the files sound.
  pub consume-IsConsumed :
      (call : Call) (id token : String) (files : Files crates) (c : Challenge)
      → IsSound crates workspace files
      → (consume crates workspace call id token files).1 ≡ ok c
      → IsConsumed crates workspace (consume crates workspace call id token files).0 id
        × IsSound crates workspace (consume crates workspace call id token files).0
  unfolding consume
  consume-IsConsumed call id token files c s h =
      let (b, checked, same, valid, put) =
        checked_write-ok crates workspace call files _ (λ x. x) (λ x. x) h in
      let (d, r, fresh, ids, spent) =
        consume_checks-ok crates workspace call id token files b checked in
      let here : b.id ≡ id =
        ids ∙ (read_challenge-Holds crates workspace call id files s r).placed in
      (
        rw put (
            subst (λ x. IsConsumed crates workspace (insert b.id (crates.encode b) files) x) here
              (record {
                challenge = b;
                held = Holds-insert_self crates workspace files b valid;
                is_consumed = spent;
              })),
        rw put (IsSound-insert crates workspace files b valid s),
      )

  -- Let a consumption of a challenge succeed on sound files, and let any operations follow whose
  -- random bytes do not draw the same id again. Then `verify`, `grant` and `consume` refuse that
  -- challenge, whatever their token, time and surroundings.
  pub consume_once :
      (call : Call) (id token : String) (files : Files crates) (c : Challenge) (ops : List Op)
      (later : Call) (other : String)
      → IsSound crates workspace files
      → (consume crates workspace call id token files).1 ≡ ok c
      → All (AvoidsId id) ops
      → IsRefused (
          verify crates workspace later id other
            (run_ops crates workspace ops (consume crates workspace call id token files).0))
        × IsRefused
            (grant crates workspace later id
              (run_ops crates workspace ops (consume crates workspace call id token files).0)).1
        × IsRefused
            (consume crates workspace later id other
              (run_ops crates workspace ops (consume crates workspace call id token files).0)).1
  consume_once call id token files c ops later other s h avoids =
      let (k, sound) = consume-IsConsumed call id token files c s h in
      let after = run_ops-IsConsumed crates workspace ops _ id avoids sound k in
      (
        verify-consumed later id other _ after,
        grant-consumed later id _ after,
        consume-consumed later id other _ after,
      )
