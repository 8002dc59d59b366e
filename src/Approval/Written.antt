-- ===== src/Approval/Written.antt =====
-- approval.rs (crates/zbrain/src): what an operation that reports success has written.
use zbrain.Prelude.Effects.{Write}
use zbrain.Prelude.{String, ◌≡◌, refl, sym, ap, ◌∙◌, Result, ok, err, ◌>>◌, ensure, arith}
use zbrain.Prelude.Assoc.{insert}
use zbrain.Approval.{Challenge, ChallengeError}
use zbrain.Approval.Record.{validate_challenge_record}
use zbrain.Approval.Ceremony.{
  Crates, Call, Files, Outcome, after_checks, returning, challenge_path, publish, write_challenge,
}

module _ (crates : Crates) (workspace : String) where
  publish-ok :
      (w : Write) (c : Challenge) (files : Files crates)
      → (publish crates workspace w c files).1 ≡ ok tt
      → (publish crates workspace w c files).0 ≡ insert c.id (crates.encode c) files
  unfolding publish
  publish-ok Write.published c files h = refl
  publish-ok Write.unpublished c files h = cc
  publish-ok Write.published_then_failed c files h = cc

  after_checks-ok :
      {F A B : Type 0} (files : F) (r : Result ChallengeError A) (rest : A → Outcome F B) {b : B}
      → (after_checks files r rest).1 ≡ ok b
      → (a : A) × (r ≡ ok a) × (after_checks files r rest ≡ rest a)
  after_checks-ok files (ok a) rest h = (a, refl, refl)
  after_checks-ok files (err e) rest h = cc

  returning-ok :
      {F A B : Type 0} (b : B) (o : Outcome F A) {d : B}
      → (returning b o).1 ≡ ok d
      → (a : A) × (o.1 ≡ ok a) × (b ≡ d) × ((returning b o).0 ≡ o.0)
  returning-ok b (files, ok a) h = (a, refl, ground arith, refl)
  returning-ok b (files, err e) h = cc

  write_challenge-ok :
      (call : Call) (c : Challenge) (files : Files crates)
      → (write_challenge crates workspace call c files).1 ≡ ok tt
      → (validate_challenge_record crates.chrono crates.sha256 workspace c ≡ ok tt)
        × ((write_challenge crates workspace call c files).0 ≡ insert c.id (crates.encode c) files)
  unfolding write_challenge
  write_challenge-ok call c files h =
      let (u, e, whole) =
        after_checks-ok files
          (do
            challenge_path call workspace c.id
            ensure call.directory_made ChallengeError.write_failed
            validate_challenge_record crates.chrono crates.sha256 workspace c)
          (λ _. publish crates workspace call.write c files) h in
      (
        ground arith,
        rw whole (
            publish-ok call.write c files
              (ap (λ (o : Outcome (Files crates) (Unit {0})). o.1) (sym whole) ∙ h)),
      )

  -- What the checks returned is what is returned and written.
  pub checked_write-ok :
      {B D : Type 0} (call : Call) (files : Files crates) (checks : Result ChallengeError B)
      (record_of : B → Challenge) (result : B → D) {d : D}
      → (after_checks files checks
          (λ b. returning (result b) (write_challenge crates workspace call (record_of b) files))).1
        ≡ ok d
      → (b : B) × (checks ≡ ok b)
        × (result b ≡ d)
        × (validate_challenge_record crates.chrono crates.sha256 workspace (record_of b) ≡ ok tt)
        × ((after_checks files checks (λ b.
              returning (result b) (write_challenge crates workspace call (record_of b) files))).0
            ≡ insert (record_of b).id (crates.encode (record_of b)) files)
  checked_write-ok call files checks record_of result h =
      let (b, e, whole) = after_checks-ok files checks _ h in
      let (u, written, same, files_same) =
        returning-ok (result b) _ (ap (λ o. o.1) (sym whole) ∙ h) in
      let (v, put) = write_challenge-ok call (record_of b) files written in
      (b, e, same, v, ap (λ o. o.0) whole ∙ files_same ∙ put)
