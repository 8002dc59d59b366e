-- ===== src/Approval/Ceremony.antt =====
-- approval.rs (crates/zbrain/src): the operations of `ChallengeStore` on the challenge files of one
-- workspace. Each returns the files beside its result, since a failed write may have published.
pub mod Decisions
use zbrain.Prelude.Effects.{Write}
use zbrain.Prelude.{
  ℕ, ◌+◌, ◌*◌, String, Bool, true, false, not, ◌≡◌, Option, none, some, List, [], ◌∷◌, ◌++◌, ◌==◌,
  Result, ok, err, ◌>>=◌, ◌>>◌, ensure, refuse_if, or_fail, is_empty, ltb, length, if◌then◌else◌,
}
use zbrain.Prelude.Text.{bytes}
use zbrain.Prelude.Assoc.{Assoc, get, insert}
use zbrain.Prelude.Sort.{sort}
use zbrain.Clock.{Chrono, Time, second}
use zbrain.Ids.{is_challenge_id}
use zbrain.Ids.Generated.{hex_lower, sha256_text, new_challenge_id}
use zbrain.Approval.{
  Challenge, ChallengeItem, ChallengePrepare, ChallengeError, challenge_schema_version,
  compute_challenge_action_digest,
}
use zbrain.Approval.Record.{
  Check, normalize_challenge_items, validate_challenge_record, validate_prepare,
}
use zbrain.Approval.ConstantTime.{constant_time_eq, AreBytes}
use Decisions.{check_grant_decisions}

-- The crates that the ceremony rests on: chrono, sha2 and serde_json with the derived codec.
pub record Crates : Type 1 where
  pub Json : Type 0
  pub chrono : Chrono
  pub sha256 : List ℕ → List ℕ
  pub encode : Challenge → Json
  pub decode : Json → Option Challenge
  pub decode-encode : (c : Challenge) → decode (encode c) ≡ some c
  pub length-sha256 : (text : List ℕ) → length (sha256 text) ≡ 32

-- What one call meets: the time, random bytes, and the answers of the file system.
pub record Call : Type 0 where
  pub now : Time
  pub random : Option (List ℕ)
  pub is_workspace : String → Bool
  pub is_safe_file : String → Bool
  pub directory_made : Bool
  pub write : Write

-- The contents of each `<id>.json`.
abbrev pub Files : Crates → Type 0
Files crates = Assoc crates.Json

abbrev pub challenge_lifetime : ℕ
challenge_lifetime = 15 * 60 * second

abbrev pub challenge_token_lifetime : ℕ
challenge_token_lifetime = 5 * 60 * second

abbrev pub Outcome : Type 0 → Type 0 → Type 0
Outcome F A = F × Result ChallengeError A

-- The rest of an operation after the checks that change nothing.
abbrev pub after_checks :
    {F A B : Type 0} → F → Result ChallengeError A → (A → Outcome F B) → Outcome F B
after_checks files (err e) rest = (files, err e)
after_checks files (ok a) rest = rest a

abbrev pub returning : {F A B : Type 0} → B → Outcome F A → Outcome F B
returning b (files, ok a) = (files, ok b)
returning b (files, err e) = (files, err e)

abbrev pub empty_challenge : Challenge
empty_challenge = record {
  schema = "";
  id = "";
  workspace = "";
  operation = "";
  claim_id = "";
  canonical_draft_digest = "";
  superseded_ids = [];
  prior_verification_digest = "";
  revoke_reason = "";
  items = [];
  granted_items = [];
  skipped_items = [];
  action_digest = "";
  token_sha256 = "";
  expires_at = "";
  token_expires_at = "";
  granted = false;
  granted_at = "";
  consumed = false;
}

-- The checks of `challenge_path`.
unfoldable pub challenge_path : Call → String → String → Check
challenge_path call workspace id = do
  ensure (is_challenge_id id) ChallengeError.id_invalid
  ensure (call.is_workspace workspace) ChallengeError.workspace_refused
  ensure (call.is_safe_file id) ChallengeError.path_refused

module _ (crates : Crates) (workspace : String) where
  unfoldable pub read_challenge : Call → String → Files crates → Result ChallengeError Challenge
  read_challenge call id files = do
    challenge_path call workspace id
    contents ← or_fail (get files id) ChallengeError.missing_file
    challenge ← or_fail (crates.decode contents) ChallengeError.undecodable
    validate_challenge_record crates.chrono crates.sha256 workspace challenge
    ok challenge

  unfoldable pub publish : Write → Challenge → Files crates → Outcome (Files crates) (Unit {0})
  publish Write.published c files = (insert c.id (crates.encode c) files, ok tt)
  publish Write.unpublished c files = (files, err ChallengeError.write_failed)
  publish Write.published_then_failed c files =
      (insert c.id (crates.encode c) files, err ChallengeError.write_failed)

  unfoldable pub write_challenge :
      Call → Challenge → Files crates → Outcome (Files crates) (Unit {0})
  write_challenge call c files =
      after_checks files
        (do
          challenge_path call workspace c.id
          ensure call.directory_made ChallengeError.write_failed
          validate_challenge_record crates.chrono crates.sha256 workspace c)
        (λ _. publish call.write c files)

  unfoldable pub prepared : Call → ChallengePrepare → String → Challenge
  prepared call p id = record empty_challenge {
    schema = challenge_schema_version;
    id = id;
    workspace = workspace;
    operation = p.operation;
    claim_id = p.claim_id;
    canonical_draft_digest = p.canonical_draft_digest;
    superseded_ids = sort p.superseded_ids;
    prior_verification_digest = p.prior_verification_digest;
    revoke_reason = p.revoke_reason;
    action_digest = compute_challenge_action_digest crates.sha256 p;
    expires_at = crates.chrono.rfc3339 (call.now + challenge_lifetime);
  }

  -- What `prepare` does before its write.
  unfoldable pub prepare_checks : Call → ChallengePrepare → Result ChallengeError Challenge
  prepare_checks call p = do
    validate_prepare call.is_workspace workspace p
    random ← or_fail call.random ChallengeError.random_unavailable
    ok (prepared call p (new_challenge_id random))

  unfoldable pub prepare : Call → ChallengePrepare → Files crates → Outcome (Files crates) Challenge
  prepare call p files =
      after_checks files (prepare_checks call p) (λ c. returning c (write_challenge call c files))

  abbrev pub batch_prepare : List ChallengeItem → ChallengePrepare
  batch_prepare items = record {
    workspace = workspace;
    operation = "approve";
    claim_id = "";
    canonical_draft_digest = "";
    superseded_ids = [];
    prior_verification_digest = "";
    revoke_reason = "";
    items = items;
  }

  unfoldable pub prepared_batch : Call → List ChallengeItem → String → Challenge
  prepared_batch call items id = record empty_challenge {
    schema = challenge_schema_version;
    id = id;
    workspace = workspace;
    operation = "approve";
    items = items;
    action_digest = compute_challenge_action_digest crates.sha256 (batch_prepare items);
    expires_at = crates.chrono.rfc3339 (call.now + challenge_lifetime);
  }

  -- What `prepare_batch` does before its write.
  unfoldable pub prepare_batch_checks : Call → List ChallengeItem → Result ChallengeError Challenge
  prepare_batch_checks call items = do
    normalized ← normalize_challenge_items items
    validate_prepare call.is_workspace workspace (batch_prepare normalized)
    random ← or_fail call.random ChallengeError.random_unavailable
    ok (prepared_batch call normalized (new_challenge_id random))

  unfoldable pub prepare_batch :
      Call → List ChallengeItem → Files crates → Outcome (Files crates) Challenge
  prepare_batch call items files =
      after_checks files (prepare_batch_checks call items)
        (λ c. returning c (write_challenge call c files))

  -- `now > expires_at` is an error; the expiry itself is in time.
  unfoldable pub expiry_in_time :
      Time → String → ChallengeError → ChallengeError → Result ChallengeError Time
  expiry_in_time now expires_at unparsable late = do
    time ← or_fail (crates.chrono.parse_rfc3339 expires_at) unparsable
    refuse_if (ltb time now) late
    ok time

  unfoldable pub validate_token : Time → Challenge → String → Check
  unfolding expiry_in_time
  validate_token now c token = do
    ensure c.granted ChallengeError.not_granted
    refuse_if c.consumed ChallengeError.already_consumed
    _ ← expiry_in_time now c.expires_at ChallengeError.expiry_invalid ChallengeError.expired
    _ ←
        expiry_in_time now c.token_expires_at ChallengeError.token_expiry_invalid
          ChallengeError.token_expired
    ensure
        (constant_time_eq (bytes (sha256_text (crates.sha256 (bytes token))))
          (bytes c.token_sha256))
        ChallengeError.token_mismatch

  unfoldable pub verify : Call → String → String → Files crates → Result ChallengeError Challenge
  verify call id token files = do
    challenge ← read_challenge call id files
    validate_token call.now challenge token
    ok challenge

  abbrev pub earlier : Time → Time → Time
  earlier a b = if ltb b a then b else a

  -- A challenge with the owner's approval, and the token released with it.
  unfoldable pub granted_record : Time → Time → List ℕ → Challenge → Challenge × String
  granted_record now challenge_expires_at random c =
      let token = hex_lower random in
      (
        record c {
          token_sha256 = sha256_text (crates.sha256 (bytes token));
          token_expires_at =
              crates.chrono.rfc3339 (earlier (now + challenge_token_lifetime) challenge_expires_at);
          granted = true;
          granted_at = crates.chrono.rfc3339 now;
        },
        token,
      )

  unfoldable pub release : Call → Challenge → Result ChallengeError (Challenge × String)
  unfolding expiry_in_time granted_record
  release call c = do
    challenge_expires_at ←
        expiry_in_time call.now c.expires_at ChallengeError.expiry_invalid ChallengeError.expired
    random ← or_fail call.random ChallengeError.random_unavailable
    ok (granted_record call.now challenge_expires_at random c)

  -- What `grant` does before its write.
  unfoldable pub grant_checks :
      Call → String → Files crates → Result ChallengeError (Challenge × String)
  grant_checks call id files = do
    challenge ← read_challenge call id files
    refuse_if challenge.granted ChallengeError.already_granted
    release call challenge

  unfoldable pub grant : Call → String → Files crates → Outcome (Files crates) (Challenge × String)
  grant call id files =
      after_checks files (grant_checks call id files)
        (λ g. returning g (write_challenge call g.0 files))

  -- What `grant_items` does before its write.
  unfoldable pub grant_items_checks :
      Call
      → String
      → List String
      → List String
      → Files crates
      → Result ChallengeError (Challenge × String)
  grant_items_checks call id granted skipped files = do
    challenge ← read_challenge call id files
    refuse_if (is_empty challenge.items) ChallengeError.not_a_batch
    refuse_if challenge.granted ChallengeError.already_granted
    check_grant_decisions challenge granted skipped
    release call (record challenge { granted_items = granted; skipped_items = skipped })

  unfoldable pub grant_items :
      Call
      → String
      → List String
      → List String
      → Files crates
      → Outcome (Files crates) (Challenge × String)
  grant_items call id granted skipped files =
      after_checks files (grant_items_checks call id granted skipped files)
        (λ g. returning g (write_challenge call g.0 files))

  -- What `consume` does before its write.
  unfoldable pub consume_checks :
      Call → String → String → Files crates → Result ChallengeError Challenge
  consume_checks call id token files = do
    challenge ← read_challenge call id files
    validate_token call.now challenge token
    ensure challenge.granted ChallengeError.not_granted
    ok (record challenge { consumed = true })

  unfoldable pub consume : Call → String → String → Files crates → Outcome (Files crates) Challenge
  consume call id token files =
      after_checks files (consume_checks call id token files)
        (λ c. returning c (write_challenge call c files))
