-- ===== src/Approval/RecordLaws.antt =====
-- approval.rs (crates/zbrain/src): what a valid challenge record guarantees of its grant.
use zbrain.Prelude.{ℕ, ◌≤◌, String, true, false, ◌≡◌, some, List, ok, arith, is_empty, eq_iff}
use zbrain.Clock.{Chrono, Time}
use zbrain.Ids.{is_challenge_token_hash}
use zbrain.Approval.{Challenge, compute_challenge_action_digest}
use zbrain.Approval.Record.{
  validate_challenge_record, validate_challenge_item_decisions, check_state, check_grant,
  check_batch, bound_by,
}

module _ (chrono : Chrono) (sha256 : List ℕ → List ℕ) (workspace : String) (c : Challenge)
    (v : validate_challenge_record chrono sha256 workspace c ≡ ok tt) where
  pub valid-check_state : check_state chrono c ≡ ok tt
  unfolding validate_challenge_record
  valid-check_state = ground arith

  pub valid-check_batch : check_batch c ≡ ok tt
  unfolding validate_challenge_record
  valid-check_batch = ground arith

  pub valid-decisions : is_empty c.items ≡ false → validate_challenge_item_decisions c ≡ ok tt
  unfolding validate_challenge_record
  valid-decisions h = ground arith

  pub valid-action_digest : compute_challenge_action_digest sha256 (bound_by c) ≡ c.action_digest
  unfolding validate_challenge_record
  valid-action_digest =
      ground (arith, eq_iff (compute_challenge_action_digest sha256 (bound_by c)) c.action_digest)

  pub consumed-granted : c.consumed ≡ true → c.granted ≡ true
  unfolding check_state
  consumed-granted h = ground (arith, valid-check_state)

  -- The expiry of a granted record, and that of its token, which comes no later.
  pub granted-expiries :
      c.granted ≡ true
      → (e : Time) × (t : Time) × (chrono.parse_rfc3339 c.expires_at ≡ some e)
        × (chrono.parse_rfc3339 c.token_expires_at ≡ some t)
        × (t ≤ e)
  unfolding check_state check_grant
  granted-expiries h = ground (arith, valid-check_state)

  pub granted-token_hash : c.granted ≡ true → is_challenge_token_hash c.token_sha256 ≡ true
  unfolding check_state check_grant
  granted-token_hash h = ground (arith, valid-check_state)
