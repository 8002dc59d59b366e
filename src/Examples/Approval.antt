-- ===== src/Examples/Approval.antt =====
-- A challenge to approve a claim, granted and consumed in the example world.
use zbrain.Prelude.{ℕ, String, ◌≡◌, refl, ◌*◌, true, some, List, [], ◌∷◌, ok, ◌↔◌, ◌≤◌, ◌+◌, arith}
use zbrain.Prelude.Assoc.{get, insert}
use zbrain.Prelude.Sort.{sort}
use zbrain.Prelude.Text.{trim}
use zbrain.Paths.{is_safe_workspace_name}
use zbrain.Ids.{is_claim_id, is_challenge_id, is_challenge_token_hash}
use zbrain.Ids.Generated.{new_challenge_id, hex_lower, sha256_text}
use zbrain.Claims.{is_known_transition_kind}
use zbrain.Approval.{
  Challenge, ChallengePrepare, compute_challenge_action_digest, action_preimage, frame, be_bytes,
  join_nul,
}
use zbrain.Approval.Record.{
  validate_challenge_record, validate_prepare, check_batch, check_bound_fields, check_superseded,
  check_grant, check_state,
}
use zbrain.Approval.ConstantTime.{constant_time_eq, constant_time_eq_exact, difference}
use zbrain.Approval.Ceremony.{
  challenge_token_lifetime, Files, challenge_path, read_challenge, publish, write_challenge,
  prepared, prepare_checks, prepare, expiry_in_time, validate_token, verify, granted_record,
  release, grant_checks, grant, consume_checks, consume,
}
use zbrain.Approval.Files.{
  Op, prepare_op, grant_op, consume_op, run_op, run_ops, IsSound, run_ops-IsSound, run_op-IsSound,
}
use zbrain.Approval.Replay.{consume_once, IsRefused}
use zbrain.Approval.RoundTrip.{grant-verify}
use zbrain.Examples.Worlds.{crates, call_at, random_bytes, strokes, count}

program : Unit {0}
unfolding run_op run_ops prepare prepare_checks prepared write_challenge challenge_path publish
    validate_prepare validate_challenge_record check_batch check_bound_fields check_superseded
    check_grant check_state compute_challenge_action_digest action_preimage frame be_bytes join_nul
    strokes count insert get is_safe_workspace_name is_known_transition_kind is_claim_id
    is_challenge_id new_challenge_id trim grant grant_checks release granted_record expiry_in_time
    consume consume_checks read_challenge validate_token constant_time_eq difference hex_lower
    sha256_text is_challenge_token_hash sort verify
program = tt

abbrev approval : ChallengePrepare
approval = record {
  workspace = "notes";
  operation = "approve";
  claim_id = "clm_00000000000000000000000000000001";
  canonical_draft_digest = "sha256:draft";
  superseded_ids = [];
  prior_verification_digest = "";
  revoke_reason = "";
  items = [];
}

abbrev challenge_id : String
challenge_id = "chg_070000000000000000000000000000ff"

abbrev token : String
token = "070000000000000000000000000000ff"

abbrev pending : Challenge
unfolding prepared strokes
pending = prepared crates "notes" (call_at 1) approval challenge_id

abbrev granted : Challenge
granted = (granted_record crates "notes" (2 * 1000000000) (901 * 1000000000) random_bytes pending).0

prepared_files : Files crates
prepared_files = run_ops crates "notes" (prepare_op (call_at 1) approval ∷ []) []

prepared_files-IsSound : IsSound crates "notes" prepared_files
unfolding prepared_files get
prepared_files-IsSound =
    run_ops-IsSound crates "notes" (prepare_op (call_at 1) approval ∷ []) []
      (record { holds = λ id contents e. cc })

abbrev granted_files : Files crates
granted_files = (grant crates "notes" (call_at 2) challenge_id prepared_files).0

granted_files-IsSound : IsSound crates "notes" granted_files
unfolding run_op
granted_files-IsSound =
    run_op-IsSound crates "notes" (grant_op (call_at 2) challenge_id) prepared_files
      prepared_files-IsSound

granted_ok : (grant crates "notes" (call_at 2) challenge_id prepared_files).1 ≡ ok (granted, token)
unfolding program prepared_files
granted_ok = refl

consumed_ok :
    (consume crates "notes" (call_at 9) challenge_id token granted_files).1
    ≡ ok (record granted { consumed = true })
unfolding program prepared_files
consumed_ok = refl

-- Another grant and another consumption are tried in between.
abbrev attempts : List Op
attempts = grant_op (call_at 10) challenge_id ∷ consume_op (call_at 11) challenge_id token ∷ []

consume_once_example :
    IsRefused (
      verify crates "notes" (call_at 12) challenge_id token (
        run_ops crates "notes" attempts
          (consume crates "notes" (call_at 9) challenge_id token granted_files).0))
    × IsRefused
        (grant crates "notes" (call_at 12) challenge_id (
          run_ops crates "notes" attempts
            (consume crates "notes" (call_at 9) challenge_id token granted_files).0)).1
    × IsRefused
        (consume crates "notes" (call_at 12) challenge_id token (
          run_ops crates "notes" attempts
            (consume crates "notes" (call_at 9) challenge_id token granted_files).0)).1
consume_once_example =
    consume_once crates "notes" (call_at 9) challenge_id token granted_files
      (record granted { consumed = true }) attempts (call_at 12) token granted_files-IsSound
      consumed_ok (tt, (tt, tt))

path_safe : challenge_path (call_at 300) "notes" challenge_id ≡ ok tt
unfolding program
path_safe = refl

grant-verify_example :
    (deadline : ℕ) × (crates.chrono.parse_rfc3339 granted.token_expires_at ≡ some deadline)
    × (deadline ≤ (call_at 2).now + challenge_token_lifetime)
    × ((verify crates "notes"
            (call_at 300)
            challenge_id
            token
            (grant crates "notes" (call_at 2) challenge_id prepared_files).0
          ≡ ok granted)
        ↔ ((call_at 300).now ≤ deadline))
grant-verify_example =
    grant-verify crates "notes" (call_at 2) challenge_id prepared_files (granted, token)
      (call_at 300) prepared_files-IsSound granted_ok path_safe

run_ops-IsSound_example :
    IsSound crates "notes"
      (run_ops crates "notes" (consume_op (call_at 9) challenge_id token ∷ attempts) granted_files)
run_ops-IsSound_example =
    run_ops-IsSound crates "notes" (consume_op (call_at 9) challenge_id token ∷ attempts)
      granted_files granted_files-IsSound

abbrev left : List ℕ
left = 1 ∷ 200 ∷ []

abbrev right : List ℕ
right = 1 ∷ 201 ∷ []

constant_time_eq_exact_example : (constant_time_eq left right ≡ true) ↔ (left ≡ right)
constant_time_eq_exact_example =
    constant_time_eq_exact left right (omega arith, (omega arith, tt))
      (omega arith, (omega arith, tt))
