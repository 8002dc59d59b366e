-- ===== src/Ids.antt =====
-- claims.rs, transition.rs, approval.rs, index_state.rs (crates/zbrain/src): the shapes of
-- identifiers and digests, a fixed prefix and lowercase hexadecimal digits.
pub mod Generated
pub mod Laws
use zbrain.Prelude.{ℕ, String, Bool, false, ◌&&◌, ◌||◌, none, some, leb, eqb, all}
use zbrain.Prelude.Text.{bytes, byte_length, strip_prefix}

-- `b.is_ascii_digit() || (b'a'..=b'f').contains(&b)`
unfoldable pub is_lower_hex : ℕ → Bool
is_lower_hex b = leb b'0' b && leb b b'9' || leb b'a' b && leb b b'f'

-- A prefix, then exactly `n` bytes, all lowercase hexadecimal digits.
has_prefix_and_hex : String → ℕ → String → Bool
unfolding strip_prefix is_lower_hex
has_prefix_and_hex prefix n value = elim (strip_prefix prefix value) [
  | none ↦ false
  | some rest ↦ eqb (byte_length rest) n && all is_lower_hex (bytes rest)
]

unfoldable pub has_id_prefix : String → String → Bool
unfolding has_prefix_and_hex
has_id_prefix value prefix = has_prefix_and_hex prefix 32 value

unfoldable pub is_claim_id : String → Bool
unfolding has_id_prefix
is_claim_id value = has_id_prefix value "clm_"

unfoldable pub is_evidence_id : String → Bool
unfolding has_id_prefix
is_evidence_id value = has_id_prefix value "evd_"

unfoldable pub is_challenge_id : String → Bool
unfolding has_id_prefix
is_challenge_id value = has_id_prefix value "chg_"

-- transition.rs
unfoldable pub is_transition_sha256 : String → Bool
unfolding has_prefix_and_hex
is_transition_sha256 value = has_prefix_and_hex "sha256:" 64 value

-- approval.rs
unfoldable pub is_challenge_token_hash : String → Bool
unfolding has_prefix_and_hex
is_challenge_token_hash value = has_prefix_and_hex "sha256:" 64 value

-- index_state.rs and evidence.rs: the digits alone
unfoldable pub is_sha256_digest : String → Bool
unfolding is_lower_hex
is_sha256_digest value = eqb (byte_length value) 64 && all is_lower_hex (bytes value)

-- evidence.rs
unfoldable pub is_legacy_evidence_digest : String → Bool
unfolding is_sha256_digest strip_prefix
is_legacy_evidence_digest value = elim (strip_prefix "sha256:" value) [
  | none ↦ false
  | some rest ↦ is_sha256_digest rest
]

-- campaign.rs
unfoldable pub is_campaign_run_id : String → Bool
unfolding has_prefix_and_hex
is_campaign_run_id value = has_prefix_and_hex "cmp_" 32 value
