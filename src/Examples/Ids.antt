-- ===== src/Examples/Ids.antt =====
-- The theorems on identifiers at concrete bytes and texts.
use zbrain.Prelude.{◌≡◌, refl, true}
use zbrain.Ids.{
  is_claim_id, is_challenge_id, is_evidence_id, is_challenge_token_hash, is_transition_sha256,
}
use zbrain.Ids.Generated.{new_claim_id, new_challenge_id, new_evidence_id, sha256_text}
use zbrain.Ids.Laws.{generated_ids_accepted, hash_texts_accepted}
use zbrain.Examples.Worlds.{random_bytes, zero_hash}

generated_ids_accepted_example :
    (is_claim_id (new_claim_id random_bytes) ≡ true)
    × (is_evidence_id (new_evidence_id random_bytes) ≡ true)
    × (is_challenge_id (new_challenge_id random_bytes) ≡ true)
generated_ids_accepted_example = generated_ids_accepted random_bytes refl

hash_texts_accepted_example :
    (is_challenge_token_hash (sha256_text zero_hash) ≡ true)
    × (is_transition_sha256 (sha256_text zero_hash) ≡ true)
hash_texts_accepted_example = hash_texts_accepted zero_hash refl
