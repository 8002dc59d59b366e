-- ===== src/Claims/Digest.antt =====
-- claims.rs (crates/zbrain/src): digests of a claim's canonical text, and their verification.
use zbrain.Prelude.{
  ℕ, String, List, ◌==◌, Result, ok, err, ◌>>=◌, ensure, map_err, if◌then◌else◌, not,
}
use zbrain.Prelude.Text.{is_blank}
use zbrain.Ids.Generated.{sha256_text}
use zbrain.Claims.{Claim, ClaimError}

-- What a digest needs: SHA-256 of the crate sha2, and the canonical text of a claim.
pub record Canon : Type 0 where
  pub sha256 : List ℕ → List ℕ
  pub render_claim_markdown : Claim → Result ClaimError (List ℕ)

module _ (canon : Canon) where
  unfoldable pub claim_canonical_digest : Claim → Result ClaimError String
  claim_canonical_digest claim = do
    rendered ← canon.render_claim_markdown claim
    ok (sha256_text (canon.sha256 rendered))

  abbrev pub unsigned : Claim → Claim
  unsigned claim = record claim { verified_at = ""; verified_by = ""; verified_digest = "" }

  unfoldable pub claim_verification_digest : Claim → Result ClaimError String
  claim_verification_digest claim = do
    rendered ← canon.render_claim_markdown (unsigned claim)
    ok (sha256_text (canon.sha256 rendered))

  compare_digest : Claim → Result ClaimError (Unit {0})
  unfolding claim_verification_digest
  compare_digest claim = do
    digest ← map_err ClaimError.digest_uncomputed (claim_verification_digest claim)
    ensure (digest == claim.verified_digest) ClaimError.digest_mismatch

  unfoldable pub verify_claim_digest : Claim → Result ClaimError (Unit {0})
  unfolding compare_digest
  verify_claim_digest claim =
      if not (claim.status == "approved")
      then ok tt
      else if is_blank claim.verified_digest
      then err ClaimError.digest_missing
      else compare_digest claim
