-- ===== src/Claims/Verified.antt =====
-- claims.rs (crates/zbrain/src): what `verify_claim_digest` accepts.
use mathlib.Core.Path.{subst}
use zbrain.Prelude.{
  >>=-eq-ok, ℕ, String, true, false, ◌≡◌, ◌↔◌, List, ok, ◌==◌, eq_iff, arith, inl, inr,
  Result-cases, Bool-cases,
}
use zbrain.Prelude.Text.{is_blank, trim, trim_start, trim_end, is_whitespace}
use zbrain.Ids.Generated.{sha256_text}
use zbrain.Claims.{Claim}
use zbrain.Claims.Digest.{Canon, unsigned, claim_verification_digest, verify_claim_digest}

text_not_empty : (c : Prim.Native.Char.Char) (s : String) → (String.◌∷◌ c s == "") ≡ false
text_not_empty c s = elim (Bool-cases (String.◌∷◌ c s == "")) [
  | inl e ↦ absurd (apart ((eq_iff (String.◌∷◌ c s) "").0 e))
  | inr e ↦ e
]
  where
    apart : String.◌∷◌ c s ≡ "" → ⊥
    apart e = cc

hash_text_not_blank : (digest : List ℕ) → is_blank (sha256_text digest) ≡ false
unfolding sha256_text trim trim_start trim_end is_whitespace
hash_text_not_blank digest = text_not_empty "s" _

module _ (canon : Canon) where
  digest_not_blank :
      (claim : Claim) (d : String)
      → claim_verification_digest canon claim ≡ ok d
      → is_blank d ≡ false
  unfolding claim_verification_digest
  digest_not_blank claim d h =
      let (r, e, f) = >>=-eq-ok (canon.render_claim_markdown (unsigned canon claim)) _ h in
      let same : sha256_text (canon.sha256 r) ≡ d = ground arith in
      subst (λ x. is_blank x ≡ false) same (hash_text_not_blank (canon.sha256 r))

  -- An approved claim is accepted exactly when its digest can be computed and is the one recorded.
  pub verify_claim_digest_exact :
      (claim : Claim)
      → claim.status ≡ "approved"
      → (verify_claim_digest canon claim ≡ ok tt)
        ↔ (claim_verification_digest canon claim ≡ ok claim.verified_digest)
  unfolding verify_claim_digest
  verify_claim_digest_exact claim approved =
      let is_approved : (claim.status == "approved") ≡ true =
        (eq_iff claim.status "approved").1 approved in
      (
        λ h. elim (Result-cases (claim_verification_digest canon claim)) [
          | inl (d, e) ↦ ground (arith, eq_iff d claim.verified_digest)
          | inr (x, e) ↦ absurd (ground arith)
        ],
        λ h. ground (
          arith,
          digest_not_blank claim claim.verified_digest h,
          eq_iff claim.verified_digest claim.verified_digest,
        ),
      )

  -- Signing: with the digest computed from a claim recorded in it, whatever else the verification says,
  -- the approved claim is accepted.
  pub signed_claim_accepted :
      (claim : Claim) (digest verified_at verified_by : String)
      → claim_verification_digest canon claim ≡ ok digest
      → claim.status ≡ "approved"
      → verify_claim_digest canon (record claim {
        verified_digest = digest;
        verified_at = verified_at;
        verified_by = verified_by;
      })
        ≡ ok tt
  unfolding claim_verification_digest
  signed_claim_accepted claim digest at by h approved =
      (verify_claim_digest_exact
          (record claim { verified_digest = digest; verified_at = at; verified_by = by })
          approved).1
        h
