-- ===== src/Approval/Binding.antt =====
-- approval.rs (crates/zbrain/src): the bytes that the action digest hashes, field by field.
use zbrain.Prelude.{
  ℕ, ◌+◌, ◌*◌, ◌^◌, ◌<◌, String, true, ◌≡◌, refl, sym, ◌∙◌, ap, List, [], ◌∷◌, ◌++◌, arith, length,
  is_empty,
}
use zbrain.Prelude.Text.{bytes, byte_length}
use zbrain.Prelude.Sort.{sort}
use zbrain.Approval.{ChallengePrepare, be_bytes, frame, join_nul, action_preimage}

-- The number that eight bytes stand for.
abbrev value_of : ℕ → List ℕ → ℕ
value_of high [] = high
value_of high (b ∷ bs) = value_of (high * 256 + b) bs

value_of-be_bytes : (n : ℕ) → n < 2 ^ 64 → value_of 0 (be_bytes n) ≡ n
unfolding be_bytes
value_of-be_bytes n h = omega arith

append_assoc : (xs ys zs : List ℕ) → (xs ++ ys) ++ zs ≡ xs ++ (ys ++ zs)
append_assoc [] ys zs = refl
append_assoc (x ∷ xs) ys zs = ap (λ l. x ∷ l) (append_assoc xs ys zs)

append_apart :
    (xs ys u v : List ℕ) → length xs ≡ length ys → xs ++ u ≡ ys ++ v → (xs ≡ ys) × (u ≡ v)
append_apart [] [] u v l e = (refl, e)
append_apart [] (y ∷ ys) u v l e = absurd (omega arith)
append_apart (x ∷ xs) [] u v l e = absurd (omega arith)
append_apart (x ∷ xs) (y ∷ ys) u v l e =
    let heads : x ≡ y = cc in
    let tails : xs ++ u ≡ ys ++ v = cc in
    let (same, rest) = append_apart xs ys u v (omega arith) tails in (cc, rest)

length-be_bytes : (m n : ℕ) → length (be_bytes m) ≡ length (be_bytes n)
unfolding be_bytes
length-be_bytes m n = refl

be_bytes-append :
    (m n : ℕ) (u v : List ℕ)
    → m < 2 ^ 64
    → n < 2 ^ 64
    → be_bytes m ++ u ≡ be_bytes n ++ v
    → (m ≡ n) × (u ≡ v)
be_bytes-append m n u v hm hn e =
    let (same, rest) = append_apart (be_bytes m) (be_bytes n) u v (length-be_bytes m n) e in
    (sym (value_of-be_bytes m hm) ∙ ap (value_of 0) same ∙ value_of-be_bytes n hn, rest)

-- Its length fits 64 bits, as that of every text in memory does.
abbrev pub FitsWord : String → Type 0
FitsWord s = byte_length s < 2 ^ 64

frame-append :
    (s t : String) (u v : List ℕ)
    → FitsWord s
    → FitsWord t
    → frame s ++ u ≡ frame t ++ v
    → (bytes s ≡ bytes t) × (u ≡ v)
unfolding frame
frame-append s t u v hs ht e =
    let (same, rest) =
      be_bytes-append (byte_length s) (byte_length t) (bytes s ++ u) (bytes t ++ v) hs ht (
        sym (append_assoc (be_bytes (byte_length s)) (bytes s) u)
        ∙ e
        ∙ append_assoc (be_bytes (byte_length t)) (bytes t) v) in
    append_apart (bytes s) (bytes t) u v same rest

-- The fields of an action fit.
pub record Fits (p : ChallengePrepare) : Type 0 where
  pub workspace : FitsWord p.workspace
  pub operation : FitsWord p.operation
  pub claim_id : FitsWord p.claim_id
  pub canonical_draft_digest : FitsWord p.canonical_draft_digest
  pub superseded : FitsWord (join_nul (sort p.superseded_ids))
  pub prior_verification_digest : FitsWord p.prior_verification_digest
  pub revoke_reason : FitsWord p.revoke_reason

-- The texts are the same byte for byte.
abbrev pub SameBytes : String → String → Type 0
SameBytes s t = bytes s ≡ bytes t

append_nil : (xs : List ℕ) → xs ++ [] ≡ xs
append_nil [] = refl
append_nil (x ∷ xs) = ap (λ l. x ∷ l) (append_nil xs)

-- The bytes of an action on a single claim.
single-preimage :
    (p : ChallengePrepare)
    → is_empty p.items ≡ true
    → action_preimage p
      ≡ frame p.workspace
        ++ (frame p.operation
            ++ (frame p.claim_id
                ++ (frame p.canonical_draft_digest
                    ++ (frame (join_nul (sort p.superseded_ids))
                        ++ (frame p.prior_verification_digest ++ frame p.revoke_reason)))))
unfolding action_preimage
single-preimage p h = rw h refl

-- Two actions on single claims whose lengths fit 64 bits, and that are hashed as the same bytes, agree
-- in every field that they bind, byte for byte: workspace, operation, claim, draft digest, the joined
-- superseded ids, prior digest and reason.
pub action_preimage_binds :
    (p q : ChallengePrepare)
    → Fits p
    → Fits q
    → is_empty p.items ≡ true
    → is_empty q.items ≡ true
    → action_preimage p ≡ action_preimage q
    → SameBytes p.workspace q.workspace
      × SameBytes p.operation q.operation
      × SameBytes p.claim_id q.claim_id
      × SameBytes p.canonical_draft_digest q.canonical_draft_digest
      × SameBytes (join_nul (sort p.superseded_ids)) (join_nul (sort q.superseded_ids))
      × SameBytes p.prior_verification_digest q.prior_verification_digest
      × SameBytes p.revoke_reason q.revoke_reason
action_preimage_binds p q hp hq sp sq e =
    let (workspace, e₁) =
      frame-append p.workspace q.workspace _ _ hp.workspace hq.workspace
        (sym (single-preimage p sp) ∙ e ∙ single-preimage q sq) in
    let (operation, e₂) = frame-append p.operation q.operation _ _ hp.operation hq.operation e₁ in
    let (claim_id, e₃) = frame-append p.claim_id q.claim_id _ _ hp.claim_id hq.claim_id e₂ in
    let (draft, e₄) =
      frame-append p.canonical_draft_digest q.canonical_draft_digest _ _ hp.canonical_draft_digest
        hq.canonical_draft_digest e₃ in
    let (superseded, e₅) =
      frame-append (join_nul (sort p.superseded_ids)) (join_nul (sort q.superseded_ids)) _ _
        hp.superseded hq.superseded e₄ in
    let (prior, e₆) =
      frame-append p.prior_verification_digest q.prior_verification_digest _ _
        hp.prior_verification_digest hq.prior_verification_digest e₅ in
    let (reason, e₇) =
      frame-append p.revoke_reason q.revoke_reason [] [] hp.revoke_reason hq.revoke_reason
        (append_nil (frame p.revoke_reason) ∙ e₆ ∙ sym (append_nil (frame q.revoke_reason))) in
    (workspace, operation, claim_id, draft, superseded, prior, reason)
