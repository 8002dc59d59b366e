-- ===== src/Ids/Laws.antt =====
-- claims.rs, approval.rs, transition.rs (crates/zbrain/src): the checks of identifiers on the identifiers that
-- the program makes, and on one another.
use Prim.Native.Char.{Char, code}
use zbrain.Prelude.{
  ℕ, Bool, if◌then◌else◌, ◌*◌, ◌/◌, ◌%◌, String, ◌≡◌, refl, true, false, ◌&&◌, List, [], ◌∷◌, some,
  arith, length, all, eqb, false,
}
use zbrain.Prelude.Text.{bytes, byte_length, utf8, strip_prefix}
use zbrain.Ids.{
  is_lower_hex, has_prefix_and_hex, is_claim_id, is_evidence_id, is_challenge_id,
  is_challenge_token_hash, is_transition_sha256,
}
use zbrain.Ids.Generated.{
  hex_digit, hex_lower, concat, new_claim_id, new_evidence_id, new_challenge_id, sha256_text,
}

either : (P : Char → Type 0) (b : Bool) {x y : Char} → P x → P y → P (if b then x else y)
either P true px py = px
either P false px py = py

-- A digit is one byte, and it is a lowercase hexadecimal digit.
abbrev IsHexDigit : Char → Type 0
IsHexDigit c = (utf8 (code c) ≡ code c ∷ []) × (is_lower_hex (code c) ≡ true)

hex_digit-IsHexDigit : (n : ℕ) → IsHexDigit (hex_digit n)
unfolding hex_digit is_lower_hex
hex_digit-IsHexDigit n =
    either IsHexDigit (eqb n 0) (refl, refl)
      (either IsHexDigit (eqb n 1) (refl, refl)
        (either IsHexDigit (eqb n 2) (refl, refl)
          (either IsHexDigit (eqb n 3) (refl, refl)
            (either IsHexDigit (eqb n 4) (refl, refl)
              (either IsHexDigit (eqb n 5) (refl, refl)
                (either IsHexDigit (eqb n 6) (refl, refl)
                  (either IsHexDigit (eqb n 7) (refl, refl)
                    (either IsHexDigit (eqb n 8) (refl, refl)
                      (either IsHexDigit (eqb n 9) (refl, refl)
                        (either IsHexDigit (eqb n 10) (refl, refl)
                          (either IsHexDigit (eqb n 11) (refl, refl)
                            (either IsHexDigit (eqb n 12) (refl, refl)
                              (either IsHexDigit (eqb n 13) (refl, refl)
                                (either IsHexDigit (eqb n 14) (refl, refl)
                                  ((refl, refl))))))))))))))))

pub utf8-hex_digit : (n : ℕ) → utf8 (code (hex_digit n)) ≡ code (hex_digit n) ∷ []
utf8-hex_digit n = (hex_digit-IsHexDigit n).0

pub is_lower_hex-hex_digit : (n : ℕ) → is_lower_hex (code (hex_digit n)) ≡ true
is_lower_hex-hex_digit n = (hex_digit-IsHexDigit n).1

byte_length-hex_lower : (bs : List ℕ) → byte_length (hex_lower bs) ≡ 2 * length bs
unfolding hex_lower
byte_length-hex_lower [] = refl
byte_length-hex_lower (b ∷ bs) =
    rw (utf8-hex_digit (b / 16), utf8-hex_digit (b % 16)) (omega (arith, byte_length-hex_lower bs))

all-hex_lower : (bs : List ℕ) → all is_lower_hex (bytes (hex_lower bs)) ≡ true
unfolding hex_lower
all-hex_lower [] = refl
all-hex_lower (b ∷ bs) =
    rw (utf8-hex_digit (b / 16), utf8-hex_digit (b % 16))
      (rw (is_lower_hex-hex_digit (b / 16), is_lower_hex-hex_digit (b % 16)) (all-hex_lower bs))

strip_prefix-concat : (p s : String) → strip_prefix p (concat p s) ≡ some s
unfolding strip_prefix
strip_prefix-concat String.[] s = refl
strip_prefix-concat (String.◌∷◌ c p) s = ground (arith, strip_prefix-concat p s)

has_prefix_and_hex-hex_lower :
    (p : String) (n : ℕ) (bs : List ℕ)
    → 2 * length bs ≡ n
    → has_prefix_and_hex p n (concat p (hex_lower bs)) ≡ true
unfolding has_prefix_and_hex
has_prefix_and_hex-hex_lower p n bs h =
    rw (strip_prefix-concat p (hex_lower bs), has_prefix_and_hex)
      (ground (arith, byte_length-hex_lower bs, all-hex_lower bs))

-- Sixteen bytes make a claim id, whatever they are.
pub is_claim_id-new_claim_id :
    (random : List ℕ) → length random ≡ 16 → is_claim_id (new_claim_id random) ≡ true
unfolding is_claim_id new_claim_id
is_claim_id-new_claim_id random h = has_prefix_and_hex-hex_lower "clm_" 32 random (omega arith)

pub is_challenge_id-new_challenge_id :
    (random : List ℕ) → length random ≡ 16 → is_challenge_id (new_challenge_id random) ≡ true
unfolding is_challenge_id new_challenge_id
is_challenge_id-new_challenge_id random h =
    has_prefix_and_hex-hex_lower "chg_" 32 random (omega arith)

pub is_evidence_id-new_evidence_id :
    (random : List ℕ) → length random ≡ 16 → is_evidence_id (new_evidence_id random) ≡ true
unfolding is_evidence_id new_evidence_id
is_evidence_id-new_evidence_id random h =
    has_prefix_and_hex-hex_lower "evd_" 32 random (omega arith)

pub is_challenge_token_hash-sha256_text :
    (digest : List ℕ) → length digest ≡ 32 → is_challenge_token_hash (sha256_text digest) ≡ true
unfolding is_challenge_token_hash sha256_text
is_challenge_token_hash-sha256_text digest h =
    has_prefix_and_hex-hex_lower "sha256:" 64 digest (omega arith)

pub is_transition_sha256-sha256_text :
    (digest : List ℕ) → length digest ≡ 32 → is_transition_sha256 (sha256_text digest) ≡ true
unfolding is_transition_sha256 sha256_text
is_transition_sha256-sha256_text digest h =
    has_prefix_and_hex-hex_lower "sha256:" 64 digest (omega arith)

-- A claim id is neither an evidence id nor a digest, and an evidence id is
-- not a challenge id.
pub id_kinds_exclusive :
    (value : String)
    → ((is_claim_id value && is_evidence_id value) ≡ false)
      × ((is_evidence_id value && is_challenge_id value) ≡ false)
      × ((is_claim_id value && is_transition_sha256 value) ≡ false)
unfolding is_claim_id is_evidence_id is_challenge_id is_transition_sha256
id_kinds_exclusive String.[] = (refl, refl, refl)
id_kinds_exclusive (String.◌∷◌ c s) = (ground arith, ground arith, ground arith)

-- Sixteen random bytes make a claim id, an evidence id and a challenge id that their checks accept.
pub generated_ids_accepted :
    (random : List ℕ)
    → length random ≡ 16
    → (is_claim_id (new_claim_id random) ≡ true)
      × (is_evidence_id (new_evidence_id random) ≡ true)
      × (is_challenge_id (new_challenge_id random) ≡ true)
generated_ids_accepted random h = (
  is_claim_id-new_claim_id random h,
  is_evidence_id-new_evidence_id random h,
  is_challenge_id-new_challenge_id random h,
)

-- The text of a hash of 32 bytes is accepted as the hash of a token and as a digest of a transition.
pub hash_texts_accepted :
    (digest : List ℕ)
    → length digest ≡ 32
    → (is_challenge_token_hash (sha256_text digest) ≡ true)
      × (is_transition_sha256 (sha256_text digest) ≡ true)
hash_texts_accepted digest h =
    (is_challenge_token_hash-sha256_text digest h, is_transition_sha256-sha256_text digest h)
