-- ===== src/Ids/Generated.antt =====
-- claims.rs, approval.rs (crates/zbrain/src): identifiers and token hashes are made of random or
-- hashed bytes, printed as two lowercase hexadecimal digits each.
use Prim.Native.Char.{Char}
use zbrain.Prelude.{ℕ, String, ◌/◌, ◌%◌, List, [], ◌∷◌, if◌then◌else◌, eqb}

-- `format!("{:x}")` of a number below 16
unfoldable pub hex_digit : ℕ → Char
hex_digit n =
    if eqb n 0
    then "0"
    else if eqb n 1
    then "1"
    else if eqb n 2
    then "2"
    else if eqb n 3
    then "3"
    else if eqb n 4
    then "4"
    else if eqb n 5
    then "5"
    else if eqb n 6
    then "6"
    else if eqb n 7
    then "7"
    else if eqb n 8
    then "8"
    else if eqb n 9
    then "9"
    else if eqb n 10
    then "a"
    else if eqb n 11
    then "b"
    else if eqb n 12
    then "c"
    else if eqb n 13
    then "d"
    else if eqb n 14
    then "e"
    else "f"

-- `format!("{b:02x}")` of each byte
unfoldable pub hex_lower : List ℕ → String
unfolding hex_digit
hex_lower [] = ""
hex_lower (b ∷ bs) =
    String.◌∷◌ (hex_digit (b / 16)) (String.◌∷◌ (hex_digit (b % 16)) (hex_lower bs))

abbrev pub concat : String → String → String
concat String.[] t = t
concat (String.◌∷◌ c s) t = String.◌∷◌ c (concat s t)

-- `random` stands for the bytes that the operating system gives.
unfoldable pub new_claim_id : List ℕ → String
unfolding hex_lower
new_claim_id random = concat "clm_" (hex_lower random)

unfoldable pub new_evidence_id : List ℕ → String
unfolding hex_lower
new_evidence_id random = concat "evd_" (hex_lower random)

unfoldable pub new_challenge_id : List ℕ → String
unfolding hex_lower
new_challenge_id random = concat "chg_" (hex_lower random)

-- transition.rs
unfoldable pub new_pending_transition_id : List ℕ → String
unfolding hex_lower
new_pending_transition_id random = concat "txn_" (hex_lower random)

-- campaign.rs
unfoldable pub new_campaign_run_id : List ℕ → String
unfolding hex_lower
new_campaign_run_id random = concat "cmp_" (hex_lower random)

unfoldable pub sha256_text : List ℕ → String
unfolding hex_lower
sha256_text digest = concat "sha256:" (hex_lower digest)
