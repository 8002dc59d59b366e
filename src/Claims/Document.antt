-- ===== src/Claims/Document.antt =====
-- claims.rs (crates/zbrain/src): a claim's file, front matter between two markers and then the body.
use zbrain.Prelude.{
  ℕ, String, Bool, false, not, ◌&&◌, ◌||◌, Option, none, some, List, [], ◌∷◌, ◌==◌, Result, ok, err,
  ◌>>=◌, ◌>>◌, refuse_if, or_fail, eqb, if◌then◌else◌,
}
use zbrain.Ids.{is_claim_id}
use zbrain.Prelude.Text.{bytes, strip_suffix}
use zbrain.Paths.{split_slash}
use zbrain.Claims.{Claim, ClaimError, claim_schema_version, okf_claim_type}

-- What the YAML front matter gives: the probed schema and type, and the claim of either form.
pub record Frontmatter : Type 0 where
  pub probe : List ℕ → Result ClaimError (String × String)
  pub parse_legacy : List ℕ → String → String → List ℕ → Result ClaimError Claim
  pub parse_okf : List ℕ → String → String → List ℕ → Result ClaimError Claim

unfoldable pub strip_bytes : List ℕ → List ℕ → Option (List ℕ)
strip_bytes [] xs = some xs
strip_bytes (p ∷ ps) [] = none
strip_bytes (p ∷ ps) (x ∷ xs) = if eqb p x then strip_bytes ps xs else none

-- The bytes before the first marker, and those behind it.
unfoldable pub split_at_marker : List ℕ → List ℕ → Option (List ℕ × List ℕ)
split_at_marker marker [] = none
split_at_marker marker (x ∷ xs) =
    let later = split_at_marker marker xs in
    elim (strip_bytes marker (x ∷ xs)) [
      | some behind ↦ some ([], behind)
      | none ↦ elim later [ none ↦ none | some found ↦ some (x ∷ found.0, found.1) ]
    ]

unfoldable pub split_markdown_frontmatter : List ℕ → Result ClaimError (List ℕ × List ℕ)
split_markdown_frontmatter contents = do
  rest ← or_fail (strip_bytes (bytes "---\n") contents) ClaimError.frontmatter_required
  or_fail (split_at_marker (bytes "\n---\n") rest) ClaimError.closing_marker_required

abbrev pub first_piece : List String → String
first_piece [] = ""
first_piece (piece ∷ pieces) = piece

-- `rel.split('/').next().unwrap_or("")`
unfoldable pub tier_of_path : String → String
tier_of_path rel_path = first_piece (split_slash rel_path)

-- `rel_path.rsplit('/').next()`
abbrev pub last_piece : List String → String
last_piece [] = ""
last_piece (piece ∷ []) = piece
last_piece (piece ∷ next ∷ pieces) = last_piece (next ∷ pieces)

module _ (frontmatter : Frontmatter) where
  abbrev pub is_claim_probe : String × String → Bool
  is_claim_probe (schema, claim_type) =
      schema == claim_schema_version || claim_type == okf_claim_type

  unfoldable pub is_zbrain_claim_document : List ℕ → Bool
  is_zbrain_claim_document contents = elim (split_markdown_frontmatter contents) [
    | err e ↦ false
    | ok parts ↦ elim (frontmatter.probe parts.0) [
      | err e ↦ false
      | ok probe ↦ is_claim_probe probe
    ]
  ]

  unfoldable pub parse_by_probe :
      String × String → List ℕ → String → String → List ℕ → Result ClaimError Claim
  parse_by_probe (schema, claim_type) yaml tier rel_path body =
      if schema == claim_schema_version
      then frontmatter.parse_legacy yaml tier rel_path body
      else if claim_type == okf_claim_type
      then frontmatter.parse_okf yaml tier rel_path body
      else err ClaimError.document_type_invalid

  abbrev pub or_whole : Option String → String → String
  or_whole none whole = whole
  or_whole (some stem) whole = stem

  unfoldable pub validate_claim_path_id : String → String → Result ClaimError (Unit {0})
  validate_claim_path_id rel_path id =
      let last = last_piece (split_slash rel_path) in
      let base = or_whole (strip_suffix ".md" last) last in
      refuse_if (is_claim_id base && not (base == id)) (ClaimError.path_id_mismatch base)

  unfoldable pub parse_claim_markdown : String → String → List ℕ → Result ClaimError Claim
  parse_claim_markdown given_tier rel_path contents = do
    parts ← split_markdown_frontmatter contents
    let path_tier = tier_of_path rel_path
    let tier = if given_tier == "" then path_tier else given_tier
    refuse_if (not (path_tier == "") && not (path_tier == ".") && not (path_tier == tier))
        (ClaimError.path_tier_mismatch path_tier)
    probe ← frontmatter.probe parts.0
    claim ← parse_by_probe probe parts.0 tier rel_path parts.1
    validate_claim_path_id rel_path claim.id
    ok claim
