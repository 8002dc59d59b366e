-- ===== src/Claims/Scan.antt =====
-- claims.rs (crates/zbrain/src): the walk over the Markdown files of a wiki, and the scan of its claims.
use zbrain.Prelude.{
  ℕ, suc, String, Bool, true, false, not, ◌&&◌, Option, none, some, List, [], ◌∷◌, ◌++◌, ◌==◌,
  Result, ok, err, ◌>>=◌, ◌>>◌, ensure, is_empty, leb, if◌then◌else◌,
}
use zbrain.Prelude.Assoc.{Assoc, get, insert}
use zbrain.Prelude.Sort.{sort_by}
use zbrain.Prelude.Text.{has_suffix, strip_prefix, text_le}
use zbrain.Prelude.Effects.{Write}
use zbrain.Paths.{split_slash}
use zbrain.Ids.Generated.{concat}
use zbrain.Clock.{Chrono}
use zbrain.Claims.{Claim, ClaimError}
use zbrain.Claims.Digest.{Canon, verify_claim_digest}
use zbrain.Claims.Document.{
  Frontmatter, is_zbrain_claim_document, parse_claim_markdown, tier_of_path, last_piece,
}
use zbrain.Claims.Contradictions.{Unicode}
use zbrain.Coordination.{Control, begin_canonical_mutation_unlocked}
use zbrain.Coordination
use zbrain.Transition.Journal

-- What the store rests on: the text of a claim both ways, times, letters, and the generation's codec.
pub record Text : Type 1 where
  pub canon : Canon
  pub frontmatter : Frontmatter
  pub chrono : Chrono
  pub unicode : Unicode
  pub generations : Coordination.Crates
  pub journals : Journal.Crates

-- The answers of the file system to one operation. A path is relative to the workspace.
pub record Answers : Type 0 where
  pub is_workspace : Bool
  pub resolves : String → Bool
  pub is_readable : String → Bool
  pub has_wiki : Bool
  pub has_nested : Result ClaimError Bool
  pub directory_made : Bool
  pub write : String → Write
  pub mutation : Coordination.Call

-- The contents of the files by their paths.
abbrev pub Files : Type 0
Files = Assoc (List ℕ)

abbrev pub in_wiki : String → String
in_wiki rel = concat "wiki/" rel

-- `child.extension() == "md"`
abbrev pub is_markdown : String → Bool
is_markdown rel =
    let name = last_piece (split_slash rel) in has_suffix ".md" name && not (name == ".md")

abbrev pub with_file : Option String → List ℕ → Files → Files
with_file none contents files = files
with_file (some rel) contents files = if is_markdown rel then (rel, contents) ∷ files else files

-- The Markdown files below `wiki`, by their paths in it.
unfoldable pub markdown_files : Files → Files
markdown_files [] = []
markdown_files ((path, contents) ∷ files) =
    with_file (strip_prefix "wiki/" path) contents (markdown_files files)

-- The order of paths, piece by piece.
unfoldable pub pieces_le : List String → List String → Bool
pieces_le [] right = true
pieces_le (l ∷ left) [] = false
pieces_le (l ∷ left) (r ∷ right) = if l == r then pieces_le left right else text_le l r

unfoldable pub insert_file : String × List ℕ → Files → Files
insert_file file [] = file ∷ []
insert_file file (next ∷ files) =
    let rest = insert_file file files in
    if pieces_le (split_slash file.0) (split_slash next.0) then file ∷ next ∷ files else next ∷ rest

unfoldable pub sort_files : Files → Files
sort_files [] = []
sort_files (file ∷ rest) = insert_file file (sort_files rest)

-- `walk_markdown_files`, children in order and directories when they are reached
unfoldable pub walk_markdown_files : Files → Files
walk_markdown_files files = sort_files (markdown_files files)

abbrev pub wiki_tiers : List String
wiki_tiers = "axioms" ∷ "mental-models" ∷ "projects" ∷ "decisions" ∷ []

pub record ClaimScan : Type 0 where
  pub claims : List Claim
  pub legacy_unindexed : List String
  pub invalid : Assoc (List ClaimError)

-- The lists and the map that a scan fills.
pub record Scanned : Type 0 where
  pub parsed : List (Claim × String)
  pub legacy : List String
  pub invalid_by_path : Assoc (List ClaimError)

abbrev pub with_reason : ClaimError → Option (List ClaimError) → List ClaimError
with_reason e none = e ∷ []
with_reason e (some es) = es ++ e ∷ []

-- `invalid_by_path.entry(path).or_default().push(error)`
unfoldable pub push_invalid :
    String → ClaimError → Assoc (List ClaimError) → Assoc (List ClaimError)
push_invalid path e invalid = insert path (with_reason e (get invalid path)) invalid

abbrev pub count_id : String → List (Claim × String) → ℕ
count_id id [] = 0
count_id id ((claim, path) ∷ parsed) =
    if claim.id == id then suc (count_id id parsed) else count_id id parsed

-- The loop over the duplicated ids.
unfoldable pub push_duplicates :
    List (Claim × String)
    → List (Claim × String)
    → Assoc (List ClaimError)
    → Assoc (List ClaimError)
push_duplicates all_parsed [] invalid = invalid
push_duplicates all_parsed ((claim, path) ∷ parsed) invalid =
    let others = push_duplicates all_parsed parsed invalid in
    if leb 2 (count_id claim.id all_parsed)
    then push_invalid path (ClaimError.duplicate_canonical_id claim.id) others
    else others

abbrev pub has_reason : Option (List ClaimError) → Bool
has_reason none = false
has_reason (some reasons) = not (is_empty reasons)

abbrev pub is_flagged : Assoc (List ClaimError) → String → Bool
is_flagged invalid path = has_reason (get invalid path)

abbrev pub unflagged : Assoc (List ClaimError) → List (Claim × String) → List Claim
unflagged invalid [] = []
unflagged invalid ((claim, path) ∷ parsed) =
    let others = unflagged invalid parsed in
    if is_flagged invalid path then others else claim ∷ others

module _ (text : Text) where
  -- One file of a scan.
  unfoldable pub scan_parsed : Bool → String → Result ClaimError Claim → Scanned → Scanned
  scan_parsed verify_digests rel (err e) scanned = record scanned {
    invalid_by_path = push_invalid rel e scanned.invalid_by_path;
  }
  scan_parsed verify_digests rel (ok claim) scanned =
      let kept = record scanned { parsed = scanned.parsed ++ (claim, rel) ∷ [] } in
      elim (verify_claim_digest text.canon claim) [
        | ok u ↦ kept
        | err e ↦
            if verify_digests
            then record kept { invalid_by_path = push_invalid rel e scanned.invalid_by_path }
            else kept
      ]

  unfoldable pub scan_files : Answers → Bool → Files → Scanned → Result ClaimError Scanned
  scan_files answers verify_digests [] scanned = ok scanned
  scan_files answers verify_digests ((rel, contents) ∷ files) scanned = do
    ensure (answers.resolves (in_wiki rel)) ClaimError.boundary_refused
    ensure (answers.is_readable (in_wiki rel)) ClaimError.io_failed
    scan_files answers verify_digests files (
        if is_zbrain_claim_document text.frontmatter contents
        then scan_parsed verify_digests rel
            (parse_claim_markdown text.frontmatter (tier_of_path rel) rel contents) scanned
        else record scanned { legacy = scanned.legacy ++ rel ∷ [] })

  -- What becomes of the files scanned; the paths that a scan reports are sorted.
  unfoldable pub end_scan : Scanned → ClaimScan
  end_scan scanned =
      let invalid = push_duplicates scanned.parsed scanned.parsed scanned.invalid_by_path in
      record {
        claims = unflagged invalid (sort_by (λ (p : Claim × String). p.1) scanned.parsed);
        legacy_unindexed = sort_by (λ path. path) scanned.legacy;
        invalid = sort_by (λ (p : String × List ClaimError). p.0) invalid;
      }

  unfoldable pub scan_workspace_inner : Answers → Bool → Files → Result ClaimError ClaimScan
  scan_workspace_inner answers verify_digests files = do
    ensure answers.is_workspace ClaimError.boundary_refused
    ensure (answers.resolves "wiki") ClaimError.boundary_refused
    ensure answers.has_wiki ClaimError.not_found
    scanned ←
        scan_files answers verify_digests (walk_markdown_files files)
          (record { parsed = []; legacy = []; invalid_by_path = [] })
    ok (end_scan scanned)
