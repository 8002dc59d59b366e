-- ===== src/Claims/Store.antt =====
-- claims.rs (crates/zbrain/src): reading the claims of a workspace by their ids, and writing drafts.
use zbrain.Prelude.{
  ℕ, String, Bool, true, ◌&&◌, ◌||◌, Option, none, some, List, [], ◌∷◌, ◌==◌, Result, ok, err,
  ◌>>=◌, ◌>>◌, ensure, refuse_if, or_fail, is_empty, is_ok, leb, length, if◌then◌else◌,
}
use zbrain.Prelude.Assoc.{get, insert}
use zbrain.Prelude.Sort.{sort_by}
use zbrain.Prelude.Text.{has_suffix, trim}
use zbrain.Prelude.Effects.{Write, Outcome, after_checks, after_step}
use zbrain.Paths.{split_slash, safe_relative_path}
use zbrain.Ids.{is_claim_id}
use zbrain.Ids.Generated.{concat}
use zbrain.Claims.{Claim, ClaimError, not_found, okf_claim_type, is_known_wiki_tier, claim_rel_path}
use zbrain.Claims.Validate.{validate_claim}
use zbrain.Claims.Document.{is_zbrain_claim_document, parse_claim_markdown, tier_of_path}
use zbrain.Claims.Contradictions.{detect_contradictions}
use zbrain.Transition.Mutation.{World, begin_mutation}
use zbrain.Claims.Scan.{
  Text, Answers, Files, in_wiki, walk_markdown_files, wiki_tiers, scan_workspace_inner,
}

module _ (text : Text) where
  -- The file of one tier, and the claims of the tiers after it.
  unfoldable pub read_flat_file :
      Answers
      → String
      → String
      → Option (List ℕ)
      → Result ClaimError (List Claim)
      → Result ClaimError (List Claim)
  read_flat_file answers tier rel none rest = rest
  read_flat_file answers tier rel (some contents) rest = do
    ensure (answers.is_readable (in_wiki rel)) ClaimError.io_failed
    claim ← parse_claim_markdown text.frontmatter tier rel contents
    claims ← rest
    ok (claim ∷ claims)

  -- The loop over the tiers.
  unfoldable pub read_flat_files :
      Answers → Files → String → List String → Result ClaimError (List Claim)
  unfolding read_flat_file
  read_flat_files answers files id [] = ok []
  read_flat_files answers files id (tier ∷ tiers) = do
    let rel = concat tier (concat "/" (concat id ".md"))
    ensure (answers.resolves (in_wiki rel)) ClaimError.boundary_refused
    read_flat_file answers tier rel (get files (in_wiki rel))
        (read_flat_files answers files id tiers)

  -- The walk, where a wiki has directories below its tiers.
  unfoldable pub read_walked_files : Answers → String → Files → Result ClaimError (List Claim)
  read_walked_files answers id [] = ok []
  read_walked_files answers id ((rel, contents) ∷ files) = do
    ensure (answers.resolves (in_wiki rel)) ClaimError.boundary_refused
    ensure (answers.is_readable (in_wiki rel)) ClaimError.io_failed
    let rest = read_walked_files answers id files
    if is_zbrain_claim_document text.frontmatter contents
        then (do
          claim ← parse_claim_markdown text.frontmatter (tier_of_path rel) rel contents
          claims ← rest
          ok (if claim.id == id then claim ∷ claims else claims))
        else rest

  unfoldable pub read_canonical_claims_by_id :
      Answers → Files → String → Result ClaimError (List Claim)
  read_canonical_claims_by_id answers files id = do
    ensure (is_claim_id id) ClaimError.claim_id_invalid
    ensure answers.is_workspace ClaimError.boundary_refused
    ensure (answers.resolves "wiki") ClaimError.boundary_refused
    flat ← read_flat_files answers files id wiki_tiers
    nested ← answers.has_nested
    matches ← (if nested then read_walked_files answers id (walk_markdown_files files) else ok flat)
    ok (sort_by (λ (claim : Claim). claim.path) matches)

  unfoldable pub only_match : String → List Claim → Result ClaimError Claim
  only_match id [] = err ClaimError.not_found
  only_match id (claim ∷ []) = ok claim
  only_match id (claim ∷ other ∷ claims) = err (ClaimError.duplicate_canonical_id id)

  unfoldable pub read : Answers → Files → String → Result ClaimError Claim
  read answers files id = do
    matches ← read_canonical_claims_by_id answers files id
    only_match id matches

  unfoldable pub read_claim_path : Answers → Files → String → Result ClaimError Claim
  read_claim_path answers files relative = do
    ensure (is_ok (safe_relative_path relative)) ClaimError.boundary_refused
    ensure
        (leb 2 (length (split_slash relative))
          && is_known_wiki_tier (tier_of_path relative)
          && has_suffix ".md" relative)
        (ClaimError.path_unsafe relative)
    ensure (answers.resolves (in_wiki relative)) ClaimError.boundary_refused
    contents ← or_fail (get files (in_wiki relative)) ClaimError.not_found
    ensure (answers.is_readable (in_wiki relative)) ClaimError.io_failed
    parse_claim_markdown text.frontmatter (tier_of_path relative) relative contents

  -- Every match stands at the path of the claim that is asked for.
  abbrev pub at_path : String → List Claim → Bool
  at_path path [] = true
  at_path path (claim ∷ claims) = claim.path == path

  -- The match on `read_claim_path`, where a path was asked for.
  unfoldable pub existing_at :
      String → String → List Claim → Result ClaimError Claim → Result ClaimError (Option Claim)
  existing_at id requested_path matches (ok existing) = do
    ensure (at_path existing.path matches) (ClaimError.would_duplicate_identity id requested_path)
    ok (some existing)
  existing_at id requested_path matches (err not_found) = do
    ensure (is_empty matches) (ClaimError.would_duplicate_identity id requested_path)
    ok none
  existing_at id requested_path matches (err e) = err e

  abbrev pub first_match : List Claim → Option Claim
  first_match [] = none
  first_match (claim ∷ claims) = some claim

  unfoldable pub existing_draft :
      Answers → Files → String → String → List Claim → Result ClaimError (Option Claim)
  existing_draft answers files id requested_path matches =
      if requested_path == ""
      then ok (first_match matches)
      else existing_at id requested_path matches (read_claim_path answers files requested_path)

  -- What a draft is made of, whatever the caller has set.
  unfoldable pub as_draft : Claim → Claim
  as_draft claim = record claim {
    schema = "";
    claim_type = okf_claim_type;
    status = "draft";
    path = "";
    tier = trim claim.tier;
    verified_at = "";
    verified_by = "";
    verified_digest = "";
    sources = [];
  }

  unfoldable pub approved_claims : List Claim → List Claim
  approved_claims [] = []
  approved_claims (claim ∷ claims) =
      let others = approved_claims claims in
      if claim.status == "approved" then claim ∷ others else others

  unfoldable pub approved_claims_for_contradictions :
      Answers → Files → Result ClaimError (List Claim)
  approved_claims_for_contradictions answers files = do
    ensure (answers.resolves "wiki") ClaimError.boundary_refused
    if answers.has_wiki
        then (do
          scan ← scan_workspace_inner text answers true files
          ok (approved_claims scan.claims))
        else ok []

  -- `claim_file_path`, as a path in the workspace
  unfoldable pub claim_file_path : Answers → Claim → Result ClaimError String
  claim_file_path answers claim = do
    ensure (claim.path == "" || has_suffix ".md" claim.path) (ClaimError.path_unsafe claim.path)
    ensure (answers.resolves (in_wiki (claim_rel_path claim))) ClaimError.boundary_refused
    ok (in_wiki (claim_rel_path claim))

  -- Where the draft goes, in place of an existing one if that is a draft too.
  unfoldable pub placed_draft : Answers → Claim → Option Claim → Result ClaimError (Claim × String)
  placed_draft answers claim none = do path ← claim_file_path answers claim; ok (claim, path)
  placed_draft answers claim (some existing) = do
    ensure (existing.status == "draft") (ClaimError.not_a_draft claim.id existing.status)
    path ← claim_file_path answers (record claim { path = existing.path })
    ok (record claim { path = existing.path }, path)

  -- What a draft is checked for before anything is written.
  unfoldable pub draft_checks : Answers → Files → Claim → Result ClaimError (Claim × String)
  draft_checks answers files given = do
    validate_claim text.chrono (as_draft given)
    approved ← approved_claims_for_contradictions answers files
    let claim = record (as_draft given) {
      contradicts = detect_contradictions text.unicode (as_draft given) approved;
    }
    first_path ← claim_file_path answers claim
    matches ← read_canonical_claims_by_id answers files claim.id
    refuse_if (leb 2 (length matches)) (ClaimError.duplicate_canonical_id claim.id)
    existing ← existing_draft answers files claim.id given.path matches
    placed_draft answers claim existing

  abbrev pub Workspace : Type 0
  Workspace = World text.journals text.generations

  unfoldable pub publish_claim :
      Write → String → List ℕ → Workspace → Outcome Workspace ClaimError (Unit {0})
  publish_claim Write.published path contents w =
      (record w { files = insert path contents w.files }, ok tt)
  publish_claim Write.unpublished path contents w = (w, err ClaimError.write_failed)
  publish_claim Write.published_then_failed path contents w =
      (record w { files = insert path contents w.files }, err ClaimError.write_failed)

  unfoldable pub rendered : Answers → Claim → Result ClaimError (List ℕ)
  rendered answers claim = do
    contents ← text.canon.render_claim_markdown claim
    ensure answers.directory_made ClaimError.io_failed
    ok contents

  unfoldable pub write_claim_atomic :
      Answers → String → Claim → Workspace → Outcome Workspace ClaimError (Unit {0})
  write_claim_atomic answers path claim w =
      after_checks w (rendered answers claim)
        (λ contents. publish_claim (answers.write path) path contents w)

  unfoldable pub write_draft_unlocked :
      String → Answers → Claim → Workspace → Outcome Workspace ClaimError Claim
  write_draft_unlocked workspace answers given w =
      after_checks w (draft_checks answers w.files given) (λ placed.
        after_step
          (begin_mutation text.journals text.generations workspace ClaimError.mutation_refused
            answers.mutation w)
          (λ begun done.
            after_step (write_claim_atomic answers placed.1 placed.0 begun) (λ written done_too.
              (written, ok (record placed.0 { path = claim_rel_path placed.0 })))))
