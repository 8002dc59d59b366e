-- ===== src/Examples/Wiki.antt =====
-- A wiki of three claims: an approved one, one that supports, and a draft that replaces the first.
use zbrain.Prelude.Text.{
  strip_prefix, is_whitespace, trim_start, trim_end, trim, has_suffix, strip_suffix,
}
use zbrain.Prelude.Assoc.{get, insert, remove}
use zbrain.Prelude.Sort.{insert_by, sort_by, sort}
use zbrain.Paths.{
  component_eq, path_eq, split_slash, later_components, first_components, components, pop,
  normalize_from, normalize, absolute_under, strip_root, path_within, file_name,
  is_safe_workspace_name, safe_relative_path,
}
use zbrain.Ids.{
  is_lower_hex, has_id_prefix, is_claim_id, is_evidence_id, is_challenge_id, is_transition_sha256,
  is_challenge_token_hash, is_sha256_digest, is_legacy_evidence_digest, is_campaign_run_id,
}
use zbrain.Ids.Generated.{
  hex_digit, hex_lower, new_claim_id, new_evidence_id, new_challenge_id, new_pending_transition_id,
  new_campaign_run_id, sha256_text,
}
use zbrain.Claims.{
  is_known_wiki_tier, is_known_claim_status, is_known_claim_basis, is_known_heuristic,
  is_known_transition_kind, claim_rel_path,
}
use zbrain.Claims.Validate.{
  validate_span, validate_source, validate_contradiction, validate_claim_transition_authorization,
  validate_related, validate_claim_transition, validate_transitions_from,
  validate_claim_transitions, validate_verification, validate_claim_head, validate_claim_references,
  validate_claim, validate_claim_approval,
}
use zbrain.Claims.Digest.{claim_canonical_digest, claim_verification_digest, verify_claim_digest}
use zbrain.Claims.Document.{
  strip_bytes, split_at_marker, split_markdown_frontmatter, tier_of_path, is_zbrain_claim_document,
  parse_by_probe, validate_claim_path_id, parse_claim_markdown,
}
use zbrain.Claims.Scan.{
  markdown_files, pieces_le, insert_file, sort_files, walk_markdown_files, push_invalid,
  push_duplicates, scan_parsed, scan_files, end_scan, scan_workspace_inner,
}
use zbrain.Claims.Store.{
  read_flat_file, read_flat_files, read_walked_files, read_canonical_claims_by_id, only_match, read,
  read_claim_path, existing_at, existing_draft, as_draft, approved_claims,
  approved_claims_for_contradictions, claim_file_path, placed_draft, draft_checks, publish_claim,
  rendered, write_claim_atomic, write_draft_unlocked,
}
use zbrain.Claims.Contradictions.{
  negator, predicate, status_word, auxiliary, equal_token_slices, ends_with_s, ends_with_ss,
  without_last, stem_contradiction_token, normalize_contradiction_core, split_tokens, swaps_value,
  statuses_differ, changes_status, with_found, split_words, contradiction_tokens,
  detect_negation_flip, split_contradiction_clause, detect_value_swap, detect_status_change,
  classify_contradiction, heuristics_of, report, detect_from, detect_contradictions,
}
use zbrain.Trust.{
  add_claims, new, visit_count, mark_invalid, combine_trust_path, cycle_start, mark_cycle, cycle,
}
use zbrain.Trust.Visit.{
  refuse, refuse_support, inherited, inherit_failure, after_support, visit_supports, resolve_loaded,
  resolve_by, resolve, begin_visit, after_check, known_failure, check_support, visit_claim,
  after_resolve, by_state, visit,
}
use zbrain.Trust.Root.{
  after_root, root_supports, validate_root_supports, validate_claim_with_support,
}
use zbrain.Lifecycle.{
  normalized, loaded_as, support_verdict, claim_sources, validate_approval_references,
  superseded_claims, approval_transition, approved_unsigned, superseded, supersession_targets,
  pending_supersession, approval_checks, signed, planned_supersession, prepare_approve_unlocked,
  revoked, prepare_revoke_unlocked, canonical_digest_unlocked, migrate_legacy_claim,
}
use zbrain.Coordination.{
  present, u64_of, generation_of, read_generation_file, read_workspace_generation,
  write_generation_file, or_default, ensured, ensure_workspace_generation, write_dirty,
  mark_dirty_unlocked, mutation_checks, advanced, begin_canonical_mutation_unlocked,
}
use zbrain.Transition.{
  path_text, check_order, transition_sha256, check_target, check_targets,
  validate_pending_transition_inner, normalize_pending_transition,
}
use zbrain.Transition.Journal.{
  read_journal, read_pending_transition, check_pending, check_pending_transition, publish_journal,
  after_checks, write_checks, write_pending_transition, target_state, target_states, write_target,
  after_write, apply_targets, verify_targets, remove_journal, finish_recovery, apply_pending,
  unless_not_found, recover_read, recover_pending_transition,
}
use zbrain.Transition.Mutation.{
  on_disk, begin_mutation, recover_found, recover_pending_transition_for_mutation,
}
use zbrain.Lifecycle.Commit.{
  append_unique_claim_id, by_journal, recover_first, write_existing, begin_write, commit_pending,
  commit_by, commit_approve_unlocked, commit_revoke_unlocked, approve_with_options,
  revoke_with_options, superseding_checks, write_superseding_draft, plan_migration, write_migrated,
  migration, migrate_okf,
}
use zbrain.Prelude.Effects.{Write}
use zbrain.Prelude.{
  ap, sym, ◌↔◌, ℕ, ◌*◌, String, true, false, ◌≡◌, refl, none, some, List, [], ◌∷◌, ok, err, Option,
  Result, if◌then◌else◌, eqb,
}
use zbrain.Prelude.Text.{bytes}
use zbrain.Ids.Generated.{concat}
use zbrain.Clock.{second}
use zbrain.Claims.{Claim, ClaimError, empty_claim}
use zbrain.Claims.Document.{Frontmatter}
use zbrain.Claims.Scan.{Text, Answers, Files}
use zbrain.Claims.Store.{Workspace}
use zbrain.Lifecycle.{ClaimMutationOptions, ClaimMutationPlan, Evidence, Meets}
use zbrain.Trust.Exact.{IsStored}
use zbrain.Trust.Validated.{SupportsTrusted}
use zbrain.Lifecycle.References.{references_exact}
use zbrain.Lifecycle.Approved.{find_claim, IsApproval, prepare_approve-IsApproval}
use zbrain.Lifecycle.Changed.{
  IsRevocation, prepare_revoke-IsRevocation, IsMigration, migrate_legacy_claim-IsMigration,
}
use zbrain.Lifecycle.Commit.{Encounter}
use zbrain.Lifecycle.Committed.{IsCommitted, commit-IsCommitted}
use zbrain.Claims.Drafted.{IsWritten, write_draft-IsWritten}
use zbrain.Claims.Scan.{ClaimScan}
use zbrain.Claims.Scanned.{IsTrustworthy, scan-IsTrustworthy}
use zbrain.Transition.{PendingTransition}
use zbrain.Transition.Written.{paths_differ, sorted_targets}
use zbrain.Examples.Worlds.{clock, canon, random_bytes}
use zbrain.Examples.Contradictions.{unicode}
use zbrain.Examples.Coordination as Generations
use zbrain.Examples.Transition as Journals

abbrev pub digest : String
digest = "sha256:0000000000000000000000000000000000000000000000000000000000000000"

abbrev pub first_id : String
first_id = "clm_00000000000000000000000000000001"

abbrev support_id : String
support_id = "clm_00000000000000000000000000000002"

abbrev pub draft_id : String
draft_id = "clm_00000000000000000000000000000003"

abbrev owned : String → String → Claim
owned id path = record empty_claim {
  claim_type = "zbrain.claim";
  id = id;
  tier = "decisions";
  path = path;
  status = "approved";
  title = "Title";
  basis = "owner";
  created_at = "IT";
  created_by = "owner";
  verified_at = "IT";
  verified_by = "owner";
  verified_digest = digest;
  body = "Body";
}

-- Front matter of one letter: the first claim, the support or the draft.
abbrev claim_of : List ℕ → String → Result ClaimError Claim
claim_of [] path = err ClaimError.frontmatter_invalid
claim_of (letter ∷ more) path =
    if eqb letter b'F'
    then ok (owned first_id path)
    else if eqb letter b'S'
    then ok (owned support_id path)
    else ok (record (owned draft_id path) {
      status = "draft";
      basis = "derived";
      verified_at = "";
      verified_by = "";
      verified_digest = "";
      supporting_claim_ids = support_id ∷ [];
      supersedes = first_id ∷ [];
    })

abbrev frontmatter : Frontmatter
frontmatter = record {
  probe = λ yaml. ok ("", "zbrain.claim");
  parse_legacy = λ yaml tier path body. err ClaimError.frontmatter_invalid;
  parse_okf = λ yaml tier path body. claim_of yaml path;
}

abbrev pub text : Text
text = record {
  canon = canon;
  frontmatter = frontmatter;
  chrono = clock;
  unicode = unicode;
  generations = Generations.crates;
  journals = Journals.crates;
}

abbrev file_of : String → String → String × List ℕ
file_of id letter = (
  concat "wiki/decisions/" (concat id ".md"),
  bytes (concat "---\n" (concat letter "\n---\nBody")),
)

abbrev files : Files
files = file_of first_id "F" ∷ file_of support_id "S" ∷ file_of draft_id "D" ∷ []

abbrev answers : Answers
answers = record {
  is_workspace = true;
  resolves = λ path. true;
  is_readable = λ path. true;
  has_wiki = true;
  has_nested = ok false;
  directory_made = true;
  write = λ path. Write.published;
  mutation = Generations.call;
}

abbrev pub evidence : Evidence
evidence = record {
  validate_claim_evidence = λ claim. ok tt;
  claim_source = λ id. err ClaimError.io_failed;
}

abbrev meets : Meets
meets = record { now = 7 * second; random = some random_bytes; answers = answers }

abbrev pub options : ClaimMutationOptions
options = record { verified_by = " owner:cli "; authorization = none }

abbrev planned : Result ClaimError ClaimMutationPlan → ClaimMutationPlan
planned (ok plan) = plan
planned (err e) = record { claim = empty_claim; pending = none }

abbrev plan : ClaimMutationPlan
plan = planned (prepare_approve_unlocked text "notes" evidence meets files draft_id options)

unfoldable pub program : Unit {0}
unfolding strip_prefix is_whitespace trim_start trim_end trim has_suffix strip_suffix get insert
    remove insert_by sort_by sort component_eq path_eq split_slash later_components first_components
    components pop normalize_from normalize absolute_under strip_root path_within file_name
    is_safe_workspace_name safe_relative_path is_lower_hex has_id_prefix is_claim_id is_evidence_id
    is_challenge_id is_transition_sha256 is_challenge_token_hash is_sha256_digest
    is_legacy_evidence_digest is_campaign_run_id hex_digit hex_lower new_claim_id new_evidence_id
    new_challenge_id new_pending_transition_id new_campaign_run_id sha256_text is_known_wiki_tier
    is_known_claim_status is_known_claim_basis is_known_heuristic is_known_transition_kind
    claim_rel_path validate_span validate_source validate_contradiction
    validate_claim_transition_authorization validate_related validate_claim_transition
    validate_transitions_from validate_claim_transitions validate_verification validate_claim_head
    validate_claim_references validate_claim validate_claim_approval claim_canonical_digest
    claim_verification_digest verify_claim_digest strip_bytes split_at_marker
    split_markdown_frontmatter tier_of_path is_zbrain_claim_document parse_by_probe
    validate_claim_path_id parse_claim_markdown markdown_files pieces_le insert_file sort_files
    walk_markdown_files push_invalid push_duplicates scan_parsed scan_files end_scan
    scan_workspace_inner read_flat_file read_flat_files read_walked_files
    read_canonical_claims_by_id only_match read read_claim_path existing_at existing_draft as_draft
    approved_claims approved_claims_for_contradictions claim_file_path placed_draft draft_checks
    publish_claim rendered write_claim_atomic write_draft_unlocked negator predicate status_word
    auxiliary equal_token_slices ends_with_s ends_with_ss without_last stem_contradiction_token
    normalize_contradiction_core split_tokens swaps_value statuses_differ changes_status with_found
    split_words contradiction_tokens detect_negation_flip split_contradiction_clause
    detect_value_swap detect_status_change classify_contradiction heuristics_of report detect_from
    detect_contradictions add_claims new visit_count mark_invalid combine_trust_path cycle_start
    mark_cycle cycle refuse refuse_support inherited inherit_failure after_support visit_supports
    resolve_loaded resolve_by resolve begin_visit after_check known_failure check_support
    visit_claim after_resolve by_state visit after_root root_supports validate_root_supports
    validate_claim_with_support normalized loaded_as support_verdict claim_sources
    validate_approval_references superseded_claims approval_transition approved_unsigned superseded
    supersession_targets pending_supersession approval_checks signed planned_supersession
    prepare_approve_unlocked revoked prepare_revoke_unlocked canonical_digest_unlocked
    migrate_legacy_claim present u64_of generation_of read_generation_file read_workspace_generation
    write_generation_file or_default ensured ensure_workspace_generation write_dirty
    mark_dirty_unlocked mutation_checks advanced begin_canonical_mutation_unlocked path_text
    check_order transition_sha256 check_target check_targets validate_pending_transition_inner
    normalize_pending_transition read_journal read_pending_transition check_pending
    check_pending_transition publish_journal after_checks write_checks write_pending_transition
    target_state target_states write_target after_write apply_targets verify_targets remove_journal
    finish_recovery apply_pending unless_not_found recover_read recover_pending_transition on_disk
    begin_mutation recover_found recover_pending_transition_for_mutation append_unique_claim_id
    by_journal recover_first write_existing begin_write commit_pending commit_by
    commit_approve_unlocked commit_revoke_unlocked approve_with_options revoke_with_options
    superseding_checks write_superseding_draft plan_migration write_migrated migration migrate_okf
program = tt

plans : prepare_approve_unlocked text "notes" evidence meets files draft_id options ≡ ok plan
unfolding program
plans = refl

prepare_approve-IsApproval_example : IsApproval text "notes" evidence meets files draft_id plan
prepare_approve-IsApproval_example =
    prepare_approve-IsApproval text "notes" evidence meets files draft_id options plan plans

abbrev revocation : ClaimMutationPlan
revocation = planned (prepare_revoke_unlocked text "notes" meets files first_id " Wrong. " options)

revokes :
    prepare_revoke_unlocked text "notes" meets files first_id " Wrong. " options ≡ ok revocation
unfolding program
revokes = refl

prepare_revoke-IsRevocation_example :
    IsRevocation text "notes" meets files first_id " Wrong. " options revocation
prepare_revoke-IsRevocation_example =
    prepare_revoke-IsRevocation text "notes" meets files first_id " Wrong. " options revocation
      revokes

abbrev legacy : Claim
legacy = record (owned first_id "decisions/old.md") { schema = "zbrain.claim/v1"; claim_type = "" }

migrate_legacy_claim-IsMigration_example :
    IsMigration text "notes" legacy (migrate_legacy_claim text "notes" legacy)
migrate_legacy_claim-IsMigration_example = migrate_legacy_claim-IsMigration text "notes" legacy

abbrev pub world : Workspace text
world = record { journal = none; files = files; control = Generations.control }

abbrev pub encounter : Encounter
encounter = record {
  is_locked = true;
  recovery_mutation = Generations.call;
  recovery = Journals.healthy;
  meets = meets;
  journal_write = Journals.healthy;
  journal_recovery = Journals.healthy;
}

abbrev pending_of : Option PendingTransition → PendingTransition
pending_of (some pending) = pending
pending_of none = record { operation_id = ""; kind = ""; workspace = ""; targets = [] }

abbrev pending : PendingTransition
pending = pending_of plan.pending

commits :
    (commit_approve_unlocked text "notes" encounter
      (record { claim = plan.claim; pending = some pending })
      world).1
    ≡ ok plan.claim
unfolding program
commits = refl

apart : paths_differ pending.targets ≡ true
unfolding program
apart = refl

commit-IsCommitted_example :
    (plan.claim ≡ plan.claim)
    × IsCommitted text "notes"
        (sorted_targets pending)
        (commit_approve_unlocked text "notes" encounter
          (record { claim = plan.claim; pending = some pending })
          world).0
commit-IsCommitted_example =
    commit-IsCommitted text "notes" encounter plan.claim plan.claim pending world apart commits

abbrev given : Claim
given = record (owned draft_id "") { status = "draft"; basis = "derived"; body = "New body" }

abbrev created : Claim
created = elim (write_draft_unlocked text "notes" answers given world).1 [
  | err e ↦ empty_claim
  | ok claim ↦ claim
]

writes : (write_draft_unlocked text "notes" answers given world).1 ≡ ok created
unfolding program
writes = refl

write_draft-IsWritten_example :
    IsWritten text "notes" answers given world created
      (write_draft_unlocked text "notes" answers given world).0
write_draft-IsWritten_example =
    write_draft-IsWritten text "notes" answers given world created writes

abbrev scan : ClaimScan
scan = elim (scan_workspace_inner text answers true files) [
  | err e ↦ record { claims = []; legacy_unindexed = []; invalid = [] }
  | ok found ↦ found
]

scans : scan_workspace_inner text answers true files ≡ ok scan
unfolding program
scans = refl

scan-IsTrustworthy_example : IsTrustworthy text scan
scan-IsTrustworthy_example = scan-IsTrustworthy text answers files scan scans

abbrev supported : Claim
supported = record (owned draft_id "") { supporting_claim_ids = support_id ∷ [] }

supported-IsStored : IsStored (find_claim text "notes" evidence answers files) supported
unfolding program
supported-IsStored c e = sym (ap supports e)
  where
    supports : Option Claim → List String
    supports none = []
    supports (some claim) = claim.supporting_claim_ids

supported_safe : is_claim_id draft_id ≡ true
unfolding program
supported_safe = refl

references_exact_example :
    (validate_approval_references text "notes" evidence answers files supported ≡ ok tt) ↔ (
      (evidence.validate_claim_evidence supported ≡ ok tt)
      × SupportsTrusted canon evidence.validate_claim_evidence
          (find_claim text "notes" evidence answers files)
          supported)
references_exact_example =
    references_exact text "notes" evidence answers files supported supported_safe supported-IsStored
