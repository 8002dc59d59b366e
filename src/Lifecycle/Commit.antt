-- ===== src/Lifecycle/Commit.antt =====
-- lifecycle.rs (crates/zbrain/src): plans put on disk, a single claim by its file, a supersession by the
-- journal.
use zbrain.Prelude.{
  ℕ, ◌+◌, String, Bool, false, ◌&&◌, not, Option, none, some, List, [], ◌∷◌, ◌++◌, ◌==◌, Result, ok,
  ◌>>=◌, ensure, map_err, is_ok, length, is_empty, if◌then◌else◌,
}
use zbrain.Prelude.Effects.{Outcome, after_checks, after_step}
use zbrain.Prelude.Sets.{contains}
use zbrain.Claims.{Claim, ClaimError, claim_schema_version}
use zbrain.Claims.Digest.{verify_claim_digest}
use zbrain.Claims.Scan.{Text, Answers, scan_workspace_inner}
use zbrain.Claims.Store.{Workspace, read, claim_file_path, write_claim_atomic, write_draft_unlocked}
use zbrain.Coordination
use zbrain.Transition.{PendingTransition, TransitionError}
use zbrain.Transition.Journal
use zbrain.Transition.Journal.{Disk, write_pending_transition, recover_pending_transition}
use zbrain.Transition.Mutation.{
  disk_of, on_disk, begin_mutation, recover_pending_transition_for_mutation,
}
use zbrain.Lifecycle.{
  ClaimMutationOptions, ClaimMutationPlan, Evidence, Meets, prepare_approve_unlocked,
  prepare_revoke_unlocked, migrate_legacy_claim,
}

-- What a whole operation meets: the lock, the recovery before it, the plan, the journal and the write.
pub record Encounter : Type 0 where
  pub is_locked : Bool
  pub recovery_mutation : Coordination.Call
  pub recovery : Journal.Call
  pub meets : Meets
  pub journal_write : Journal.Call
  pub journal_recovery : Journal.Call

-- `append_unique_claim_id`
unfoldable pub append_unique_claim_id : List String → String → List String
append_unique_claim_id ids id = if contains ids id then ids else ids ++ id ∷ []

pub record ClaimMigrationSummary : Type 0 where
  pub workspace : String
  pub migrated : ℕ
  pub skipped : ℕ
  pub invalid : ℕ
  pub reapproval_required : ℕ
  pub reapproval_candidates : List String

module _ (text : Text) (workspace : String) where
  -- A step of the journal, its errors as those of claims.
  unfoldable pub by_journal :
      Workspace text
      → Outcome (Disk text.journals workspace) TransitionError (Unit {0})
      → Outcome (Workspace text) ClaimError (Unit {0})
  by_journal w step =
      let (now, result) = on_disk text.journals text.generations workspace w step in
      (now, map_err (λ e. ClaimError.journal_refused) result)

  unfoldable pub recover_first :
      Encounter → Workspace text → Outcome (Workspace text) ClaimError (Unit {0})
  recover_first encounter w =
      let (now, result) =
        recover_pending_transition_for_mutation text.journals text.generations workspace
          encounter.recovery_mutation encounter.recovery w in
      (now, map_err (λ e. ClaimError.journal_refused) result)

  unfoldable pub write_existing :
      Answers → Claim → Workspace text → Outcome (Workspace text) ClaimError (Unit {0})
  write_existing answers claim w =
      after_checks w (claim_file_path text answers claim)
        (λ path. write_claim_atomic text answers path claim w)

  unfoldable pub begin_write :
      Encounter → Workspace text → Outcome (Workspace text) ClaimError (Unit {0})
  begin_write encounter w =
      begin_mutation text.journals text.generations workspace ClaimError.mutation_refused
        encounter.meets.answers.mutation w

  -- The journal is written, and the transition recovered from it.
  unfoldable pub commit_pending :
      Encounter
      → PendingTransition
      → Workspace text
      → Outcome (Workspace text) ClaimError (Unit {0})
  commit_pending encounter pending w =
      after_step
        (by_journal w (
          write_pending_transition text.journals workspace encounter.journal_write pending
            (disk_of text.journals text.generations workspace w)))
        (λ written done. by_journal written (
          recover_pending_transition text.journals workspace encounter.journal_recovery
            (disk_of text.journals text.generations workspace written)))

  unfoldable pub commit_by :
      Encounter
      → Claim
      → Option PendingTransition
      → Workspace text
      → Outcome (Workspace text) ClaimError (Unit {0})
  commit_by encounter claim (some pending) w = commit_pending encounter pending w
  commit_by encounter claim none w = write_existing encounter.meets.answers claim w

  unfoldable pub commit_approve_unlocked :
      Encounter → ClaimMutationPlan → Workspace text → Outcome (Workspace text) ClaimError Claim
  commit_approve_unlocked encounter plan w = after_step (begin_write encounter w) (λ begun done.
      after_step (commit_by encounter plan.claim plan.pending begun)
        (λ written done_too. (written, ok plan.claim)))

  unfoldable pub commit_revoke_unlocked :
      Encounter → ClaimMutationPlan → Workspace text → Outcome (Workspace text) ClaimError Claim
  commit_revoke_unlocked encounter plan w = after_step (begin_write encounter w) (λ begun done.
      after_step (write_existing encounter.meets.answers plan.claim begun)
        (λ written done_too. (written, ok plan.claim)))

  abbrev pub locked : Encounter → Result ClaimError (Unit {0})
  locked encounter = ensure encounter.is_locked ClaimError.boundary_refused

  unfoldable pub approve_with_options :
      Evidence
      → Encounter
      → String
      → ClaimMutationOptions
      → Workspace text
      → Outcome (Workspace text) ClaimError Claim
  approve_with_options evidence encounter id options w = after_checks w (locked encounter) (λ l.
      after_step (recover_first encounter w) (λ recovered done.
        after_checks recovered
          (prepare_approve_unlocked text workspace evidence encounter.meets recovered.files id
            options)
          (λ plan. commit_approve_unlocked encounter plan recovered)))

  unfoldable pub revoke_with_options :
      Encounter
      → String
      → String
      → ClaimMutationOptions
      → Workspace text
      → Outcome (Workspace text) ClaimError Claim
  revoke_with_options encounter id reason options w = after_checks w (locked encounter) (λ l.
      after_step (recover_first encounter w) (λ recovered done.
        after_checks recovered
          (prepare_revoke_unlocked text workspace encounter.meets recovered.files id reason options)
          (λ plan. commit_revoke_unlocked encounter plan recovered)))

  unfoldable pub superseding_checks :
      Answers → String → Workspace text → Result ClaimError (Unit {0})
  superseding_checks answers current_id w = do
    current ← read text answers w.files current_id
    ensure (current.status == "approved") (ClaimError.not_supersedable current_id)

  unfoldable pub write_superseding_draft :
      Encounter → String → Claim → Workspace text → Outcome (Workspace text) ClaimError Claim
  write_superseding_draft encounter current_id replacement w =
      after_checks w (locked encounter) (λ l.
        after_step (recover_first encounter w) (λ recovered done.
          after_checks recovered (superseding_checks encounter.meets.answers current_id recovered)
            (λ approved.
              write_draft_unlocked text workspace encounter.meets.answers
                (record replacement {
                  supersedes = append_unique_claim_id replacement.supersedes current_id;
                })
                recovered)))

  -- The loop over the claims that a scan found: what is migrated, and the counts.
  unfoldable pub plan_migration :
      List Claim → ClaimMigrationSummary → List Claim → List Claim × ClaimMigrationSummary
  plan_migration migrated summary [] = (migrated, summary)
  plan_migration migrated summary (claim ∷ claims) =
      let (next, again) = migrate_legacy_claim text workspace claim in
      let unverified =
        claim.status == "approved" && not (is_ok (verify_claim_digest text.canon claim)) in
      let passed =
        plan_migration migrated
          (record summary {
            invalid = if unverified then summary.invalid + 1 else summary.invalid;
            skipped = summary.skipped + 1;
          })
          claims in
      let taken =
        plan_migration (migrated ++ next ∷ [])
          (if again
            then record summary {
              reapproval_required = summary.reapproval_required + 1;
              reapproval_candidates = summary.reapproval_candidates ++ next.id ∷ [];
            }
            else summary)
          claims in
      if claim.schema == claim_schema_version then taken else passed

  -- The loop that writes the migrated claims.
  unfoldable pub write_migrated :
      Answers
      → List Claim
      → ClaimMigrationSummary
      → Workspace text
      → Outcome (Workspace text) ClaimError ClaimMigrationSummary
  write_migrated answers [] summary w = (w, ok summary)
  write_migrated answers (claim ∷ claims) summary w =
      after_step (write_existing answers claim w) (λ written done.
        write_migrated answers claims (record summary { migrated = summary.migrated + 1 }) written)

  unfoldable pub migration :
      Answers → Workspace text → Result ClaimError (List Claim × ClaimMigrationSummary)
  migration answers w = do
    scan ← scan_workspace_inner text answers false w.files
    ok (
        plan_migration []
          (record {
            workspace = workspace;
            migrated = 0;
            skipped = length scan.legacy_unindexed;
            invalid = length scan.invalid;
            reapproval_required = 0;
            reapproval_candidates = [];
          })
          scan.claims)

  unfoldable pub migrate_okf :
      Encounter → Workspace text → Outcome (Workspace text) ClaimError ClaimMigrationSummary
  migrate_okf encounter w = after_checks w (locked encounter) (λ l.
      after_step (recover_first encounter w) (λ recovered done.
        after_checks recovered (migration encounter.meets.answers recovered) (λ planned.
          if is_empty planned.0
          then (recovered, ok planned.1)
          else after_step (begin_write encounter recovered) (λ begun begun_done.
            write_migrated encounter.meets.answers planned.0 planned.1 begun))))
