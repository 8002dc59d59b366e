-- ===== src/Transition/Journal.antt =====
-- transition.rs (crates/zbrain/src): writing and reading the journal, and recovery from it.
use zbrain.Prelude.Effects.{Write}
use zbrain.Prelude.{
  ℕ, String, Bool, true, false, ◌≡◌, Option, none, some, List, [], ◌∷◌, ◌==◌, Result, ok, err,
  ◌>>=◌, ◌>>◌, ensure, or_fail, if◌then◌else◌,
}
use zbrain.Prelude.Assoc.{Assoc, get, insert}
use zbrain.Transition.{
  PendingTransition, PendingTransitionTarget, TransitionError, Check, not_found, transition_sha256,
  validate_pending_transition_inner, normalize_pending_transition,
}

-- The crates: sha2, and serde_json with the derived codec.
pub record Crates : Type 1 where
  pub Json : Type 0
  pub sha256 : List ℕ → List ℕ
  pub encode : PendingTransition → Json
  pub decode : Json → Option PendingTransition
  pub decode-encode : (p : PendingTransition) → decode (encode p) ≡ some p

-- What one call meets: the answers of the file system.
pub record Call : Type 0 where
  pub journal_path_safe : Bool
  pub resolves : String → Bool
  pub is_readable : String → Bool
  pub directory_made : Bool
  pub journal_write : Write
  pub write : String → Write
  pub is_readable_again : String → Bool
  pub journal_removed : Bool

abbrev pub Files : Type 0
Files = Assoc (List ℕ)

module _ (crates : Crates) (workspace : String) where
  -- The journal, if there is one, and the contents of the files of the workspace.
  pub record Disk : Type 0 where
    pub journal : Option crates.Json
    pub files : Files

  unfoldable pub read_journal : Option crates.Json → Result TransitionError PendingTransition
  read_journal none = err not_found
  read_journal (some contents) = do
    pending ← or_fail (crates.decode contents) TransitionError.undecodable
    validate_pending_transition_inner crates.sha256 workspace pending true
    ok pending

  unfoldable pub read_pending_transition : Call → Disk → Result TransitionError PendingTransition
  read_pending_transition call disk = do
    ensure call.journal_path_safe TransitionError.path_refused
    read_journal disk.journal

  unfoldable pub check_pending : Result TransitionError PendingTransition → Check
  check_pending (ok pending) = err (TransitionError.pending_exists pending.operation_id)
  check_pending (err not_found) = ok tt
  check_pending (err e) = err (TransitionError.pending_invalid e)

  unfoldable pub check_pending_transition : Call → Disk → Check
  check_pending_transition call disk = check_pending (read_pending_transition call disk)

  -- `hard_link` fails where a journal stands.
  unfoldable pub publish_journal : Write → PendingTransition → Disk → Disk × Check
  publish_journal w pending disk = elim disk.journal [
    | some contents ↦ (disk, err TransitionError.publish_failed)
    | none ↦ elim w [
      | Write.published ↦ (record disk { journal = some (crates.encode pending) }, ok tt)
      | Write.unpublished ↦ (disk, err TransitionError.publish_failed)
      | Write.published_then_failed ↦ (
        record disk { journal = some (crates.encode pending) },
        err TransitionError.publish_failed,
      )
    ]
  ]

  unfoldable pub after_checks :
      {A B : Type 0}
      → Disk
      → Result TransitionError A
      → (A → Disk × Result TransitionError B)
      → Disk × Result TransitionError B
  after_checks disk (err e) rest = (disk, err e)
  after_checks disk (ok a) rest = rest a

  -- What the write does before it publishes.
  unfoldable pub write_checks : Call → PendingTransition → Result TransitionError PendingTransition
  write_checks call pending = do
    ensure call.journal_path_safe TransitionError.path_refused
    normalized ← normalize_pending_transition crates.sha256 workspace pending
    ensure call.directory_made TransitionError.publish_failed
    ok normalized

  unfoldable pub write_pending_transition : Call → PendingTransition → Disk → Disk × Check
  write_pending_transition call pending disk =
      after_checks disk (write_checks call pending)
        (λ normalized. publish_journal call.journal_write normalized disk)

  -- Whether a target is still to be written.
  unfoldable pub target_state : Call → Files → PendingTransitionTarget → Result TransitionError Bool
  target_state call files target = do
    ensure (call.resolves target.path) (TransitionError.target_unresolved target.path)
    ensure (call.is_readable target.path) (TransitionError.target_unreadable target.path)
    contents ← or_fail (get files target.path) (TransitionError.target_missing target.path)
    let current = transition_sha256 crates.sha256 contents
    if current == target.target_sha256
        then ok false
        else if current == target.preimage_sha256
        then ok true
        else err (TransitionError.preimage_mismatch target.path)

  -- The first loop, before anything is written.
  unfoldable pub target_states :
      Call → Files → List PendingTransitionTarget → Result TransitionError (List Bool)
  target_states call files [] = ok []
  target_states call files (target ∷ targets) = do
    apply ← target_state call files target
    states ← target_states call files targets
    ok (apply ∷ states)

  unfoldable pub write_target : Write → PendingTransitionTarget → Files → Files × Check
  write_target Write.published target files = (insert target.path target.target_bytes files, ok tt)
  write_target Write.unpublished target files =
      (files, err (TransitionError.target_not_written target.path))
  write_target Write.published_then_failed target files = (
    insert target.path target.target_bytes files,
    err (TransitionError.target_not_written target.path),
  )

  unfoldable pub after_write : Files × Check → (Files → Files × Check) → Files × Check
  after_write (files, err e) rest = (files, err e)
  after_write (files, ok _) rest = rest files

  -- The second loop.
  unfoldable pub apply_targets :
      Call → List Bool → List PendingTransitionTarget → Files → Files × Check
  apply_targets call (true ∷ states) (target ∷ targets) files =
      after_write (write_target (call.write target.path) target files)
        (apply_targets call states targets)
  apply_targets call (false ∷ states) (target ∷ targets) files =
      apply_targets call states targets files
  apply_targets call _ _ files = (files, ok tt)

  -- The third loop.
  unfoldable pub verify_targets : Call → Files → List PendingTransitionTarget → Check
  verify_targets call files [] = ok tt
  verify_targets call files (target ∷ targets) = do
    ensure (call.is_readable_again target.path) (TransitionError.target_unreadable target.path)
    contents ← or_fail (get files target.path) (TransitionError.target_unreadable target.path)
    ensure (transition_sha256 crates.sha256 contents == target.target_sha256)
        (TransitionError.target_not_reached target.path)
    verify_targets call files targets

  -- The removal of the journal, when every target was verified.
  unfoldable pub remove_journal : Call → Option crates.Json → Files → Check → Disk × Check
  remove_journal call journal files (err e) = (record { journal = journal; files = files }, err e)
  remove_journal call journal files (ok _) =
      if call.journal_removed
      then (record { journal = none; files = files }, ok tt)
      else (record { journal = journal; files = files }, err TransitionError.remove_failed)

  unfoldable pub finish_recovery :
      Call → PendingTransition → Option crates.Json → Files × Check → Disk × Check
  finish_recovery call pending journal (files, err e) =
      (record { journal = journal; files = files }, err e)
  finish_recovery call pending journal (files, ok _) =
      remove_journal call journal files (verify_targets call files pending.targets)

  unfoldable pub apply_pending : Call → Disk → PendingTransition → Disk × Check
  apply_pending call disk pending =
      after_checks disk (target_states call disk.files pending.targets) (λ states.
        finish_recovery call pending disk.journal
          (apply_targets call states pending.targets disk.files))

  unfoldable pub unless_not_found : TransitionError → Check
  unless_not_found not_found = ok tt
  unless_not_found e = err e

  unfoldable pub recover_read :
      Call → Disk → Result TransitionError PendingTransition → Disk × Check
  recover_read call disk (ok pending) = apply_pending call disk pending
  recover_read call disk (err e) = (disk, unless_not_found e)

  unfoldable pub recover_pending_transition : Call → Disk → Disk × Check
  recover_pending_transition call disk = recover_read call disk (read_pending_transition call disk)
