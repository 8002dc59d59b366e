-- ===== src/Transition/Untouched.antt =====
-- transition.rs (crates/zbrain/src): recovery and the files that the journal does not name.
use zbrain.Prelude.{
  if_cases, String, false, ◌≡◌, refl, ap, ◌∙◌, Option, eq_iff, Result, ok, err, arith,
}
use zbrain.Prelude.Assoc.{get, get-insert}
use zbrain.Transition.{PendingTransition, TransitionError, Check}
use zbrain.Transition.Targets.{is_target}
use zbrain.Transition.Journal.{
  Crates, Call, Files, Disk, read_pending_transition, remove_journal, finish_recovery,
  apply_pending, recover_read, recover_pending_transition,
}
use zbrain.Transition.Recover.{is_target-In, apply_targets-files, after_checks-disk}

module _ (crates : Crates) (workspace : String) where
  remove_journal-files :
      (call : Call) (journal : Option crates.Json) (files : Files) (r : Check)
      → (remove_journal crates workspace call journal files r).0.files ≡ files
  unfolding remove_journal
  remove_journal-files call journal files (err e) = refl
  remove_journal-files call journal files (ok _) =
      if_cases (λ (r : Disk crates workspace × Check). r.0.files ≡ files) call.journal_removed
        (λ e. refl) (λ e. refl)

  finish_recovery-files :
      (call : Call) (pending : PendingTransition) (journal : Option crates.Json) (r : Files × Check)
      → (finish_recovery crates workspace call pending journal r).0.files ≡ r.0
  unfolding finish_recovery
  finish_recovery-files call pending journal (files, err e) = refl
  finish_recovery-files call pending journal (files, ok _) =
      remove_journal-files call journal files _

  apply_pending-others :
      (call : Call) (pending : PendingTransition) (disk : Disk crates workspace) (path : String)
      → is_target path pending.targets ≡ false
      → get (apply_pending crates workspace call disk pending).0.files path ≡ get disk.files path
  unfolding apply_pending
  apply_pending-others call pending disk path other =
      after_checks-disk crates workspace
        (λ (d : Disk crates workspace). get d.files path ≡ get disk.files path) disk _ _ refl
        λ states e.
          ap (λ f. get f path) (finish_recovery-files call pending disk.journal _)
          ∙ apply_targets-files crates workspace (λ f. get f path ≡ get disk.files path) call states
              pending.targets disk.files
              (λ t i f h.
                rw (get-insert t.path path t.target_bytes f)
                  (ground (arith, is_target-In t pending.targets i, eq_iff t.path path)))
              refl

  recover_read-others :
      (call : Call) (disk : Disk crates workspace) (path : String)
      (r : Result TransitionError PendingTransition)
      → ((p : PendingTransition) → r ≡ ok p → is_target path p.targets ≡ false)
      → get (recover_read crates workspace call disk r).0.files path ≡ get disk.files path
  unfolding recover_read
  recover_read-others call disk path (err e) other = refl
  recover_read-others call disk path (ok p) other =
      apply_pending-others call p disk path (other p refl)

  -- Recovery, however it ends, leaves every file alone that the journal it reads does not name.
  pub recover-others :
      (call : Call) (disk : Disk crates workspace) (path : String)
      → ((p : PendingTransition)
          → read_pending_transition crates workspace call disk ≡ ok p
          → is_target path p.targets ≡ false)
      → get (recover_pending_transition crates workspace call disk).0.files path
        ≡ get disk.files path
  unfolding recover_pending_transition
  recover-others call disk path other = recover_read-others call disk path _ other
