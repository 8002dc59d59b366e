-- ===== src/Transition/Complete.antt =====
-- transition.rs (crates/zbrain/src): attempts at recovery, and one that the file system lets through.
use zbrain.Prelude.{
  String, true, ◌≡◌, refl, Option, none, some, List, [], ◌∷◌, ok, err, arith, inl, inr,
}
use zbrain.Transition.{PendingTransition, Check, not_found, validate_pending_transition_inner}
use zbrain.Transition.Targets.{AllEither, AllReached, Sound, valid-Sound}
use zbrain.Transition.Journal.{
  Crates, Call, Files, Disk, read_journal, read_pending_transition, after_checks, remove_journal,
  finish_recovery, apply_pending, recover_read, unless_not_found, recover_pending_transition,
}
use zbrain.Transition.Recover.{IsRecoverable, recover-IsRecoverable, read_journal-parts}
use zbrain.Transition.Healthy.{
  IsHealthy, target_states-ok, apply_targets-AllReached, verify_targets-ok,
}

module _ (crates : Crates) (workspace : String) where
  module _ (call : Call) (healthy : IsHealthy call) where
    -- What a completed recovery leaves.
    abbrev IsComplete : PendingTransition → Disk crates workspace × Check → Type 0
    IsComplete pending (disk, r) =
        (r ≡ ok tt) × (disk.journal ≡ none) × AllReached crates disk.files pending.targets

    finish_recovery-IsComplete :
        (pending : PendingTransition) (journal : Option crates.Json) (r : Files × Check)
        → r.1 ≡ ok tt
        → AllReached crates r.0 pending.targets
        → IsComplete pending (finish_recovery crates workspace call pending journal r)
    unfolding finish_recovery remove_journal
    finish_recovery-IsComplete pending journal (files, err e) w all = absurd (ground arith)
    finish_recovery-IsComplete pending journal (files, ok _) w all =
        rw
          (
            verify_targets-ok crates workspace call healthy files pending.targets all,
            healthy.journal_removed,
          )
          (refl, refl, all)

    apply_pending-IsComplete :
        (disk : Disk crates workspace) (pending : PendingTransition)
        → Sound crates pending.targets
        → AllEither crates disk.files pending.targets
        → IsComplete pending (apply_pending crates workspace call disk pending)
    unfolding apply_pending after_checks
    apply_pending-IsComplete disk pending s h =
        let (states, e, fit) =
          target_states-ok crates workspace call healthy disk.files pending.targets h in
        let (written, all) =
          apply_targets-AllReached crates workspace call healthy disk.files states pending.targets s
            fit in
        rw e (finish_recovery-IsComplete pending disk.journal _ written all)

    read_journal-pending :
        (contents : crates.Json) (pending : PendingTransition) (disk : Disk crates workspace)
        → crates.decode contents ≡ some pending
        → validate_pending_transition_inner crates.sha256 workspace pending true ≡ ok tt
        → disk.journal ≡ some contents
        → read_pending_transition crates workspace call disk ≡ ok pending
    unfolding read_pending_transition read_journal
    read_journal-pending contents pending disk decoded valid j =
        rw (healthy.journal_path_safe, j, decoded, valid) refl

    read_journal-gone :
        (disk : Disk crates workspace)
        → disk.journal ≡ none
        → read_pending_transition crates workspace call disk ≡ err not_found
    unfolding read_pending_transition read_journal
    read_journal-gone disk j = rw (healthy.journal_path_safe, j) refl

    recover-IsComplete :
        (contents : crates.Json) (pending : PendingTransition) (disk : Disk crates workspace)
        → crates.decode contents ≡ some pending
        → validate_pending_transition_inner crates.sha256 workspace pending true ≡ ok tt
        → IsRecoverable crates workspace contents pending disk
        → IsComplete pending (recover_pending_transition crates workspace call disk)
    unfolding recover_pending_transition recover_read unless_not_found
    recover-IsComplete contents pending disk decoded valid (inl (j, either)) =
        rw (read_journal-pending contents pending disk decoded valid j) (
          apply_pending-IsComplete disk pending (valid-Sound crates workspace pending valid) either)
    recover-IsComplete contents pending disk decoded valid (inr (j, all)) =
        rw (read_journal-gone disk j) (refl, j, all)

  -- Attempts at recovery, one after another.
  unfoldable pub attempts : List Call → Disk crates workspace → Disk crates workspace
  unfolding recover_pending_transition
  attempts [] disk = disk
  attempts (call ∷ calls) disk =
      attempts calls (recover_pending_transition crates workspace call disk).0

  attempts-IsRecoverable :
      (calls : List Call) (contents : crates.Json) (pending : PendingTransition)
      (disk : Disk crates workspace)
      → crates.decode contents ≡ some pending
      → Sound crates pending.targets
      → IsRecoverable crates workspace contents pending disk
      → IsRecoverable crates workspace contents pending (attempts calls disk)
  unfolding attempts
  attempts-IsRecoverable [] contents pending disk decoded sound h = h
  attempts-IsRecoverable (call ∷ calls) contents pending disk decoded sound h =
      attempts-IsRecoverable calls contents pending _ decoded sound
        (recover-IsRecoverable crates workspace call contents pending disk decoded sound h)

  -- Let the disk hold a journal that reads as valid, and let the file of each of its targets have the
  -- preimage's hash or the target's. Then after any attempts at recovery, each of which the file system
  -- may cut short anywhere, an attempt that it lets through succeeds, and leaves no journal and every
  -- target with its target's hash.
  pub recovery_completes :
      (calls : List Call) (call : Call) (pending : PendingTransition) (disk : Disk crates workspace)
      → read_journal crates workspace disk.journal ≡ ok pending
      → AllEither crates disk.files pending.targets
      → IsHealthy call
      → ((recover_pending_transition crates workspace call (attempts calls disk)).1 ≡ ok tt)
        × ((recover_pending_transition crates workspace call (attempts calls disk)).0.journal
            ≡ none)
        × AllReached crates
            (recover_pending_transition crates workspace call (attempts calls disk)).0.files
            pending.targets
  recovery_completes calls call pending disk h either healthy =
      let (contents, stored, decoded, valid) =
        read_journal-parts crates workspace disk.journal pending h in
      recover-IsComplete call healthy contents pending (attempts calls disk) decoded valid (
        attempts-IsRecoverable calls contents pending disk decoded
          (valid-Sound crates workspace pending valid) (inl (stored, either)))
