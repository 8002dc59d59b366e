-- ===== src/Lifecycle/Committed.antt =====
-- lifecycle.rs (crates/zbrain/src): a supersession that is committed through the journal.
use mathlib.Core.Path.{subst}
use zbrain.Prelude.{
  String, Bool, true, ◌≡◌, refl, ap, sym, ◌∙◌, Option, none, some, List, Result, ok, err, arith,
  if_cases, ◌⊎◌, inl, inr, map_err-eq-ok, is_ok,
}
use zbrain.Prelude.Effects.{Outcome, after_step-ok}
use zbrain.Claims.{Claim, ClaimError}
use zbrain.Claims.Scan.{Text}
use zbrain.Claims.Store.{Workspace}
use zbrain.Coordination.Barrier.{begin_mutation-ok}
use zbrain.Coordination.{MutationError, WorkspaceGeneration, begin_canonical_mutation_unlocked}
use zbrain.Transition.{PendingTransition, TransitionError, Check}
use zbrain.Transition.Journal
use zbrain.Transition.Journal.{
  Disk, Files, read_journal, read_pending_transition, after_checks, target_states, finish_recovery,
  remove_journal, apply_targets, verify_targets, apply_pending, recover_read, unless_not_found,
  recover_pending_transition, write_pending_transition,
}
use zbrain.Transition.Mutation.{on_disk, disk_of, begin_mutation, refused_as}
use zbrain.Transition.Targets.{AllReached}
use zbrain.Transition.Recover.{verify_targets-AllReached}
use zbrain.Transition.Written.{paths_differ, sorted_targets, write-read}
use zbrain.Lifecycle.Commit.{
  Encounter, by_journal, begin_write, commit_pending, commit_by, commit_approve_unlocked,
}

module _ (crates : Journal.Crates) (workspace : String) where
  -- No journal is left, and every target has its text.
  pub record IsDone (pending : PendingTransition) (disk : Disk crates workspace) : Type 0 where
    pub cleared : disk.journal ≡ none
    pub reached : AllReached crates disk.files pending.targets

  remove_journal-IsDone :
      (call : Journal.Call) (pending : PendingTransition) (journal : Option crates.Json)
      (files : Files) (r : Check) {u : Unit}
      → (r ≡ ok tt → AllReached crates files pending.targets)
      → (remove_journal crates workspace call journal files r).1 ≡ ok u
      → IsDone pending (remove_journal crates workspace call journal files r).0
  unfolding remove_journal
  remove_journal-IsDone call pending journal files (err e) all h = cc h
  remove_journal-IsDone call pending journal files (ok v) all h =
      if_cases (λ (o : Disk crates workspace × Check). is_ok o.1 ≡ true → IsDone pending o.0)
        call.journal_removed (λ removed e. record { cleared = refl; reached = all refl })
        (λ kept e. cc) (ap is_ok h)

  finish_recovery-IsDone :
      (call : Journal.Call) (pending : PendingTransition) (journal : Option crates.Json)
      (step : Files × Check) {u : Unit}
      → (finish_recovery crates workspace call pending journal step).1 ≡ ok u
      → IsDone pending (finish_recovery crates workspace call pending journal step).0
  unfolding finish_recovery
  finish_recovery-IsDone call pending journal (files, err e) h = cc h
  finish_recovery-IsDone call pending journal (files, ok v) h =
      remove_journal-IsDone call pending journal files
        (verify_targets crates workspace call files pending.targets)
        (verify_targets-AllReached crates workspace call files pending.targets) h

  apply_pending-IsDone :
      (call : Journal.Call) (pending : PendingTransition) (disk : Disk crates workspace) {u : Unit}
      → (apply_pending crates workspace call disk pending).1 ≡ ok u
      → IsDone pending (apply_pending crates workspace call disk pending).0
  unfolding apply_pending after_checks
  apply_pending-IsDone call pending disk =
      by_states (target_states crates workspace call disk.files pending.targets)
    where
      by_states :
          (r : Result TransitionError (List Bool)) {u : Unit}
          → (after_checks crates workspace disk r (λ states.
              finish_recovery crates workspace call pending disk.journal
                (apply_targets crates workspace call states pending.targets disk.files))).1
            ≡ ok u
          → IsDone pending
              (after_checks crates workspace disk r (λ states.
                finish_recovery crates workspace call pending disk.journal
                  (apply_targets crates workspace call states pending.targets disk.files))).0
      by_states (err e) h = cc h
      by_states (ok states) h =
          finish_recovery-IsDone call pending disk.journal
            (apply_targets crates workspace call states pending.targets disk.files) h

  recover_read-IsDone :
      (call : Journal.Call) (pending : PendingTransition) (disk : Disk crates workspace)
      (r : Result TransitionError PendingTransition) {u : Unit}
      → (r ≡ ok pending) ⊎ (r ≡ err TransitionError.path_refused)
      → (recover_read crates workspace call disk r).1 ≡ ok u
      → IsDone pending (recover_read crates workspace call disk r).0
  unfolding recover_read unless_not_found
  recover_read-IsDone call pending disk (ok p) (inl e) h =
      let same : p ≡ pending = cc e in
      subst (λ x. IsDone x (apply_pending crates workspace call disk p).0) same
        (apply_pending-IsDone call p disk h)
  recover_read-IsDone call pending disk (ok p) (inr e) h = cc e
  recover_read-IsDone call pending disk (err e) (inl f) h = cc f
  recover_read-IsDone call pending disk (err e) (inr f) h = absurd (refused e (cc f) h)
    where
      refused :
          (e : TransitionError)
          → e ≡ TransitionError.path_refused
          → unless_not_found crates workspace e ≡ ok tt
          → ⊥
      refused e f h = ground arith

  -- A recovery that succeeds from a journal that reads as a transition is done with it.
  recover-IsDone :
      (call : Journal.Call) (pending : PendingTransition) (disk : Disk crates workspace) {u : Unit}
      → read_journal crates workspace disk.journal ≡ ok pending
      → (recover_pending_transition crates workspace call disk).1 ≡ ok u
      → IsDone pending (recover_pending_transition crates workspace call disk).0
  unfolding recover_pending_transition read_pending_transition
  recover-IsDone call pending disk r h =
      recover_read-IsDone call pending disk (read_pending_transition crates workspace call disk)
        (ground arith) h

module _ (text : Text) (workspace : String) where
  -- A step of the journal that succeeds, and the workspace that it leaves.
  by_journal-ok :
      (w : Workspace text)
      (step : Outcome (Disk text.journals workspace) TransitionError (Unit {0})) {u : Unit}
      → (by_journal text workspace w step).1 ≡ ok u
      → step.1 ≡ ok u
  unfolding by_journal on_disk
  by_journal-ok w step h = map_err-eq-ok (λ e. ClaimError.journal_refused) step.1 h

  -- What a committed supersession leaves.
  pub record IsCommitted (pending : PendingTransition) (w : Workspace text) : Type 0 where
    pub cleared : w.journal ≡ none
    pub reached : AllReached text.journals w.files pending.targets
    pub is_dirty : w.control.is_dirty ≡ true

  pub commit_pending-IsCommitted :
      (encounter : Encounter) (pending : PendingTransition) (w : Workspace text) {u : Unit}
      → paths_differ pending.targets ≡ true
      → w.control.is_dirty ≡ true
      → (commit_pending text workspace encounter pending w).1 ≡ ok u
      → IsCommitted (sorted_targets pending) (commit_pending text workspace encounter pending w).0
  unfolding commit_pending by_journal on_disk
  commit_pending-IsCommitted encounter pending w apart dirty h =
      let disk : Disk text.journals workspace =
        disk_of text.journals text.generations workspace w in
      let write =
        write_pending_transition text.journals workspace encounter.journal_write pending disk in
      let written : Workspace text = (by_journal text workspace w write).0 in
      let (u, wrote, same, h1) = after_step-ok (by_journal text workspace w write) _ h in
      let (free, kept, read) =
        write-read text.journals workspace encounter.journal_write pending disk
          (by_journal-ok w write wrote) apart in
      let recovery =
        recover_pending_transition text.journals workspace encounter.journal_recovery
          (disk_of text.journals text.generations workspace written) in
      let done =
        recover-IsDone text.journals workspace encounter.journal_recovery (sorted_targets pending)
          (disk_of text.journals text.generations workspace written) read
          (by_journal-ok written recovery h1) in
      subst
        (λ (o : Outcome (Workspace text) ClaimError (Unit {0})).
          IsCommitted (sorted_targets pending) o.0)
        (sym same) (record { cleared = done.cleared; reached = done.reached; is_dirty = dirty })

  pub begin_write-dirty :
      (encounter : Encounter) (w : Workspace text) {u : Unit}
      → (begin_write text workspace encounter w).1 ≡ ok u
      → (begin_write text workspace encounter w).0.control.is_dirty ≡ true
  unfolding begin_write begin_mutation
  begin_write-dirty encounter w h =
      let (g, e) =
        refused_as-ok
          (begin_canonical_mutation_unlocked text.generations encounter.meets.answers.mutation
            w.control).1
          h in
      (begin_mutation-ok text.generations encounter.meets.answers.mutation w.control g e).0
    where
      refused_as-ok :
          (r : Result MutationError WorkspaceGeneration) {u : Unit}
          → refused_as text.journals text.generations workspace ClaimError.mutation_refused tt r
            ≡ ok u
          → (g : WorkspaceGeneration) × (r ≡ ok g)
      refused_as-ok (ok g) h = (g, refl)
      refused_as-ok (err e) h = cc h

  -- When the commit of a plan that supersedes succeeds, whose targets have different paths, it returns the
  -- claim of the plan, no journal is left, the file of every target has the target's hash, and the index
  -- is marked dirty.
  pub commit-IsCommitted :
      (encounter : Encounter) (claim result : Claim) (pending : PendingTransition)
      (w : Workspace text)
      → paths_differ pending.targets ≡ true
      → (commit_approve_unlocked text workspace encounter
          (record { claim = claim; pending = some pending })
          w).1
        ≡ ok result
      → (result ≡ claim)
        × IsCommitted
            (sorted_targets pending)
            (commit_approve_unlocked text workspace encounter
              (record { claim = claim; pending = some pending })
              w).0
  unfolding commit_approve_unlocked commit_by
  commit-IsCommitted encounter claim result pending w apart h =
      let (u, begins, same0, h1) = after_step-ok (begin_write text workspace encounter w) _ h in
      let begun : Workspace text = (begin_write text workspace encounter w).0 in
      let (v, commits, same1, h2) =
        after_step-ok (commit_pending text workspace encounter pending begun) _ h1 in
      (
        cc h2,
        subst
            (λ (o : Outcome (Workspace text) ClaimError Claim).
              IsCommitted (sorted_targets pending) o.0)
            (sym (same0 ∙ same1))
            (commit_pending-IsCommitted encounter pending begun apart
              (begin_write-dirty encounter w begins) commits),
      )
