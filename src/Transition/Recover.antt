-- ===== src/Transition/Recover.antt =====
-- transition.rs (crates/zbrain/src): what an attempt at recovery leaves, however it ends.
use mathlib.Core.Path.{subst}
use zbrain.Prelude.Effects.{Write}
use zbrain.Prelude.{
  if_cases, String, Bool, true, false, ◌≡◌, refl, sym, Option, none, some, List, [], ◌∷◌, ◌==◌,
  eq_iff, Result, ok, err, ensure, or_fail, arith, ◌⊎◌, inl, inr, >>=-eq-ok, >>-eq-ok,
}
use zbrain.Prelude.Assoc.{get, insert}
use zbrain.Transition.{
  PendingTransition, PendingTransitionTarget, TransitionError, Check, transition_sha256,
  validate_pending_transition_inner,
}
use zbrain.Transition.Targets.{
  is_target, AllEither, AllReached, Sound, HasEither-insert_other, HasEither-insert_self,
  AllEither-insert_other,
}
use zbrain.Transition.Journal.{
  Crates, Call, Files, Disk, read_journal, read_pending_transition, after_checks, write_target,
  after_write, apply_targets, verify_targets, remove_journal, finish_recovery, apply_pending,
  recover_read, recover_pending_transition,
}

-- A target of the list.
pub data In (target : PendingTransitionTarget) : List PendingTransitionTarget → Type 0 where
  here : {targets : List PendingTransitionTarget} → In target (target ∷ targets)
  there :
      {other : PendingTransitionTarget} {targets : List PendingTransitionTarget}
      → In target targets
      → In target (other ∷ targets)

pub is_target-In :
    (target : PendingTransitionTarget) (targets : List PendingTransitionTarget)
    → In target targets
    → is_target target.path targets ≡ true
is_target-In target [] i = elim i [ ]
is_target-In target (t ∷ targets) In.here = ground (arith, eq_iff target.path target.path)
is_target-In target (t ∷ targets) (In.there i) = ground (arith, is_target-In target targets i)

module _ (crates : Crates) (workspace : String) where
  AllEither-insert-In :
      (files : Files) (targets : List PendingTransitionTarget) (target : PendingTransitionTarget)
      → In target targets
      → Sound crates targets
      → AllEither crates files targets
      → AllEither crates (insert target.path target.target_bytes files) targets
  AllEither-insert-In files [] target i _ _ = elim i [ ]
  AllEither-insert-In files (t ∷ targets) target In.here (hash, apart, sound) (h, hs) = (
    HasEither-insert_self crates files t hash,
    AllEither-insert_other crates files targets t.path t.target_bytes apart hs,
  )
  AllEither-insert-In files (t ∷ targets) target (In.there i) (hash, apart, sound) (h, hs) = (
    HasEither-insert_other crates files t target.path target.target_bytes
        (ground (arith, is_target-In target targets i, eq_iff target.path t.path)) h,
    AllEither-insert-In files targets target i sound hs,
  )

  after_write-files :
      (P : Files → Type 0) (w : Write) (target : PendingTransitionTarget) (files : Files)
      (rest : Files → Files × Check)
      → P files
      → P (insert target.path target.target_bytes files)
      → P (rest (insert target.path target.target_bytes files)).0
      → P (after_write crates workspace (write_target crates workspace w target files) rest).0
  unfolding after_write write_target
  after_write-files P Write.published target files rest p q r = r
  after_write-files P Write.unpublished target files rest p q r = p
  after_write-files P Write.published_then_failed target files rest p q r = q

  -- What each write of a target keeps, the whole loop keeps.
  pub apply_targets-files :
      (P : Files → Type 0) (call : Call) (states : List Bool)
      (targets : List PendingTransitionTarget) (files : Files)
      → ((target : PendingTransitionTarget)
          → In target targets
          → (f : Files) → P f
          → P (insert target.path target.target_bytes f))
      → P files
      → P (apply_targets crates workspace call states targets files).0
  unfolding apply_targets
  apply_targets-files P call [] targets files keep p = p
  apply_targets-files P call (true ∷ states) [] files keep p = p
  apply_targets-files P call (false ∷ states) [] files keep p = p
  apply_targets-files P call (false ∷ states) (target ∷ targets) files keep p =
      apply_targets-files P call states targets files (λ t i. keep t (In.there i)) p
  apply_targets-files P call (true ∷ states) (target ∷ targets) files keep p =
      let written = keep target In.here files p in
      after_write-files P (call.write target.path) target files
        (apply_targets crates workspace call states targets) p written
        (apply_targets-files P call states targets _ (λ t i. keep t (In.there i)) written)

  pub verify_targets-AllReached :
      (call : Call) (files : Files) (targets : List PendingTransitionTarget)
      → verify_targets crates workspace call files targets ≡ ok tt
      → AllReached crates files targets
  unfolding verify_targets
  verify_targets-AllReached call files [] h = tt
  verify_targets-AllReached call files (target ∷ targets) h =
      let (readable, h₁) =
        >>-eq-ok
          (ensure (call.is_readable_again target.path)
            (TransitionError.target_unreadable target.path))
          _ h in
      let (contents, stored, h₂) =
        >>=-eq-ok (or_fail (get files target.path) (TransitionError.target_unreadable target.path))
          _ h₁ in
      let (reached, h₃) =
        >>-eq-ok
          (ensure (transition_sha256 crates.sha256 contents == target.target_sha256)
            (TransitionError.target_not_reached target.path))
          _ h₂ in
      (
        record {
          contents = contents;
          stored = ground arith;
          reached =
              ground
                (arith, eq_iff (transition_sha256 crates.sha256 contents) target.target_sha256);
        },
        verify_targets-AllReached call files targets h₃,
      )

  -- The journal stands and every target has its text before or after, or recovery is complete.
  abbrev pub IsRecoverable : crates.Json → PendingTransition → Disk crates workspace → Type 0
  IsRecoverable contents pending disk =
      ((disk.journal ≡ some contents) × AllEither crates disk.files pending.targets)
      ⊎ ((disk.journal ≡ none) × AllReached crates disk.files pending.targets)

  remove_journal-IsRecoverable :
      (call : Call) (contents : crates.Json) (pending : PendingTransition)
      (journal : Option crates.Json) (files : Files) (r : Check)
      → journal ≡ some contents
      → AllEither crates files pending.targets
      → (r ≡ ok tt → AllReached crates files pending.targets)
      → IsRecoverable contents pending (remove_journal crates workspace call journal files r).0
  unfolding remove_journal
  remove_journal-IsRecoverable call contents pending journal files (err e) j either all =
      inl (j, either)
  remove_journal-IsRecoverable call contents pending journal files (ok _) j either all =
      if_cases (λ (r : Disk crates workspace × Check). IsRecoverable contents pending r.0)
        call.journal_removed (λ removed. inr (refl, all refl)) (λ kept. inl (j, either))

  finish_recovery-IsRecoverable :
      (call : Call) (contents : crates.Json) (pending : PendingTransition)
      (journal : Option crates.Json) (r : Files × Check)
      → journal ≡ some contents
      → AllEither crates r.0 pending.targets
      → IsRecoverable contents pending (finish_recovery crates workspace call pending journal r).0
  unfolding finish_recovery
  finish_recovery-IsRecoverable call contents pending journal (files, err e) j either =
      inl (j, either)
  finish_recovery-IsRecoverable call contents pending journal (files, ok _) j either =
      remove_journal-IsRecoverable call contents pending journal files
        (verify_targets crates workspace call files pending.targets) j either
        (verify_targets-AllReached call files pending.targets)

  pub after_checks-disk :
      {A B : Type 0} (P : Disk crates workspace → Type 0) (disk : Disk crates workspace)
      (r : Result TransitionError A) (rest : A → Disk crates workspace × Result TransitionError B)
      → P disk
      → ((a : A) → r ≡ ok a → P (rest a).0)
      → P (after_checks crates workspace disk r rest).0
  unfolding after_checks
  after_checks-disk P disk (err e) rest before after = before
  after_checks-disk P disk (ok a) rest before after = after a refl

  apply_pending-IsRecoverable :
      (call : Call) (contents : crates.Json) (pending : PendingTransition)
      (disk : Disk crates workspace)
      → Sound crates pending.targets
      → disk.journal ≡ some contents
      → AllEither crates disk.files pending.targets
      → IsRecoverable contents pending (apply_pending crates workspace call disk pending).0
  unfolding apply_pending
  apply_pending-IsRecoverable call contents pending disk sound j either =
      after_checks-disk (IsRecoverable contents pending) disk _ _ (inl (j, either)) λ states e.
        finish_recovery-IsRecoverable call contents pending disk.journal _ j (
          apply_targets-files (λ f. AllEither crates f pending.targets) call states pending.targets
            disk.files (λ t i f h. AllEither-insert-In f pending.targets t i sound h) either)

  recover_read-IsRecoverable :
      (call : Call) (contents : crates.Json) (pending : PendingTransition)
      (disk : Disk crates workspace) (r : Result TransitionError PendingTransition)
      → ((p : PendingTransition) → r ≡ ok p → (p ≡ pending) × (disk.journal ≡ some contents))
      → Sound crates pending.targets
      → IsRecoverable contents pending disk
      → IsRecoverable contents pending (recover_read crates workspace call disk r).0
  unfolding recover_read
  recover_read-IsRecoverable call contents pending disk (err e) same sound h = h
  recover_read-IsRecoverable call contents pending disk (ok p) same sound (inr (j, reached)) =
      absurd (ground (arith, same p refl))
  recover_read-IsRecoverable call contents pending disk (ok p) same sound (inl (j, either)) =
      subst (λ x. IsRecoverable contents pending (apply_pending crates workspace call disk x).0)
        (sym (same p refl).0)
        (apply_pending-IsRecoverable call contents pending disk sound j either)

  pub read_journal-parts :
      (journal : Option crates.Json) (p : PendingTransition)
      → read_journal crates workspace journal ≡ ok p
      → (contents : crates.Json) × (journal ≡ some contents)
        × (crates.decode contents ≡ some p)
        × (validate_pending_transition_inner crates.sha256 workspace p true ≡ ok tt)
  unfolding read_journal
  read_journal-parts none p h = cc
  read_journal-parts (some contents) p h = (contents, refl, ground arith, ground arith)

  read-same :
      (call : Call) (contents : crates.Json) (pending p : PendingTransition)
      (disk : Disk crates workspace)
      → crates.decode contents ≡ some pending
      → IsRecoverable contents pending disk
      → read_pending_transition crates workspace call disk ≡ ok p
      → (p ≡ pending) × (disk.journal ≡ some contents)
  unfolding read_pending_transition
  read-same call contents pending p disk decoded h e =
      let (safe, e₁) = >>-eq-ok (ensure call.journal_path_safe TransitionError.path_refused) _ e in
      let (c, stored, decoded_p, valid) = read_journal-parts disk.journal p e₁ in
      elim h [
        | inl stands ↦ (ground (arith, stands.0), stands.0)
        | inr gone ↦ absurd (ground (arith, gone.0))
      ]

  -- Whatever the file system answers, recovery leaves the disk recoverable.
  pub recover-IsRecoverable :
      (call : Call) (contents : crates.Json) (pending : PendingTransition)
      (disk : Disk crates workspace)
      → crates.decode contents ≡ some pending
      → Sound crates pending.targets
      → IsRecoverable contents pending disk
      → IsRecoverable contents pending (recover_pending_transition crates workspace call disk).0
  unfolding recover_pending_transition
  recover-IsRecoverable call contents pending disk decoded sound h =
      recover_read-IsRecoverable call contents pending disk _
        (λ p. read-same call contents pending p disk decoded h) sound h
