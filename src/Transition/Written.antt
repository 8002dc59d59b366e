-- ===== src/Transition/Written.antt =====
-- transition.rs (crates/zbrain/src): what `write_pending_transition` publishes.
use mathlib.Core.Path.{subst}
use zbrain.Prelude.Effects.{Write}
use zbrain.Prelude.{
  ℕ, String, Bool, true, false, not, ◌≡◌, refl, sym, ap, ◌∙◌, Option, none, some, List, [], ◌∷◌,
  ◌==◌, eq_iff, Result, ok, err, arith, >>-eq-ok, if_cases, ◌||◌, ◌&&◌, is_empty,
}
use zbrain.Prelude.Text.{text_le}
use zbrain.Prelude.Order.{text_le_flip}
use zbrain.Prelude.Sort.{sort_by, insert_by}
use zbrain.Transition.{
  PendingTransition, PendingTransitionTarget, TransitionError, check_target, check_order,
  check_targets, validate_pending_transition_inner, normalize_pending_transition,
}
use zbrain.Transition.Targets.{is_target}
use zbrain.Transition.Journal.{
  Crates, Call, Files, Disk, read_journal, after_checks, publish_journal, write_checks,
  write_pending_transition,
}

abbrev path_of : PendingTransitionTarget → String
path_of target = target.path

-- No path stands twice.
abbrev pub paths_differ : List PendingTransitionTarget → Bool
paths_differ [] = true
paths_differ (target ∷ targets) = not (is_target target.path targets) && paths_differ targets

is_target-insert_by :
    (q : String) (x : PendingTransitionTarget) (ts : List PendingTransitionTarget)
    → is_target q (insert_by path_of x ts) ≡ (x.path == q || is_target q ts)
unfolding insert_by
is_target-insert_by q x [] = refl
is_target-insert_by q x (t ∷ ts) = ground (arith, is_target-insert_by q x ts)

is_target-sort_by :
    (q : String) (ts : List PendingTransitionTarget)
    → is_target q (sort_by path_of ts) ≡ is_target q ts
unfolding sort_by
is_target-sort_by q [] = refl
is_target-sort_by q (t ∷ ts) =
    ground (arith, is_target-insert_by q t (sort_by path_of ts), is_target-sort_by q ts)

module _ (sha256 : List ℕ → List ℕ) where
  check_targets-cons :
      (previous : String) (t : PendingTransitionTarget) (ts : List PendingTransitionTarget)
      → check_target sha256 t ≡ ok tt
      → check_order true previous t.path ≡ ok tt
      → check_targets sha256 true t.path ts ≡ ok tt
      → check_targets sha256 true previous (t ∷ ts) ≡ ok tt
  unfolding check_targets
  check_targets-cons previous t ts h o r = rw (h, o) r

  check_targets-uncons :
      (sorted : Bool) (previous : String) (t : PendingTransitionTarget)
      (ts : List PendingTransitionTarget)
      → check_targets sha256 sorted previous (t ∷ ts) ≡ ok tt
      → (check_target sha256 t ≡ ok tt)
        × (check_order sorted previous t.path ≡ ok tt)
        × (check_targets sha256 sorted t.path ts ≡ ok tt)
  unfolding check_targets
  check_targets-uncons sorted previous t ts h =
      let (a, h₁) = >>-eq-ok (check_target sha256 t) _ h in
      let (b, h₂) = >>-eq-ok (check_order sorted previous t.path) _ h₁ in (a, b, h₂)

  above-check_order :
      (previous path : String)
      → text_le path previous ≡ false
      → check_order true previous path ≡ ok tt
  unfolding check_order
  above-check_order previous path h = ground arith

  check_targets-insert_by :
      (previous : String) (x : PendingTransitionTarget) (ts : List PendingTransitionTarget)
      → check_target sha256 x ≡ ok tt
      → check_order true previous x.path ≡ ok tt
      → is_target x.path ts ≡ false
      → check_targets sha256 true previous ts ≡ ok tt
      → check_targets sha256 true previous (insert_by path_of x ts) ≡ ok tt
  unfolding insert_by check_targets
  check_targets-insert_by previous x [] c o n h = check_targets-cons previous x [] c o refl
  check_targets-insert_by previous x (t ∷ ts) c o n h =
      let (a, b, r) = check_targets-uncons true previous t ts h in
      if_cases (λ (l : List PendingTransitionTarget). check_targets sha256 true previous l ≡ ok tt)
        (text_le x.path t.path)
        (λ le. check_targets-cons previous x (t ∷ ts) c o (
          check_targets-cons x.path t ts a
            (above-check_order x.path t.path (
              text_le_flip x.path t.path le
                (ground (arith, eq_iff x.path t.path, eq_iff t.path x.path))))
            r))
        (λ gt. check_targets-cons previous t _ a b (
          check_targets-insert_by t.path x ts c (above-check_order t.path x.path gt) (ground arith)
            r))

  check_targets-sort_by :
      (previous : String) (ts : List PendingTransitionTarget)
      → check_targets sha256 false previous ts ≡ ok tt
      → paths_differ ts ≡ true
      → check_targets sha256 true "" (sort_by path_of ts) ≡ ok tt
  unfolding sort_by check_targets check_order
  check_targets-sort_by previous [] h d = refl
  check_targets-sort_by previous (t ∷ ts) h d =
      let (a, b, r) = check_targets-uncons false previous t ts h in
      check_targets-insert_by "" t (sort_by path_of ts) a refl
        (ground (arith, is_target-sort_by t.path ts))
        (check_targets-sort_by t.path ts r (ground arith))

is_empty-insert_by :
    (x : PendingTransitionTarget) (ts : List PendingTransitionTarget)
    → is_empty (insert_by path_of x ts) ≡ false
unfolding insert_by
is_empty-insert_by x [] = refl
is_empty-insert_by x (t ∷ ts) = ground arith

is_empty-sort_by : (ts : List PendingTransitionTarget) → is_empty (sort_by path_of ts) ≡ is_empty ts
unfolding sort_by
is_empty-sort_by [] = refl
is_empty-sort_by (t ∷ ts) = is_empty-insert_by t (sort_by path_of ts)

abbrev pub sorted_targets : PendingTransition → PendingTransition
sorted_targets pending = record pending { targets = sort_by path_of pending.targets }

module _ (crates : Crates) (workspace : String) where
  sorted_targets-valid :
      (pending : PendingTransition)
      → validate_pending_transition_inner crates.sha256 workspace pending false ≡ ok tt
      → paths_differ pending.targets ≡ true
      → validate_pending_transition_inner crates.sha256 workspace (sorted_targets pending) true
        ≡ ok tt
  unfolding validate_pending_transition_inner
  sorted_targets-valid pending h d =
      let checked : check_targets crates.sha256 false "" pending.targets ≡ ok tt = ground arith in
      ground (
        arith,
        check_targets-sort_by crates.sha256 "" pending.targets checked d,
        is_empty-sort_by pending.targets,
      )

  publish_journal-ok :
      (w : Write) (pending : PendingTransition) (disk : Disk crates workspace)
      → (publish_journal crates workspace w pending disk).1 ≡ ok tt
      → (disk.journal ≡ none)
        × ((publish_journal crates workspace w pending disk).0
            ≡ record { journal = some (crates.encode pending); files = disk.files })
  unfolding publish_journal
  publish_journal-ok w pending disk h = by_journal disk.journal w disk.files h
    where
      by_journal :
          (journal : Option crates.Json) (w : Write) (files : Files)
          → (publish_journal crates workspace w pending
              (record { journal = journal; files = files })).1
            ≡ ok tt
          → (journal ≡ none)
            × ((publish_journal crates workspace w pending
                  (record { journal = journal; files = files })).0
                ≡ record { journal = some (crates.encode pending); files = files })
      by_journal (some contents) w files h = absurd (ground arith)
      by_journal none Write.published files h = (refl, refl)
      by_journal none Write.unpublished files h = absurd (ground arith)
      by_journal none Write.published_then_failed files h = absurd (ground arith)

  read_journal-encoded :
      (pending : PendingTransition)
      → validate_pending_transition_inner crates.sha256 workspace pending true ≡ ok tt
      → read_journal crates workspace (some (crates.encode pending)) ≡ ok pending
  unfolding read_journal
  read_journal-encoded pending valid = rw (crates.decode-encode pending, valid) refl

  write_checks-ok :
      (call : Call) (pending n : PendingTransition)
      → write_checks crates workspace call pending ≡ ok n
      → (validate_pending_transition_inner crates.sha256 workspace pending false ≡ ok tt)
        × (n ≡ sorted_targets pending)
  unfolding write_checks normalize_pending_transition
  write_checks-ok call pending n h = (ground arith, ground arith)

  after_checks-ok :
      {A B : Type 0} (disk : Disk crates workspace) (r : Result TransitionError A)
      (rest : A → Disk crates workspace × Result TransitionError B) {b : B}
      → (after_checks crates workspace disk r rest).1 ≡ ok b
      → (a : A) × (r ≡ ok a) × (after_checks crates workspace disk r rest ≡ rest a)
  unfolding after_checks
  after_checks-ok disk (ok a) rest h = (a, refl, refl)
  after_checks-ok disk (err e) rest h = absurd (ground arith)

  -- A write of a journal that reports success, of a transition whose targets have different paths, found
  -- no journal, changed no file, and left a journal that reads as the transition with its targets in
  -- the order of their paths.
  pub write-read :
      (call : Call) (pending : PendingTransition) (disk : Disk crates workspace)
      → (write_pending_transition crates workspace call pending disk).1 ≡ ok tt
      → paths_differ pending.targets ≡ true
      → (disk.journal ≡ none)
        × ((write_pending_transition crates workspace call pending disk).0.files ≡ disk.files)
        × (read_journal crates workspace
              (write_pending_transition crates workspace call pending disk).0.journal
            ≡ ok (sorted_targets pending))
  unfolding write_pending_transition
  write-read call pending disk h d =
      let (n, e, whole) = after_checks-ok disk (write_checks crates workspace call pending) _ h in
      let (valid, same) = write_checks-ok call pending n e in
      let (free, put) =
        publish_journal-ok call.journal_write n disk (ap (λ o. o.1) (sym whole) ∙ h) in
      let left = ap (λ o. o.0) whole ∙ put in
      let read : read_journal crates workspace (some (crates.encode n))
          ≡ ok (sorted_targets pending) =
        subst
          (λ x.
            read_journal crates workspace (some (crates.encode x)) ≡ ok (sorted_targets pending))
          (sym same)
          (read_journal-encoded (sorted_targets pending) (sorted_targets-valid pending valid d)) in
      (
        free,
        ap (λ (x : Disk crates workspace). x.files) left,
        subst
            (λ (x : Disk crates workspace).
              read_journal crates workspace x.journal ≡ ok (sorted_targets pending))
            (sym left) read,
      )
