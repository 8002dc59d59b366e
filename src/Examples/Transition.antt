-- ===== src/Examples/Transition.antt =====
-- A transition of two files, written, cut short and recovered.
use zbrain.Prelude.Effects.{Write}
use zbrain.Prelude.{
  ℕ, String, true, false, ◌≡◌, refl, none, some, List, [], ◌∷◌, ok, err, ◌==◌, arith, length, ◌%◌,
  inl, if◌then◌else◌,
}
use zbrain.Prelude.Assoc.{get, insert}
use zbrain.Prelude.Sort.{sort_by, insert_by}
use zbrain.Prelude.Text.{trim}
use zbrain.Paths.{is_safe_workspace_name, safe_relative_path, components, normalize, path_eq}
use zbrain.Ids.{is_transition_sha256}
use zbrain.Ids.Generated.{sha256_text, hex_lower}
use zbrain.Claims.{is_known_transition_kind}
use zbrain.Transition.{
  PendingTransition, PendingTransitionTarget, TransitionError, path_text, check_order,
  transition_sha256, check_target, check_targets, validate_pending_transition_inner,
  normalize_pending_transition,
}
use zbrain.Transition.Journal.{
  Crates, Call, Disk, read_journal, read_pending_transition, publish_journal, after_checks,
  write_checks, write_pending_transition, recover_pending_transition,
}
use zbrain.Transition.Targets.{is_target, AllEither, AllReached}
use zbrain.Transition.Written.{sorted_targets, write-read}
use zbrain.Transition.Untouched.{recover-others}
use zbrain.Transition.Complete.{attempts, recovery_completes}

program : Unit {0}
unfolding get insert sort_by insert_by trim is_safe_workspace_name safe_relative_path components
    normalize path_eq is_transition_sha256 sha256_text hex_lower is_known_transition_kind path_text
    check_order transition_sha256 check_target check_targets validate_pending_transition_inner
    normalize_pending_transition read_journal publish_journal after_checks write_checks
    write_pending_transition
program = tt

-- A hash that tells the length.
abbrev hash : List ℕ → List ℕ
hash text =
    (length text % 256)
    ∷ 0
    ∷ 0
    ∷ 0
    ∷ 0
    ∷ 0
    ∷ 0
    ∷ 0
    ∷ 0
    ∷ 0
    ∷ 0
    ∷ 0
    ∷ 0
    ∷ 0
    ∷ 0
    ∷ 0
    ∷ 0
    ∷ 0
    ∷ 0
    ∷ 0
    ∷ 0
    ∷ 0
    ∷ 0
    ∷ 0
    ∷ 0
    ∷ 0
    ∷ 0
    ∷ 0
    ∷ 0
    ∷ 0
    ∷ 0
    ∷ 0
    ∷ []

abbrev pub crates : Crates
crates = record {
  Json = PendingTransition;
  sha256 = hash;
  encode = λ p. p;
  decode = some;
  decode-encode = λ p. refl;
}

abbrev target_at : String → PendingTransitionTarget
target_at path = record {
  path = path;
  preimage_sha256 = "sha256:0100000000000000000000000000000000000000000000000000000000000000";
  target_sha256 = "sha256:0200000000000000000000000000000000000000000000000000000000000000";
  target_bytes = 5 ∷ 6 ∷ [];
}

abbrev with_targets : List PendingTransitionTarget → PendingTransition
with_targets targets = record {
  operation_id = "op";
  kind = "supersede";
  workspace = "notes";
  targets = targets;
}

abbrev pending : PendingTransition
pending = with_targets (target_at "wiki/b.md" ∷ target_at "wiki/a.md" ∷ [])

abbrev pub healthy : Call
healthy = record {
  journal_path_safe = true;
  resolves = λ path. true;
  is_readable = λ path. true;
  directory_made = true;
  journal_write = Write.published;
  write = λ path. Write.published;
  is_readable_again = λ path. true;
  journal_removed = true;
}

-- The second file cannot be written.
abbrev cut_short : Call
cut_short = record healthy {
  write = λ path. if path == "wiki/b.md" then Write.unpublished else Write.published;
}

abbrev before : Disk crates "notes"
before = record {
  journal = none;
  files = ("wiki/a.md", 5 ∷ []) ∷ ("wiki/b.md", 7 ∷ []) ∷ ("wiki/c.md", 9 ∷ []) ∷ [];
}

written_ok : (write_pending_transition crates "notes" healthy pending before).1 ≡ ok tt
unfolding program
written_ok = refl

write-read_example :
    (before.journal ≡ none)
    × ((write_pending_transition crates "notes" healthy pending before).0.files ≡ before.files)
    × (read_journal crates "notes"
          (write_pending_transition crates "notes" healthy pending before).0.journal
        ≡ ok (sorted_targets pending))
write-read_example = write-read crates "notes" healthy pending before written_ok refl

abbrev journalled : Disk crates "notes"
journalled = record before {
  journal = some (with_targets (target_at "wiki/a.md" ∷ target_at "wiki/b.md" ∷ []));
}

abbrev sorted : PendingTransition
sorted = with_targets (target_at "wiki/a.md" ∷ target_at "wiki/b.md" ∷ [])

journal_reads : read_journal crates "notes" journalled.journal ≡ ok sorted
unfolding program
journal_reads = refl

either_holds : AllEither crates journalled.files sorted.targets
unfolding program
either_holds = (
  record { contents = 5 ∷ []; stored = refl; either = inl refl },
  (record { contents = 7 ∷ []; stored = refl; either = inl refl }, tt),
)

recovery_completes_example :
    ((recover_pending_transition crates "notes" healthy
        (attempts crates "notes" (cut_short ∷ []) journalled)).1
      ≡ ok tt)
    × ((recover_pending_transition crates "notes" healthy
          (attempts crates "notes" (cut_short ∷ []) journalled)).0.journal
        ≡ none)
    × AllReached crates
        (recover_pending_transition crates "notes" healthy
          (attempts crates "notes" (cut_short ∷ []) journalled)).0.files
        sorted.targets
recovery_completes_example =
    recovery_completes crates "notes" (cut_short ∷ []) healthy sorted journalled journal_reads
      either_holds
      (record {
        journal_path_safe = refl;
        resolves = λ path. refl;
        is_readable = λ path. refl;
        write = λ path. refl;
        is_readable_again = λ path. refl;
        journal_removed = refl;
      })

not_named :
    (p : PendingTransition)
    → read_pending_transition crates "notes" cut_short journalled ≡ ok p
    → is_target "wiki/c.md" p.targets ≡ false
unfolding program read_pending_transition
not_named p h = ground arith

recover-others_example :
    get (recover_pending_transition crates "notes" cut_short journalled).0.files "wiki/c.md"
    ≡ get journalled.files "wiki/c.md"
recover-others_example = recover-others crates "notes" cut_short journalled "wiki/c.md" not_named

-- Two targets with one path, apart in the list: the journal is written, and no read accepts it.
abbrev repeated : PendingTransition
repeated = with_targets (target_at "wiki/a.md" ∷ target_at "wiki/b.md" ∷ target_at "wiki/a.md" ∷ [])

repeated_is_written : (write_pending_transition crates "notes" healthy repeated before).1 ≡ ok tt
unfolding program
repeated_is_written = refl

repeated_is_unreadable :
    read_journal crates "notes"
      (write_pending_transition crates "notes" healthy repeated before).0.journal
    ≡ err (TransitionError.target_duplicated "wiki/a.md")
unfolding program
repeated_is_unreadable = refl
