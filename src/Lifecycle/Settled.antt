-- ===== src/Lifecycle/Settled.antt =====
-- lifecycle.rs (crates/zbrain/src): what a commit leaves on disk, by a file or by the journal.
use mathlib.Core.Path.{subst}
use zbrain.Prelude.{ℕ, eq_iff, String, true, ◌≡◌, refl, ap, sym, ◌∙◌, Option, none, some, List, ok}
use zbrain.Prelude.Assoc.{get, insert, get-insert}
use zbrain.Prelude.Effects.{Outcome, after_checks-ok, after_step-ok}
use zbrain.Claims.{Claim, ClaimError, claim_rel_path}
use zbrain.Claims.Scan.{Text, Answers, in_wiki}
use zbrain.Claims.Store.{Workspace, claim_file_path}
use zbrain.Claims.Drafted.{claim_file_path-ok, write_claim-ok}
use zbrain.Transition.{PendingTransition}
use zbrain.Transition.Written.{paths_differ, sorted_targets}
use zbrain.Lifecycle.{ClaimMutationPlan}
use zbrain.Lifecycle.Commit.{
  Encounter, begin_write, write_existing, commit_by, commit_approve_unlocked,
  commit_revoke_unlocked,
}
use zbrain.Lifecycle.Committed.{IsCommitted, begin_write-dirty, commit_pending-IsCommitted}

module _ (text : Text) (workspace : String) where
  -- The file of a claim holds its text, and the index is marked dirty.
  pub record IsOnFile (claim : Claim) (w : Workspace text) : Type 0 where
    pub contents : List ℕ
    pub rendered : text.canon.render_claim_markdown claim ≡ ok contents
    pub stored : get w.files (in_wiki (claim_rel_path claim)) ≡ some contents
    pub is_dirty : w.control.is_dirty ≡ true

  -- A plan is on disk: its claim by a file, or its targets by the journal.
  abbrev pub IsSettled : Claim → Option PendingTransition → Workspace text → Type 0
  IsSettled claim none w = IsOnFile claim w
  IsSettled claim (some pending) w =
      paths_differ pending.targets ≡ true → IsCommitted text workspace (sorted_targets pending) w

  write_existing-IsOnFile :
      (answers : Answers) (claim : Claim) (w : Workspace text) {u : Unit}
      → w.control.is_dirty ≡ true
      → (write_existing text workspace answers claim w).1 ≡ ok u
      → IsOnFile claim (write_existing text workspace answers claim w).0
  unfolding write_existing
  write_existing-IsOnFile answers claim w dirty h =
      let (path, found, same, h1) = after_checks-ok w (claim_file_path text answers claim) _ h in
      let (contents, made, put) = write_claim-ok text answers path claim w h1 in
      let now = ap (λ (o : Outcome (Workspace text) ClaimError Unit). o.0) same ∙ put in
      subst (IsOnFile claim) (sym now) (record {
        contents = contents;
        rendered = made;
        stored =
            ap (get (insert path contents w.files))
              (sym (claim_file_path-ok text answers claim path found))
            ∙ get-insert path path contents w.files
            ∙ rw ((eq_iff path path).1 refl) refl;
        is_dirty = dirty;
      })

  commit_by-IsSettled :
      (encounter : Encounter) (claim : Claim) (pending : Option PendingTransition)
      (w : Workspace text) {u : Unit}
      → w.control.is_dirty ≡ true
      → (commit_by text workspace encounter claim pending w).1 ≡ ok u
      → IsSettled claim pending (commit_by text workspace encounter claim pending w).0
  unfolding commit_by
  commit_by-IsSettled encounter claim none w dirty h =
      write_existing-IsOnFile encounter.meets.answers claim w dirty h
  commit_by-IsSettled encounter claim (some pending) w dirty h =
      λ apart. commit_pending-IsCommitted text workspace encounter pending w apart dirty h

  -- A commit of an approval that succeeds returns the claim of the plan, which is on disk.
  pub commit_approve-IsSettled :
      (encounter : Encounter) (plan : ClaimMutationPlan) (w : Workspace text) (result : Claim)
      → (commit_approve_unlocked text workspace encounter plan w).1 ≡ ok result
      → (result ≡ plan.claim)
        × IsSettled plan.claim plan.pending
            (commit_approve_unlocked text workspace encounter plan w).0
  unfolding commit_approve_unlocked
  commit_approve-IsSettled encounter plan w result h =
      let (u, begins, same, h1) = after_step-ok (begin_write text workspace encounter w) _ h in
      let begun : Workspace text = (begin_write text workspace encounter w).0 in
      let (v, commits, same1, h2) =
        after_step-ok (commit_by text workspace encounter plan.claim plan.pending begun) _ h1 in
      (
        cc h2,
        subst
            (λ (o : Outcome (Workspace text) ClaimError Claim).
              IsSettled plan.claim plan.pending o.0)
            (sym (same ∙ same1))
            (commit_by-IsSettled encounter plan.claim plan.pending begun
              (begin_write-dirty text workspace encounter w begins) commits),
      )

  -- And so does a commit of a revocation, by the file.
  pub commit_revoke-IsOnFile :
      (encounter : Encounter) (plan : ClaimMutationPlan) (w : Workspace text) (result : Claim)
      → (commit_revoke_unlocked text workspace encounter plan w).1 ≡ ok result
      → (result ≡ plan.claim)
        × IsOnFile plan.claim (commit_revoke_unlocked text workspace encounter plan w).0
  unfolding commit_revoke_unlocked
  commit_revoke-IsOnFile encounter plan w result h =
      let (u, begins, same, h1) = after_step-ok (begin_write text workspace encounter w) _ h in
      let begun : Workspace text = (begin_write text workspace encounter w).0 in
      let (v, writes, same1, h2) =
        after_step-ok (write_existing text workspace encounter.meets.answers plan.claim begun) _
          h1 in
      (
        cc h2,
        subst (λ (o : Outcome (Workspace text) ClaimError Claim). IsOnFile plan.claim o.0)
            (sym (same ∙ same1))
            (write_existing-IsOnFile encounter.meets.answers plan.claim begun
              (begin_write-dirty text workspace encounter w begins) writes),
      )
