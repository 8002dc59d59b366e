-- ===== src/Campaign/Refines.antt =====
-- campaign.rs (crates/zbrain/src): the operations on run files as steps of a ledger.
use mathlib.Core.Path.{subst}
use zbrain.Prelude.{
  ℕ, String, false, ◌≡◌, refl, ap, sym, ◌∙◌, some, List, [], ◌∷◌, ◌==◌, eq_iff, arith, inl, inr,
  Bool-cases, ok, map, >>-eq-ok, refuse_if-eq-ok, get_elem?, All,
}
use zbrain.Prelude.Int.{ℤ, pos, negsuc}
use zbrain.Prelude.Assoc.{Assoc, get, insert, get-insert}
use zbrain.Prelude.Effects.{Write, after_checks_cases, after_step_cases}
use zbrain.Ids.Generated.{new_campaign_run_id}
use zbrain.Claims.{Claim}
use zbrain.Campaign.{
  CampaignSpec, CampaignDraft, CampaignRun, CampaignError, status_pending, phase_drafting,
  phase_finished, validate_campaign_run_file, validate_run_head,
}
use zbrain.Campaign.Store.{
  Crates, ClaimDrafts, Call, Desk, Submitting, read_campaign_run_unlocked,
  write_campaign_run_unlocked, write_run_checks, publish_run, begin_checks, begin_campaign,
  submit_checks, submitted_run, record_submission, submit_campaign_draft, finish_checks,
  finish_campaign, check_none_pending, draft_at, on_claims, on_runs, new_run,
}
use zbrain.Campaign.Resume.{read_campaign_run_unlocked-IsRead}
use zbrain.Campaign.Ledger.{
  Ledger, Step, Steps, IsFilled, none_yet, and_then, fill, close, slot_of, ledger_of,
  submitted-Fill,
}

module _ (crates : Crates) where
  -- A run file holds a run with this ledger.
  pub record Keeps (runs : Assoc crates.Json) (id : String) (ledger : Ledger) : Type 0 where
    pub contents : crates.Json
    pub run : CampaignRun
    pub stored : get runs id ≡ some contents
    pub decoded : crates.decode contents ≡ some run
    pub views : ledger_of run ≡ ledger

  -- After some steps, a run file holds a run with their last ledger.
  abbrev pub Advances : String → Ledger → Assoc crates.Json → Type 0
  Advances id before runs = (after : Ledger) × Steps before after × Keeps runs id after

  pub Keeps-insert_self :
      (runs : Assoc crates.Json) (run : CampaignRun)
      → Keeps (insert run.run_id (crates.encode run) runs) run.run_id (ledger_of run)
  Keeps-insert_self runs run = record {
    contents = crates.encode run;
    run = run;
    stored =
        rw
          (
            get-insert run.run_id run.run_id (crates.encode run) runs,
            (eq_iff run.run_id run.run_id).1 refl,
          )
          refl;
    decoded = crates.decode-encode run;
    views = refl;
  }

  Keeps-insert_other :
      (runs : Assoc crates.Json) (id j : String) (b : crates.Json) (l : Ledger)
      → (j == id) ≡ false
      → Keeps runs id l
      → Keeps (insert j b runs) id l
  Keeps-insert_other runs id j b l other k = record {
    contents = k.contents;
    run = k.run;
    stored = rw (get-insert j id b runs, other) k.stored;
    decoded = k.decoded;
    views = k.views;
  }

  -- A write leaves the files or puts the run under its own id.
  write_run-cases :
      (P : Assoc crates.Json → Type 0) (call : Call) (run : CampaignRun) (runs : Assoc crates.Json)
      → P runs
      → P (insert run.run_id (crates.encode run) runs)
      → P (write_campaign_run_unlocked crates call run runs).0
  unfolding write_campaign_run_unlocked publish_run
  write_run-cases P call run runs before after =
      after_checks_cases P runs (write_run_checks crates call run) _ before
        λ u e. published call.write
    where
      published : (w : Write) → P (publish_run crates w run runs).0
      published Write.published = after
      published Write.unpublished = before
      published Write.published_then_failed = after

  -- A write of a run that follows the stored one by steps advances every ledger.
  write_run-Advances :
      (id : String) (l : Ledger) (call : Call) (run : CampaignRun) (runs : Assoc crates.Json)
      → Advances id l runs
      → (run.run_id ≡ id → Steps l (ledger_of run))
      → Advances id l (write_campaign_run_unlocked crates call run runs).0
  write_run-Advances id l call run runs before follows =
      write_run-cases (Advances id l) call run runs before (elim (Bool-cases (run.run_id == id)) [
        | inl same ↦
            let here = (eq_iff run.run_id id).0 same in
            (
              ledger_of run,
              follows here,
              subst (λ x. Keeps (insert run.run_id (crates.encode run) runs) x (ledger_of run)) here
                  (Keeps-insert_self runs run),
            )
        | inr other ↦ (
          before.0,
          before.1,
          Keeps-insert_other runs id run.run_id (crates.encode run) before.0 other before.2,
        )
      ])

  -- A run that is read has the id of its file.
  pub read-names :
      (call : Call) (id : String) (run : CampaignRun) (runs : Assoc crates.Json)
      → read_campaign_run_unlocked crates call id runs ≡ ok run
      → run.run_id ≡ id
  unfolding validate_campaign_run_file validate_run_head
  read-names call id run runs r = ground (
    arith,
    (read_campaign_run_unlocked-IsRead crates call id runs run r).is_valid,
    eq_iff run.run_id id,
  )

  -- What a read has found is what the file keeps.
  pub read-views :
      (call : Call) (id j : String) (l : Ledger) (run : CampaignRun) (runs : Assoc crates.Json)
      → Keeps runs j l
      → read_campaign_run_unlocked crates call id runs ≡ ok run
      → run.run_id ≡ j
      → l ≡ ledger_of run
  read-views call id j l run runs k r named =
      let found = read_campaign_run_unlocked-IsRead crates call id runs run r in
      let here : id ≡ j = sym (read-names call id run runs r) ∙ named in
      let stored : get runs j ≡ some found.contents =
        subst (λ x. get runs x ≡ some found.contents) here found.stored in
      let same : k.run ≡ run = ground (arith, k.stored, k.decoded, stored, found.decoded) in
      sym k.views ∙ ap ledger_of same

  filled :
      (draft : CampaignDraft)
      → (draft.status == status_pending) ≡ false
      → (slot_of draft).1 ≡ some draft.claim_id
  filled draft h = rw h refl

  none_pending-IsFilled :
      (run_id : String) (drafts : List CampaignDraft)
      → check_none_pending run_id drafts ≡ ok tt
      → All IsFilled (map slot_of drafts)
  unfolding check_none_pending
  none_pending-IsFilled run_id [] h = tt
  none_pending-IsFilled run_id (draft ∷ drafts) h =
      let (settled, rest) = >>-eq-ok _ _ h in
      (
        (draft.claim_id, filled draft (refuse_if-eq-ok (draft.status == status_pending) _ settled)),
        none_pending-IsFilled run_id drafts rest,
      )

  finish_checks-ok :
      (call : Call) (run_id : String) (runs : Assoc crates.Json) (run : CampaignRun)
      → finish_checks crates call run_id runs ≡ ok run
      → (old : CampaignRun) × (read_campaign_run_unlocked crates call run_id runs ≡ ok old)
        × (check_none_pending run_id old.drafts ≡ ok tt)
        × (run ≡ record old { phase = phase_finished; updated_at = crates.chrono.rfc3339 call.now })
  unfolding finish_checks
  finish_checks-ok call run_id runs run h = ground arith

  pub finish-Advances :
      (call : Call) (run_id id : String) (l : Ledger) (runs : Assoc crates.Json)
      → Keeps runs id l
      → Advances id l (finish_campaign crates call run_id runs).0
  unfolding finish_campaign
  finish-Advances call run_id id l runs k =
      after_checks_cases (Advances id l) runs (finish_checks crates call run_id runs) _
        (l, none_yet, k)
        λ run e.
          after_step_cases (Advances id l) (write_campaign_run_unlocked crates call run runs) _
            (write_run-Advances id l call run runs (l, none_yet, k) (finished run e))
            λ u done. write_run-Advances id l call run runs (l, none_yet, k) (finished run e)
    where
      finished :
          (run : CampaignRun)
          → finish_checks crates call run_id runs ≡ ok run
          → run.run_id ≡ id
          → Steps l (ledger_of run)
      finished run e named =
          let (old, found, settled, same) = finish_checks-ok call run_id runs run e in
          let views : l ≡ ledger_of old =
            read-views call run_id id l old runs k found
              (sym (ap (λ (x : CampaignRun). x.run_id) same) ∙ named) in
          let closes : Step (ledger_of old) (
              ledger_of (record old {
                phase = phase_finished;
                updated_at = crates.chrono.rfc3339 call.now;
              })) =
            close (none_pending-IsFilled run_id old.drafts settled) in
          subst (λ x. Steps x (ledger_of run)) (sym views)
            (subst (λ x. Steps (ledger_of old) (ledger_of x)) (sym same) (and_then none_yet closes))

  begin_checks-id :
      (call : Call) (specs : List CampaignSpec) (run : CampaignRun)
      → begin_checks crates call specs ≡ ok run
      → (random : List ℕ) × (call.random ≡ some random) × (run.run_id ≡ new_campaign_run_id random)
  unfolding begin_checks new_run
  begin_checks-id call specs run h = ground arith

  pub begin-Advances :
      (call : Call) (specs : List CampaignSpec) (id : String) (l : Ledger)
      (runs : Assoc crates.Json)
      → ((random : List ℕ) → call.random ≡ some random → new_campaign_run_id random ≡ id → ⊥)
      → Keeps runs id l
      → Advances id l (begin_campaign crates call specs runs).0
  unfolding begin_campaign
  begin-Advances call specs id l runs avoids k =
      after_checks_cases (Advances id l) runs (begin_checks crates call specs) _ (l, none_yet, k)
        λ run e.
          after_step_cases (Advances id l) (write_campaign_run_unlocked crates call run runs) _
            (write_run-Advances id l call run runs (l, none_yet, k) (fresh run e))
            λ u done. write_run-Advances id l call run runs (l, none_yet, k) (fresh run e)
    where
      fresh :
          (run : CampaignRun)
          → begin_checks crates call specs ≡ ok run
          → run.run_id ≡ id
          → Steps l (ledger_of run)
      fresh run e named =
          let (random, drawn, same) = begin_checks-id call specs run e in
          absurd (avoids random drawn (sym same ∙ named))

  pub submit_checks-ok :
      (call : Call) (run_id : String) (index : ℤ) (body : String) (runs : Assoc crates.Json)
      (s : Submitting)
      → submit_checks crates call run_id index body runs ≡ ok s
      → (read_campaign_run_unlocked crates call run_id runs ≡ ok s.run)
        × (s.run.phase ≡ phase_drafting)
        × (draft_at index s.run.drafts ≡ some (s.index, s.draft))
        × (s.draft.status ≡ status_pending)
  unfolding submit_checks
  submit_checks-ok call run_id index body runs s h =
      ground (arith, eq_iff s.run.phase phase_drafting, eq_iff s.draft.status status_pending)

  pub draft_at-ok :
      (index : ℤ) (drafts : List CampaignDraft) (i : ℕ) (draft : CampaignDraft)
      → draft_at index drafts ≡ some (i, draft)
      → (index ≡ pos i) × (get_elem? drafts i ≡ some draft)
  unfolding draft_at
  draft_at-ok (negsuc n) drafts i draft h = cc h
  draft_at-ok (pos n) drafts i draft h = ground arith

  submitted-Steps :
      (call : Call) (run_id : String) (index : ℤ) (body : String) (runs : Assoc crates.Json)
      (s : Submitting) (claim id : String) (l : Ledger)
      → Keeps runs id l
      → submit_checks crates call run_id index body runs ≡ ok s
      → s.run.run_id ≡ id
      → Steps l (ledger_of (submitted_run crates call.submitted_now s claim))
  unfolding submitted_run
  submitted-Steps call run_id index body runs s claim id l k e named =
      let (found, drafting, at, pending) = submit_checks-ok call run_id index body runs s e in
      let opened : (s.run.phase == phase_finished) ≡ false = rw drafting refl in
      let filled_slot =
        submitted-Fill claim (crates.chrono.rfc3339 call.submitted_now) s.run.drafts s.index s.draft
          (draft_at-ok index s.run.drafts s.index s.draft at).1 pending in
      subst (λ x. Steps x (ledger_of (submitted_run crates call.submitted_now s claim)))
        (sym (read-views call run_id id l s.run runs k found named))
        (and_then none_yet (
          subst
            (λ b.
              Step (record { is_closed = b; slots = map slot_of s.run.drafts })
                (record {
                  is_closed = b;
                  slots = (ledger_of (submitted_run crates call.submitted_now s claim)).slots;
                }))
            (sym opened) (fill filled_slot)))

  module _ (claims : ClaimDrafts) where
    record-Advances :
        (call : Call) (run_id id : String) (s : Submitting) (created : Claim) (l : Ledger)
        (desk : Desk crates claims)
        → Keeps desk.runs id l
        → (s.run.run_id ≡ id
            → Steps l (ledger_of (submitted_run crates call.submitted_now s created.id)))
        → Advances id l (record_submission crates claims call run_id s desk created).0.runs
    unfolding record_submission on_runs submitted_run
    record-Advances call run_id id s created l desk k follows =
        after_step_cases (λ (d : Desk crates claims). Advances id l d.runs)
          (on_runs crates claims desk (write_campaign_run_unlocked crates call run desk.runs)) _
          written λ u done. written
      where
        run : CampaignRun
        run = submitted_run crates call.submitted_now s created.id

        written : Advances id l (write_campaign_run_unlocked crates call run desk.runs).0
        written = write_run-Advances id l call run desk.runs (l, none_yet, k) follows

    pub submit-Advances :
        (call : Call) (answers : claims.Answers) (run_id : String) (index : ℤ) (body id : String)
        (l : Ledger) (desk : Desk crates claims)
        → Keeps desk.runs id l
        → Advances id l
            (submit_campaign_draft crates claims call answers run_id index body desk).0.runs
    unfolding submit_campaign_draft on_claims
    submit-Advances call answers run_id index body id l desk k =
        after_checks_cases P desk (submit_checks crates call run_id index body desk.runs) _ still
          λ s e.
            after_step_cases P (on_claims crates claims _ desk (claims.recover answers desk.claims))
              _ still
              λ u done.
                after_step_cases P
                  (on_claims crates claims CampaignError.claim_refused (recovered)
                    (claims.write_draft answers s.claim recovered.claims))
                  (record_submission crates claims call run_id s) still
                  λ created wrote.
                    record-Advances call run_id id s created l _ k
                      (submitted-Steps call run_id index body desk.runs s created.id id l k e)
      where
        P : Desk crates claims → Type 0
        P d = Advances id l d.runs

        still : Advances id l desk.runs
        still = (l, none_yet, k)

        recovered : Desk crates claims
        recovered = record desk { claims = (claims.recover answers desk.claims).0 }
