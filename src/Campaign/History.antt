-- ===== src/Campaign/History.antt =====
-- campaign.rs (crates/zbrain/src): histories of operations on the run files and claims of a workspace.
use mathlib.Core.Path.{subst}
use zbrain.Prelude.{
  ℕ, zero, suc, String, false, ◌≡◌, refl, ap, sym, ◌∙◌, none, some, List, [], ◌∷◌, ok, map, set,
  get_elem?, is_ok, All, Result-cases, inl, inr,
}
use zbrain.Prelude.Int.{ℤ, pos}
use zbrain.Prelude.Assoc.{Assoc, insert}
use zbrain.Prelude.Effects.{Write, after_checks-ok, after_step-ok}
use zbrain.Ids.Generated.{new_campaign_run_id}
use zbrain.Claims.{Claim}
use zbrain.Campaign.{
  CampaignSpec, CampaignDraft, CampaignRun, CampaignError, CampaignSubmission, status_pending,
}
use zbrain.Campaign.Store.{
  Crates, ClaimDrafts, Call, Desk, Submitting, write_campaign_run_unlocked, write_run_checks,
  publish_run, begin_campaign, submit_checks, submitted_run, submitted_draft, record_submission,
  submit_campaign_draft, finish_campaign, on_runs, on_claims, submission,
}
use zbrain.Campaign.Ledger.{Ledger, none_yet, slot_of, ledger_of, Steps-trans, Steps-kept}
use zbrain.Campaign.Refines.{
  Keeps, Advances, Keeps-insert_self, read-views, read-names, submit_checks-ok, draft_at-ok,
  begin-Advances, finish-Advances, submit-Advances,
}

-- The operations that write, each with what its call meets.
pub data Op (claims : ClaimDrafts) : Type 0 where
  begin_op : Call → List CampaignSpec → Op claims
  submit_op : Call → claims.Answers → String → ℤ → String → Op claims
  finish_op : Call → String → Op claims

-- No campaign is begun whose random bytes make the id again.
abbrev pub AvoidsRun : {claims : ClaimDrafts} → String → Op claims → Type 0
AvoidsRun id (begin_op call specs) =
    (random : List ℕ) → call.random ≡ some random → new_campaign_run_id random ≡ id → ⊥
AvoidsRun id _ = Unit

get_elem?-map :
    (drafts : List CampaignDraft) (i : ℕ) {draft : CampaignDraft}
    → get_elem? drafts i ≡ some draft
    → get_elem? (map slot_of drafts) i ≡ some (slot_of draft)
get_elem?-map [] i h = cc h
get_elem?-map (d ∷ drafts) zero h = cc h
get_elem?-map (d ∷ drafts) (suc i) h = get_elem?-map drafts i h

get_elem?-set :
    (drafts : List CampaignDraft) (i : ℕ) {draft : CampaignDraft} (next : CampaignDraft)
    → get_elem? drafts i ≡ some draft
    → get_elem? (set drafts i next) i ≡ some next
get_elem?-set [] i next h = cc h
get_elem?-set (d ∷ drafts) zero next h = refl
get_elem?-set (d ∷ drafts) (suc i) next h = get_elem?-set drafts i next h

module _ (crates : Crates) (claims : ClaimDrafts) where
  unfoldable pub run_op : Op claims → Desk crates claims → Desk crates claims
  run_op (begin_op call specs) desk = record desk {
    runs = (begin_campaign crates call specs desk.runs).0;
  }
  run_op (submit_op call answers run_id index body) desk =
      (submit_campaign_draft crates claims call answers run_id index body desk).0
  run_op (finish_op call run_id) desk = record desk {
    runs = (finish_campaign crates call run_id desk.runs).0;
  }

  unfoldable pub run_ops : List (Op claims) → Desk crates claims → Desk crates claims
  run_ops [] desk = desk
  run_ops (op ∷ ops) desk = run_ops ops (run_op op desk)

  run_op-Advances :
      (op : Op claims) (id : String) (l : Ledger) (desk : Desk crates claims)
      → AvoidsRun id op
      → Keeps crates desk.runs id l
      → Advances crates id l (run_op op desk).runs
  unfolding run_op
  run_op-Advances (begin_op call specs) id l desk avoids k =
      begin-Advances crates call specs id l desk.runs avoids k
  run_op-Advances (submit_op call answers run_id index body) id l desk avoids k =
      submit-Advances crates claims call answers run_id index body id l desk k
  run_op-Advances (finish_op call run_id) id l desk avoids k =
      finish-Advances crates call run_id id l desk.runs k

  -- Whatever operations follow, none of them drawing the id of a run again, a run file that holds a
  -- run still holds one, and its ledger has come from the ledger before by steps that fill an empty
  -- slot of an open ledger or close a ledger without empty slots.
  pub run_ops-refines :
      (ops : List (Op claims)) (id : String) (l : Ledger) (desk : Desk crates claims)
      → All (AvoidsRun id) ops
      → Keeps crates desk.runs id l
      → Advances crates id l (run_ops ops desk).runs
  unfolding run_ops
  run_ops-refines [] id l desk avoids k = (l, none_yet, k)
  run_ops-refines (op ∷ ops) id l desk (avoids, others) k =
      let (mid, first, held) = run_op-Advances op id l desk avoids k in
      let (last, rest, kept) = run_ops-refines ops id mid (run_op op desk) others held in
      (last, Steps-trans first rest, kept)

  publish_run-ok :
      (w : Write) (run : CampaignRun) (runs : Assoc crates.Json) {u : Unit}
      → (publish_run crates w run runs).1 ≡ ok u
      → (publish_run crates w run runs).0 ≡ insert run.run_id (crates.encode run) runs
  unfolding publish_run
  publish_run-ok Write.published run runs h = refl
  publish_run-ok Write.unpublished run runs h = cc
  publish_run-ok Write.published_then_failed run runs h = cc

  write_run-ok :
      (call : Call) (run : CampaignRun) (runs : Assoc crates.Json) {u : Unit}
      → (write_campaign_run_unlocked crates call run runs).1 ≡ ok u
      → (write_campaign_run_unlocked crates call run runs).0
        ≡ insert run.run_id (crates.encode run) runs
  unfolding write_campaign_run_unlocked
  write_run-ok call run runs h =
      let (u, checked, same, put) = after_checks-ok runs (write_run_checks crates call run) _ h in
      ap (λ x. x.0) same ∙ publish_run-ok call.write run runs put

  record_submission-ok :
      (call : Call) (run_id : String) (s : Submitting) (desk : Desk crates claims) (created : Claim)
      (r : CampaignSubmission)
      → (record_submission crates claims call run_id s desk created).1 ≡ ok r
      → ((record_submission crates claims call run_id s desk created).0.runs
          ≡ insert s.run.run_id
              (crates.encode (submitted_run crates call.submitted_now s created.id))
              desk.runs)
        × (r
            ≡ submission crates run_id s created
                (submitted_run crates call.submitted_now s created.id))
  unfolding record_submission on_runs submitted_run
  record_submission-ok call run_id s desk created r h =
      let (u, wrote, same, done) =
        after_step-ok
          (on_runs crates claims desk (write_campaign_run_unlocked crates call run desk.runs)) _
          h in
      (ap (λ x. x.0.runs) same ∙ write_run-ok call run desk.runs wrote, cc done)
    where
      run : CampaignRun
      run = submitted_run crates call.submitted_now s created.id

  -- What a submission that succeeds has done.
  record Submitted (call : Call) (answers : claims.Answers) (run_id : String) (index : ℤ)
      (body : String) (desk : Desk crates claims) (r : CampaignSubmission) : Type 0 where
    s : Submitting
    created : Claim
    checked : submit_checks crates call run_id index body desk.runs ≡ ok s
    stored :
        (submit_campaign_draft crates claims call answers run_id index body desk).0.runs
        ≡ insert s.run.run_id
            (crates.encode (submitted_run crates call.submitted_now s created.id))
            desk.runs
    result :
        r
        ≡ submission crates run_id s created (submitted_run crates call.submitted_now s created.id)

  submit-ok :
      (call : Call) (answers : claims.Answers) (run_id : String) (index : ℤ) (body : String)
      (desk : Desk crates claims) (r : CampaignSubmission)
      → (submit_campaign_draft crates claims call answers run_id index body desk).1 ≡ ok r
      → Submitted call answers run_id index body desk r
  unfolding submit_campaign_draft on_claims
  submit-ok call answers run_id index body desk r h =
      let (s, checked, same0, h1) =
        after_checks-ok desk (submit_checks crates call run_id index body desk.runs) _ h in
      let (u, recovers, same1, h2) =
        after_step-ok (on_claims crates claims _ desk (claims.recover answers desk.claims)) _ h1 in
      let (created, wrote, same2, h3) =
        after_step-ok
          (on_claims crates claims CampaignError.claim_refused recovered
            (claims.write_draft answers s.claim recovered.claims))
          _ h2 in
      let (stored, result) = record_submission-ok call run_id s _ created r h3 in
      record {
        s = s;
        created = created;
        checked = checked;
        stored = ap (λ x. x.0.runs) (same0 ∙ same1 ∙ same2) ∙ stored;
        result = result;
      }
    where
      recovered : Desk crates claims
      recovered = record desk { claims = (claims.recover answers desk.claims).0 }

  pending-slot : (draft : CampaignDraft) → draft.status ≡ status_pending → (slot_of draft).1 ≡ none
  pending-slot draft h = rw h refl

  -- A submission to a slot that has a claim is refused.
  filled_slot_refused :
      (call : Call) (answers : claims.Answers) (run_id : String) (index : ℤ) (i : ℕ) (body : String)
      (desk : Desk crates claims) (l : Ledger) {spec : CampaignSpec} {claim : String}
      → index ≡ pos i
      → Keeps crates desk.runs run_id l
      → get_elem? l.slots i ≡ some (spec, some claim)
      → is_ok (submit_campaign_draft crates claims call answers run_id index body desk).1 ≡ false
  filled_slot_refused call answers run_id index i body desk l {spec} {claim} named k taken =
      elim (Result-cases
        (submit_campaign_draft crates claims call answers run_id index body desk).1) [
          | inl (r, e) ↦ absurd (submits r e)
          | inr (e, refused) ↦ rw refused refl
        ]
    where
      submits :
          (r : CampaignSubmission)
          → (submit_campaign_draft crates claims call answers run_id index body desk).1 ≡ ok r
          → ⊥
      submits r e =
          let d = submit-ok call answers run_id index body desk r e in
          let (read, drafting, at, pending) =
            submit_checks-ok crates call run_id index body desk.runs d.s d.checked in
          let (same, stands) = draft_at-ok crates index d.s.run.drafts d.s.index d.s.draft at in
          let views : l ≡ ledger_of d.s.run =
            read-views crates call run_id run_id l d.s.run desk.runs k read
              (read-names crates call run_id d.s.run desk.runs read) in
          let slots : get_elem? l.slots i ≡ some (slot_of d.s.draft) =
            cc (named, views, same, get_elem?-map d.s.run.drafts d.s.index stands) in
          cc (slots, taken, pending-slot d.s.draft pending)

  -- A submission that succeeds fills its slot.
  submit-fills :
      (call : Call) (answers : claims.Answers) (run_id : String) (index : ℤ) (body : String)
      (desk : Desk crates claims) (r : CampaignSubmission)
      → (submit_campaign_draft crates claims call answers run_id index body desk).1 ≡ ok r
      → (l : Ledger) × (spec : CampaignSpec) × (index ≡ pos r.index)
        × Keeps crates
            (submit_campaign_draft crates claims call answers run_id index body desk).0.runs
            run_id
            l
        × (get_elem? l.slots r.index ≡ some (spec, some r.claim_id))
  unfolding submission submitted_run submitted_draft
  submit-fills call answers run_id index body desk r e =
      let d = submit-ok call answers run_id index body desk r e in
      let (read, drafting, at, pending) =
        submit_checks-ok crates call run_id index body desk.runs d.s d.checked in
      let (same, stands) = draft_at-ok crates index d.s.run.drafts d.s.index d.s.draft at in
      let run = submitted_run crates call.submitted_now d.s d.created.id in
      let named : d.s.run.run_id ≡ run_id = read-names crates call run_id d.s.run desk.runs read in
      let slot = get_elem?-map run.drafts d.s.index (
        get_elem?-set d.s.run.drafts d.s.index
          (submitted_draft d.s.draft d.created.id (crates.chrono.rfc3339 call.submitted_now))
          stands) in
      (
        ledger_of run,
        d.s.draft.spec,
        same ∙ ap (λ (x : CampaignSubmission). pos x.index) (sym d.result),
        subst (λ x. Keeps crates x run_id (ledger_of run)) (sym d.stored)
            (subst
              (λ x.
                Keeps crates (insert d.s.run.run_id (crates.encode run) desk.runs) x
                  (ledger_of run))
              named (Keeps-insert_self crates desk.runs run)),
        cc (slot, d.result),
      )

  -- When a submission to a draft of a run succeeds, and any operations follow of which none draws the
  -- id of the run again, the run file still has the claim that the submission reported in the slot of
  -- that draft, and every further submission to it is refused.
  pub submit_once :
      (call later : Call) (answers answers_later : claims.Answers) (run_id : String) (index : ℤ)
      (body body_later : String) (ops : List (Op claims)) (desk : Desk crates claims)
      (r : CampaignSubmission)
      → All (AvoidsRun run_id) ops
      → (submit_campaign_draft crates claims call answers run_id index body desk).1 ≡ ok r
      → ((l : Ledger) × (spec : CampaignSpec) × Keeps crates
            (run_ops ops
              (submit_campaign_draft crates claims call answers run_id index body desk).0).runs
            run_id
            l
          × (get_elem? l.slots r.index ≡ some (spec, some r.claim_id)))
        × (is_ok
              (submit_campaign_draft crates claims later answers_later run_id index body_later (
                run_ops ops
                  (submit_campaign_draft crates claims call answers run_id index body desk).0)).1
            ≡ false)
  submit_once call later answers answers_later run_id index body body_later ops desk r avoids e =
      let (l, spec, same, k, slot) = submit-fills call answers run_id index body desk r e in
      let (last, steps, kept) =
        run_ops-refines ops run_id l
          (submit_campaign_draft crates claims call answers run_id index body desk).0 avoids k in
      let taken : get_elem? last.slots r.index ≡ some (spec, some r.claim_id) =
        Steps-kept r.index steps slot in
      (
        (last, spec, kept, taken),
        filled_slot_refused later answers_later run_id index r.index body_later
            (run_ops ops
              (submit_campaign_draft crates claims call answers run_id index body desk).0)
            last same kept taken,
      )
