-- ===== src/Campaign/Resume.antt =====
-- campaign.rs (crates/zbrain/src): what is read of a run file, its counts, and its next draft.
use mathlib.Core.Path.{subst}
use zbrain.Prelude.{
  sym, ℕ, zero, suc, String, false, ◌≡◌, refl, ap, ◌∙◌, ◌↔◌, inl, inr, some, List, [], ◌∷◌, ok,
  arith, length, get_elem?, All, >>=-eq-ok, >>-eq-ok,
}
use zbrain.Prelude.Int.{pos}
use zbrain.Prelude.Assoc.{Assoc, get}
use zbrain.Campaign.{
  CampaignDraft, CampaignSpec, CampaignRun, CampaignState, validate_run_head, validate_drafts,
  validate_campaign_run_file, campaign_state_from_run,
}
use zbrain.Campaign.Store.{
  Crates, Call, read_campaign_run_unlocked, resume_campaign, next_campaign_draft, draft_of_state,
}
use zbrain.Campaign.Counts.{
  IsFirstPending, IsNext, IsSettled, IsKnown, total, pending_count, count_drafts-total,
  count_drafts-IsNext, count_drafts-run, count_drafts-pending, validate_drafts-IsKnown,
}

settled_at :
    (drafts : List CampaignDraft) (i : ℕ) {draft : CampaignDraft}
    → All IsSettled drafts
    → get_elem? drafts i ≡ some draft
    → IsSettled draft
settled_at [] i all h = cc h
settled_at (d ∷ drafts) zero (p, all) h = λ pending. p (cc (h, pending))
settled_at (d ∷ drafts) (suc i) (p, all) h = settled_at drafts i all h

IsFirstPending-unique :
    (drafts : List CampaignDraft) (i j : ℕ) {d e : CampaignDraft}
    → IsFirstPending drafts i d
    → IsFirstPending drafts j e
    → (i ≡ j) × (d ≡ e)
IsFirstPending-unique [] i j f g = cc f.stands
IsFirstPending-unique (x ∷ drafts) zero zero f g = (refl, cc (f.stands, g.stands))
IsFirstPending-unique (x ∷ drafts) zero (suc j) {d} f g =
    absurd (g.before.0 (cc (f.stands, f.is_pending)))
IsFirstPending-unique (x ∷ drafts) (suc i) zero f g =
    absurd (f.before.0 (cc (g.stands, g.is_pending)))
IsFirstPending-unique (x ∷ drafts) (suc i) (suc j) {d} {e} f g =
    let rest : (i ≡ j) × (d ≡ e) = IsFirstPending-unique drafts i j (tail f) (tail g) in
    (ap suc rest.0, rest.1)
  where
    tail :
        {n : ℕ} {y : CampaignDraft}
        → IsFirstPending (x ∷ drafts) (suc n) y
        → IsFirstPending drafts n y
    tail h = record { stands = h.stands; is_pending = h.is_pending; before = h.before.1 }

module _ (crates : Crates) (call : Call) (run_id : String) (runs : Assoc crates.Json) where
  -- What a read of a run has found.
  pub record IsRead (run : CampaignRun) : Type 0 where
    pub contents : crates.Json
    pub stored : get runs run_id ≡ some contents
    pub decoded : crates.decode contents ≡ some run
    pub is_valid : validate_campaign_run_file crates.chrono call.read_probes run run_id ≡ ok tt

  pub read_campaign_run_unlocked-IsRead :
      (run : CampaignRun) → read_campaign_run_unlocked crates call run_id runs ≡ ok run → IsRead run
  unfolding read_campaign_run_unlocked
  read_campaign_run_unlocked-IsRead run h =
      let (contents, stored, decoded, is_valid) : (contents : crates.Json) × (get runs run_id
            ≡ some contents)
          × (crates.decode contents ≡ some run)
          × (validate_campaign_run_file crates.chrono call.read_probes run run_id ≡ ok tt) =
        ground arith in
      record { contents = contents; stored = stored; decoded = decoded; is_valid = is_valid }

  valid_run-IsKnown : (run : CampaignRun) → IsRead run → All IsKnown run.drafts
  unfolding validate_campaign_run_file
  valid_run-IsKnown run r =
      let (head, rest) = >>-eq-ok (validate_run_head crates.chrono run run_id) _ r.is_valid in
      let (seen, drafts, last) =
        >>=-eq-ok (validate_drafts crates.chrono call.read_probes 0 [] false run.drafts) _ rest in
      validate_drafts-IsKnown crates.chrono call.read_probes 0 [] false run.drafts drafts

  resume-ok :
      (state : CampaignState)
      → resume_campaign crates call run_id runs ≡ ok state
      → (run : CampaignRun) × IsRead run × (state ≡ campaign_state_from_run run)
  unfolding resume_campaign
  resume-ok state h =
      let (run, found, same) : (run : CampaignRun) × (read_campaign_run_unlocked crates call run_id
              runs
            ≡ ok run)
          × (state ≡ campaign_state_from_run run) =
        ground arith in
      (run, read_campaign_run_unlocked-IsRead run found, same)

  -- What the counts of a state say of its run.
  pub record IsCounted (state : CampaignState) : Type 0 where
    pub is_read : IsRead state.run
    pub counts_all : total state ≡ length state.run.drafts
    pub counts_pending : state.pending ≡ pending_count state.run.drafts
    pub finds_next : IsNext 0 state.run.drafts state.next_index

  state-IsCounted : (run : CampaignRun) → IsRead run → IsCounted (campaign_state_from_run run)
  unfolding campaign_state_from_run
  state-IsCounted run r = record {
    is_read = rw (count_drafts-run 0 run.drafts _) r;
    counts_all =
        rw (count_drafts-run 0 run.drafts _)
          (count_drafts-total 0 run.drafts _ (valid_run-IsKnown run r) ∙ omega arith);
    counts_pending =
        rw (count_drafts-run 0 run.drafts _) (count_drafts-pending 0 run.drafts _ ∙ omega arith);
    finds_next = rw (count_drafts-run 0 run.drafts _) (count_drafts-IsNext 0 run.drafts _ refl);
  }

  -- When a run is resumed, its run is the one that the file holds, and it is valid; the drafts
  -- counted as pending, submitted and superseded by the owner are together all its drafts, as many
  -- are counted as pending as are, and the next index is -1 when none is pending and otherwise that
  -- of the first pending draft.
  pub resume-IsCounted :
      (state : CampaignState) → resume_campaign crates call run_id runs ≡ ok state → IsCounted state
  resume-IsCounted state h =
      let (run, r, same) = resume-ok state h in subst IsCounted (sym same) (state-IsCounted run r)

  found_at :
      (j : ℕ) (state : CampaignState) (found : CampaignDraft)
      → get_elem? state.run.drafts j ≡ some found
      → draft_of_state crates run_id (pos j) state ≡ ok (j, found.spec)
  unfolding draft_of_state
  found_at j state found stands = rw (draft_of_state, stands) refl

  next_reached :
      (state : CampaignState) (j : ℕ) (found : CampaignDraft)
      → resume_campaign crates call run_id runs ≡ ok state
      → state.next_index ≡ pos j
      → get_elem? state.run.drafts j ≡ some found
      → next_campaign_draft crates call run_id runs ≡ ok (j, found.spec)
  unfolding next_campaign_draft
  next_reached state j found h e stands = rw h (cc (e, found_at j state found stands))

  -- When a run is resumed, its next draft is the one at an index and with a spec exactly when the
  -- first pending draft of the run stands at that index and has that spec.
  pub next_draft_exact :
      (state : CampaignState) (i : ℕ) (spec : CampaignSpec)
      → resume_campaign crates call run_id runs ≡ ok state
      → (next_campaign_draft crates call run_id runs ≡ ok (i, spec))
        ↔ ((draft : CampaignDraft) × IsFirstPending state.run.drafts i draft × (draft.spec ≡ spec))
  unfolding next_campaign_draft draft_of_state
  next_draft_exact state i spec h = elim (resume-IsCounted state h).finds_next [
    | inl (e, all) ↦ (
      λ r. cc (h, e, r),
      λ (draft, f, s). absurd (settled_at state.run.drafts i all f.stands f.is_pending),
    )
    | inr (j, found, e, f) ↦
        let reached : next_campaign_draft crates call run_id runs ≡ ok (j, found.spec) =
          next_reached state j found h (e ∙ ap pos (omega arith)) f.stands in
        (
          λ r.
              let same : (j ≡ i) × (found.spec ≡ spec) = (cc (reached, r), cc (reached, r)) in
              (found, subst (λ n. IsFirstPending state.run.drafts n found) same.0 f, same.1),
          λ (draft, g, s).
              let (index, same) = IsFirstPending-unique state.run.drafts j i f g in
              cc (reached, index, same, s),
        )
  ]
