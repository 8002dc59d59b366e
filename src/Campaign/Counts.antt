-- ===== src/Campaign/Counts.antt =====
-- campaign.rs (crates/zbrain/src): the counts of a run, and its next draft.
use zbrain.Prelude.{
  ℕ, suc, ◌+◌, String, true, false, ◌≡◌, ◌≢◌, refl, ◌⊎◌, inl, inr, some, List, [], ◌∷◌, ◌==◌, ok,
  arith, eq_iff, Bool-cases, length, take, if◌then◌else◌, ◌∙◌, get_elem?, All, >>=-eq-ok, >>-eq-ok,
}
use zbrain.Prelude.Int.{ℤ, pos, negsuc}
use zbrain.Clock.{Chrono}
use zbrain.Campaign.{
  CampaignDraft, CampaignState, Probes, status_pending, status_submitted,
  status_superseded_by_owner, validate_draft, validate_drafts, count_draft, count_drafts,
}

-- One of the three statuses.
abbrev pub IsKnown : CampaignDraft → Type 0
IsKnown draft =
    (draft.status ≡ status_pending)
    ⊎ ((draft.status ≡ status_submitted) ⊎ (draft.status ≡ status_superseded_by_owner))

abbrev pub IsSettled : CampaignDraft → Type 0
IsSettled draft = draft.status ≢ status_pending

-- The draft stands at the index, is pending, and none before it is.
pub record IsFirstPending (drafts : List CampaignDraft) (index : ℕ) (draft : CampaignDraft)
    : Type 0 where
  pub stands : get_elem? drafts index ≡ some draft
  pub is_pending : draft.status ≡ status_pending
  pub before : All IsSettled (take index drafts)

-- -1 where nothing is pending, and else the first pending draft, counted from `index`.
abbrev pub IsNext : ℕ → List CampaignDraft → ℤ → Type 0
IsNext index drafts next =
    (next ≡ negsuc 0) × All IsSettled drafts
    ⊎ ((i : ℕ) × (draft : CampaignDraft) × (next ≡ pos (index + i)) × IsFirstPending drafts i draft)

abbrev pub total : CampaignState → ℕ
total state = state.pending + state.submitted + state.superseded_by_owner

-- How many drafts are pending.
abbrev pub pending_count : List CampaignDraft → ℕ
pending_count [] = 0
pending_count (draft ∷ drafts) =
    if draft.status == status_pending then suc (pending_count drafts) else pending_count drafts

module _ (chrono : Chrono) where
  validate_draft-IsKnown :
      (index : ℕ) (seen : List String) (draft : CampaignDraft) {seen_now : List String}
      → validate_draft chrono index seen draft ≡ ok seen_now
      → IsKnown draft
  unfolding validate_draft
  validate_draft-IsKnown index seen draft h = ground (
    arith,
    eq_iff draft.status status_pending,
    eq_iff draft.status status_submitted,
    eq_iff draft.status status_superseded_by_owner,
  )

  pub validate_drafts-IsKnown :
      (probes : Probes) (index : ℕ) (seen : List String) (p : _) (drafts : List CampaignDraft)
      {q : _}
      → validate_drafts chrono probes index seen p drafts ≡ ok q
      → All IsKnown drafts
  unfolding validate_drafts
  validate_drafts-IsKnown probes index seen p [] h = tt
  validate_drafts-IsKnown probes index seen p (draft ∷ drafts) h =
      let (seen_now, known, rest) = >>=-eq-ok (validate_draft chrono index seen draft) _ h in
      let (spec, others) = >>-eq-ok _ _ rest in
      (
        validate_draft-IsKnown index seen draft known,
        validate_drafts-IsKnown probes (suc index) seen_now _ drafts others,
      )

count_draft-total :
    (index : ℕ) (draft : CampaignDraft) (state : CampaignState)
    → IsKnown draft
    → total (count_draft index draft state) ≡ suc (total state)
unfolding count_draft
count_draft-total index draft state k = ground (
  arith,
  eq_iff draft.status status_pending,
  eq_iff draft.status status_submitted,
  eq_iff draft.status status_superseded_by_owner,
)

pub count_drafts-total :
    (index : ℕ) (drafts : List CampaignDraft) (state : CampaignState)
    → All IsKnown drafts
    → total (count_drafts index drafts state) ≡ total state + length drafts
unfolding count_drafts
count_drafts-total index [] state known = omega arith
count_drafts-total index (draft ∷ drafts) state (k, known) = omega (
  arith,
  count_draft-total index draft state k,
  count_drafts-total (suc index) drafts (count_draft index draft state) known,
)

count_drafts-next_set :
    (index : ℕ) (drafts : List CampaignDraft) (state : CampaignState) (k : ℕ)
    → state.next_index ≡ pos k
    → (count_drafts index drafts state).next_index ≡ pos k
unfolding count_drafts count_draft
count_drafts-next_set index [] state k h = h
count_drafts-next_set index (draft ∷ drafts) state k h =
    count_drafts-next_set (suc index) drafts (count_draft index draft state) k (ground arith)

settled : (draft : CampaignDraft) → (draft.status == status_pending) ≡ false → IsSettled draft
settled draft e pending = ground (arith, eq_iff draft.status status_pending)

IsNext-later :
    (index : ℕ) (draft : CampaignDraft) (drafts : List CampaignDraft) (next : ℤ)
    → IsSettled draft
    → IsNext (suc index) drafts next
    → IsNext index (draft ∷ drafts) next
IsNext-later index draft drafts next s (inl (e, all)) = inl (e, (s, all))
IsNext-later index draft drafts next s (inr (i, found, e, f)) = inr (
  suc i,
  found,
  cc (e, shift),
  record { stands = f.stands; is_pending = f.is_pending; before = (s, f.before) },
)
  where
    shift : suc index + i ≡ index + suc i
    shift = omega arith

pub count_drafts-IsNext :
    (index : ℕ) (drafts : List CampaignDraft) (state : CampaignState)
    → state.next_index ≡ negsuc 0
    → IsNext index drafts (count_drafts index drafts state).next_index
unfolding count_drafts count_draft
count_drafts-IsNext index [] state h = inl (h, tt)
count_drafts-IsNext index (draft ∷ drafts) state h =
    elim (Bool-cases (draft.status == status_pending)) [
      | inl e ↦ inr (
        0,
        draft,
        next_here e,
        record {
          stands = refl;
          is_pending = (eq_iff draft.status status_pending).0 e;
          before = tt;
        },
      )
      | inr e ↦
          IsNext-later index draft drafts _ (settled draft e)
            (count_drafts-IsNext (suc index) drafts (count_draft index draft state) (kept e))
    ]
  where
    next_here :
        (draft.status == status_pending) ≡ true
        → (count_drafts (suc index) drafts (count_draft index draft state)).next_index
          ≡ pos (index + 0)
    next_here e = count_drafts-next_set (suc index) drafts _ (index + 0) (ground arith)

    kept :
        (draft.status == status_pending) ≡ false
        → (count_draft index draft state).next_index ≡ negsuc 0
    kept e = ground arith

pub count_drafts-run :
    (index : ℕ) (drafts : List CampaignDraft) (state : CampaignState)
    → (count_drafts index drafts state).run ≡ state.run
unfolding count_drafts count_draft
count_drafts-run index [] state = refl
count_drafts-run index (draft ∷ drafts) state =
    count_drafts-run (suc index) drafts (count_draft index draft state) ∙ ground arith

pub count_drafts-pending :
    (index : ℕ) (drafts : List CampaignDraft) (state : CampaignState)
    → (count_drafts index drafts state).pending ≡ state.pending + pending_count drafts
unfolding count_drafts count_draft
count_drafts-pending index [] state = omega arith
count_drafts-pending index (draft ∷ drafts) state =
    count_drafts-pending (suc index) drafts (count_draft index draft state) ∙ ground arith
