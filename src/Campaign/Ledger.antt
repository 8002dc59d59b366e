-- ===== src/Campaign/Ledger.antt =====
-- campaign.rs (crates/zbrain/src): a run as its owner sees it, a list of slots that claims fill and
-- that is closed at the end.
use mathlib.Core.Path.{subst}
use zbrain.Prelude.{
  sym, ℕ, zero, suc, String, Bool, true, false, ◌≡◌, Option, none, some, List, [], ◌∷◌, ◌==◌,
  eq_iff, arith, if◌then◌else◌, map, set, get_elem?, All,
}
use zbrain.Campaign.{CampaignSpec, CampaignDraft, CampaignRun, phase_finished, status_pending}
use zbrain.Campaign.Store.{submitted_draft}

-- A spec, and the claim that was made of it.
abbrev pub Slot : Type 0
Slot = CampaignSpec × Option String

pub record Ledger : Type 0 where
  pub is_closed : Bool
  pub slots : List Slot

-- One empty slot gets a claim.
pub data Fill (id : String) : List Slot → List Slot → Type 0 where
  at_head :
      {spec : CampaignSpec} {slots : List Slot}
      → Fill id ((spec, none) ∷ slots) ((spec, some id) ∷ slots)
  further :
      {slot : Slot} {before after : List Slot}
      → Fill id before after
      → Fill id (slot ∷ before) (slot ∷ after)

abbrev pub IsFilled : Slot → Type 0
IsFilled slot = (id : String) × (slot.1 ≡ some id)

-- What may happen to a ledger: a slot is filled while it is open, or it is closed when every slot is
-- filled.
pub data Step : Ledger → Ledger → Type 0 where
  fill :
      {id : String} {before after : List Slot}
      → Fill id before after
      → Step
          (record { is_closed = false; slots = before })
          (record { is_closed = false; slots = after })
  close :
      {closed : Bool} {slots : List Slot}
      → All IsFilled slots
      → Step
          (record { is_closed = closed; slots = slots })
          (record { is_closed = true; slots = slots })

pub data Steps (from : Ledger) : Ledger → Type 0 where
  none_yet : Steps from from
  and_then : {mid last : Ledger} → Steps from mid → Step mid last → Steps from last

abbrev pub slot_of : CampaignDraft → Slot
slot_of draft = (draft.spec, if draft.status == status_pending then none else some draft.claim_id)

abbrev pub ledger_of : CampaignRun → Ledger
ledger_of run = record { is_closed = run.phase == phase_finished; slots = map slot_of run.drafts }

pub Steps-trans : {a b c : Ledger} → Steps a b → Steps b c → Steps a c
Steps-trans s none_yet = s
Steps-trans s (and_then t step) = and_then (Steps-trans s t) step

Fill-kept :
    {id claim : String} {before after : List Slot} (i : ℕ) {spec : CampaignSpec}
    → Fill id before after
    → get_elem? before i ≡ some (spec, some claim)
    → get_elem? after i ≡ some (spec, some claim)
Fill-kept zero at_head h = cc h
Fill-kept (suc i) at_head h = h
Fill-kept zero (further f) h = h
Fill-kept (suc i) (further f) h = Fill-kept i f h

Step-kept :
    {a b : Ledger} (i : ℕ) {spec : CampaignSpec} {claim : String}
    → Step a b
    → get_elem? a.slots i ≡ some (spec, some claim)
    → get_elem? b.slots i ≡ some (spec, some claim)
Step-kept i (fill f) h = Fill-kept i f h
Step-kept i (close all) h = h

-- A filled slot keeps its claim.
pub Steps-kept :
    {a b : Ledger} (i : ℕ) {spec : CampaignSpec} {claim : String}
    → Steps a b
    → get_elem? a.slots i ≡ some (spec, some claim)
    → get_elem? b.slots i ≡ some (spec, some claim)
Steps-kept i none_yet h = h
Steps-kept i (and_then s step) h = Step-kept i step (Steps-kept i s h)

pending-slot :
    (d draft : CampaignDraft)
    → some d ≡ some draft
    → draft.status ≡ status_pending
    → slot_of d ≡ (draft.spec, none)
pending-slot d draft h p = ground (arith, h, eq_iff draft.status status_pending)

-- The slot of a pending draft is filled when the draft is submitted.
pub submitted-Fill :
    (id at : String) (drafts : List CampaignDraft) (i : ℕ) (draft : CampaignDraft)
    → get_elem? drafts i ≡ some draft
    → draft.status ≡ status_pending
    → Fill id (map slot_of drafts) (map slot_of (set drafts i (submitted_draft draft id at)))
unfolding submitted_draft
submitted-Fill id at [] i draft h p = cc h
submitted-Fill id at (d ∷ drafts) zero draft h p =
    subst (λ slot. Fill id (slot ∷ map slot_of drafts) ((draft.spec, some id) ∷ map slot_of drafts))
      (sym (pending-slot d draft h p)) at_head
submitted-Fill id at (d ∷ drafts) (suc i) draft h p =
    further (submitted-Fill id at drafts i draft h p)
