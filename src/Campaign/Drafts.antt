-- ===== src/Campaign/Drafts.antt =====
-- campaign.rs and claims.rs (crates/zbrain/src): the store of claims as a submission uses it.
use zbrain.Prelude.{String, ◌≡◌, ok, map_err}
use zbrain.Prelude.Effects.{Outcome}
use zbrain.Claims.{Claim, ClaimError}
use zbrain.Claims.Scan.{Text, Answers}
use zbrain.Claims.Store.{Workspace, write_draft_unlocked}
use zbrain.Claims.Drafted.{write_draft-IsWritten}
use zbrain.Coordination
use zbrain.Transition.Journal
use zbrain.Transition.Mutation.{recover_pending_transition_for_mutation}
use zbrain.Campaign.{CampaignError}
use zbrain.Campaign.Store.{ClaimDrafts}

-- What the recovery and the write of a draft meet.
pub record DraftAnswers : Type 0 where
  pub recovery_mutation : Coordination.Call
  pub recovery : Journal.Call
  pub answers : Answers

module _ (text : Text) (workspace : String) where
  unfoldable pub recover_for_draft :
      DraftAnswers → Workspace text → Outcome (Workspace text) CampaignError (Unit {0})
  recover_for_draft a w =
      let (now, result) =
        recover_pending_transition_for_mutation text.journals text.generations workspace
          a.recovery_mutation a.recovery w in
      (now, map_err (λ e. CampaignError.recovery_failed) result)

  unfoldable pub write_for_draft :
      DraftAnswers → Claim → Workspace text → Outcome (Workspace text) ClaimError Claim
  write_for_draft a claim w = write_draft_unlocked text workspace a.answers claim w

  pub written_is_draft :
      (a : DraftAnswers) (claim : Claim) (w : Workspace text) (created : Claim)
      → (write_for_draft a claim w).1 ≡ ok created
      → (created.id ≡ claim.id) × (created.status ≡ "draft")
  unfolding write_for_draft
  written_is_draft a claim w created h =
      let k = write_draft-IsWritten text workspace a.answers claim w created h in
      (k.keeps_id, k.is_draft)

  abbrev pub claim_drafts : ClaimDrafts
  claim_drafts = record {
    Claims = Workspace text;
    Answers = DraftAnswers;
    recover = recover_for_draft;
    write_draft = write_for_draft;
    write_draft-id = λ a claim w created h. written_is_draft a claim w created h;
  }
