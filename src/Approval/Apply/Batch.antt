-- ===== src/Approval/Apply/Batch.antt =====
-- approval.rs (crates/zbrain/src): `apply_challenge_batch`, and the making of a batch challenge.
use zbrain.Prelude.{
  String, Option, none, some, List, [], ◌∷◌, Result, ok, err, ◌>>=◌, ◌>>◌, refuse_if, map_err,
  is_empty, if◌then◌else◌,
}
use zbrain.Prelude.Effects.{Outcome, after_checks, after_step}
use zbrain.Prelude.Sets.{contains}
use zbrain.Claims.{Claim, ClaimError}
use zbrain.Claims.Scan.{Text, Answers}
use zbrain.Claims.Scan as Wiki
use zbrain.Claims.Store.{Workspace}
use zbrain.Lifecycle.{
  ClaimMutationOptions, Evidence, prepare_approve_unlocked, canonical_digest_unlocked,
}
use zbrain.Lifecycle.Commit.{Encounter, commit_approve_unlocked}
use zbrain.Approval.{Challenge, ChallengeItem}
use zbrain.Approval.Ceremony.{
  Crates, Call, empty_challenge, read_challenge, validate_token, consume, prepare_batch,
}
use zbrain.Approval.Apply.{
  ApplyError, by_claim, by_challenge, Office, check_authorization, check_bound,
  validate_challenge_against_claim, on_challenges, under_lock, or_current,
}

pub record BatchApplyItemResult : Type 0 where
  pub claim_id : String
  pub status : String
  pub path : String
  pub error : Option ApplyError

pub record BatchApplyResult : Type 0 where
  pub challenge_id : String
  pub items : List BatchApplyItemResult

-- What is known of an item before the token is consumed.
pub data Judgement : Type 0 where
  skipped validated : Judgement
  failed : ApplyError → Judgement

unfoldable pub judged_by : Result ApplyError (Unit {0}) → Judgement
judged_by (ok valid) = validated
judged_by (err e) = failed e

abbrev pub skipped_result : String → BatchApplyItemResult
skipped_result id = record { claim_id = id; status = "skipped"; path = ""; error = none }

abbrev pub failed_result : String → ApplyError → BatchApplyItemResult
failed_result id e = record { claim_id = id; status = "failed"; path = ""; error = some e }

unfoldable pub item_result : String → Result ApplyError Claim → BatchApplyItemResult
item_result id (err e) = failed_result id e
item_result id (ok claim) = record {
  claim_id = id;
  status = "applied";
  path = claim.path;
  error = none;
}

module _ (text : Text) (crates : Crates) (workspace : String) where
  -- The challenge to approve one item.
  unfoldable pub item_challenge : String → ChallengeItem → Challenge
  item_challenge id item = record empty_challenge {
    id = id;
    workspace = workspace;
    operation = "approve";
    claim_id = item.claim_id;
    canonical_draft_digest = item.canonical_draft_digest;
  }

  -- The first loop.
  unfoldable pub judge_items :
      Answers → Wiki.Files → Challenge → List ChallengeItem → List (ChallengeItem × Judgement)
  judge_items answers files challenge [] = []
  judge_items answers files challenge (item ∷ items) =
      (
        item,
        if contains challenge.skipped_items item.claim_id
            then skipped
            else judged_by (
                check_bound text crates workspace answers files (item_challenge challenge.id item)),
      )
      ∷ judge_items answers files challenge items

  -- The loop's body after the consumption; an item meets its own answers.
  unfoldable pub apply_item :
      Evidence
      → Encounter
      → ClaimMutationOptions
      → String
      → Workspace text
      → Outcome (Workspace text) ClaimError Claim
  apply_item evidence encounter options id w =
      after_checks w
        (prepare_approve_unlocked text workspace evidence encounter.meets w.files id options)
        (λ plan. commit_approve_unlocked text workspace encounter plan w)

  -- The second loop, with the results of both.
  unfoldable pub apply_items :
      Evidence
      → (String → Encounter)
      → ClaimMutationOptions
      → List (ChallengeItem × Judgement)
      → Workspace text
      → Workspace text × List BatchApplyItemResult
  apply_items evidence encounters options [] w = (w, [])
  apply_items evidence encounters options ((item, skipped) ∷ items) w =
      let (now, results) = apply_items evidence encounters options items w in
      (now, skipped_result item.claim_id ∷ results)
  apply_items evidence encounters options ((item, failed e) ∷ items) w =
      let (now, results) = apply_items evidence encounters options items w in
      (now, failed_result item.claim_id e ∷ results)
  apply_items evidence encounters options ((item, validated) ∷ items) w =
      let (applied, result) =
        apply_item evidence (encounters item.claim_id) options item.claim_id w in
      let (now, results) = apply_items evidence encounters options items applied in
      (now, item_result item.claim_id (map_err by_claim result) ∷ results)

  -- What `apply_challenge_batch` does before it looks at the items.
  unfoldable pub batch_checks :
      Call
      → String
      → String
      → ClaimMutationOptions
      → Office text crates
      → Result ApplyError Challenge
  batch_checks call challenge_id token options office = do
    challenge ←
        map_err by_challenge (read_challenge crates workspace call challenge_id office.challenges)
    refuse_if (is_empty challenge.items) ApplyError.not_a_batch
    map_err by_challenge (validate_token crates workspace call.now challenge token)
    check_authorization options.authorization challenge
    ok challenge

  unfoldable pub apply_batch_unlocked :
      Evidence
      → Encounter
      → (String → Encounter)
      → Call
      → Call
      → String
      → String
      → ClaimMutationOptions
      → Office text crates
      → Outcome (Office text crates) ApplyError BatchApplyResult
  apply_batch_unlocked evidence encounter encounters call consumption challenge_id token options
        office =
      after_checks office (batch_checks call challenge_id token options office) (λ challenge.
        let items =
          judge_items encounter.meets.answers office.wiki.files challenge challenge.items in
        after_step
          (on_challenges text crates workspace office
            (consume crates workspace consumption challenge.id token office.challenges))
          (λ spent done.
            let (wiki, results) = apply_items evidence encounters options items spent.wiki in
            (
              record spent { wiki = wiki },
              ok (record { challenge_id = challenge.id; items = results }),
            )))

  unfoldable pub apply_challenge_batch :
      Evidence
      → Encounter
      → (String → Encounter)
      → Call
      → Call
      → String
      → String
      → ClaimMutationOptions
      → Office text crates
      → Outcome (Office text crates) ApplyError BatchApplyResult
  apply_challenge_batch evidence encounter encounters call consumption challenge_id token options =
      under_lock text crates workspace encounter (
        apply_batch_unlocked evidence encounter encounters call consumption challenge_id token
          options)

  -- The loop over the items of a batch that is made.
  unfoldable pub bound_items :
      Answers → Wiki.Files → List ChallengeItem → Result ApplyError (List ChallengeItem)
  bound_items answers files [] = ok []
  bound_items answers files (item ∷ items) = do
    current ←
        map_err by_claim (canonical_digest_unlocked text workspace answers files item.claim_id)
    let bound = record item {
      canonical_draft_digest =
          or_current text crates workspace item.canonical_draft_digest current.1;
    }
    validate_challenge_against_claim text crates workspace answers files
        (record (item_challenge "batch" bound) { claim_id = current.0.id }) current.0 current.1
    others ← bound_items answers files items
    ok (bound ∷ others)

  unfoldable pub prepare_batch_challenge :
      Encounter
      → Call
      → List ChallengeItem
      → Office text crates
      → Outcome (Office text crates) ApplyError Challenge
  prepare_batch_challenge encounter call items =
      under_lock text crates workspace encounter (λ office.
        after_checks office (bound_items encounter.meets.answers office.wiki.files items) (λ bound.
          on_challenges text crates workspace office
            (prepare_batch crates workspace call bound office.challenges)))
