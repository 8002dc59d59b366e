-- ===== src/Claims/Drafted.antt =====
-- claims.rs (crates/zbrain/src): what `write_draft_unlocked` writes, and what it leaves alone.
use mathlib.Core.Path.{subst}
use zbrain.Prelude.{
  ℕ, String, ◌≡◌, ◌≢◌, refl, ap, sym, ◌∙◌, Option, none, some, List, [], ◌∷◌, ◌==◌, ok, eq_iff,
  arith, Bool-cases, inl, inr, >>=-eq-ok, >>-eq-ok, refuse_if, ensure, leb, length,
}
use zbrain.Prelude.Assoc.{get, insert, get-insert}
use zbrain.Prelude.Effects.{Write, Outcome, after_checks-ok, after_step-ok}
use zbrain.Claims.{Claim, ClaimError, claim_rel_path}
use zbrain.Claims.Validate.{validate_claim}
use zbrain.Claims.Contradictions.{detect_contradictions}
use zbrain.Claims.Scan.{Text, Answers, Files, in_wiki}
use zbrain.Claims.Store.{
  Workspace, read, read_canonical_claims_by_id, only_match, existing_draft, first_match, as_draft,
  approved_claims_for_contradictions, claim_file_path, placed_draft, draft_checks, publish_claim,
  rendered, write_claim_atomic, write_draft_unlocked,
}
use zbrain.Transition.Mutation.{begin_mutation}

module _ (text : Text) where
  pub claim_file_path-ok :
      (answers : Answers) (claim : Claim) (path : String)
      → claim_file_path text answers claim ≡ ok path
      → path ≡ in_wiki (claim_rel_path claim)
  unfolding claim_file_path
  claim_file_path-ok answers claim path h = ground arith

  -- What is placed of a claim is the claim, at its path.
  record IsPlaced (claim : Claim) (existing : Option Claim) (placed : Claim × String) : Type 0 where
    path : String
    is_claim : placed.0 ≡ record claim { path = path }
    at_path : placed.1 ≡ in_wiki (claim_rel_path placed.0)
    over_draft : (old : Claim) → existing ≡ some old → old.status ≡ "draft"

  placed_draft-IsPlaced :
      (answers : Answers) (claim : Claim) (existing : Option Claim) (placed : Claim × String)
      → placed_draft text answers claim existing ≡ ok placed
      → IsPlaced claim existing placed
  unfolding placed_draft
  placed_draft-IsPlaced answers claim none placed h =
      let (path, found, same) = >>=-eq-ok (claim_file_path text answers claim) _ h in
      let e : (claim, path) ≡ placed = cc same in
      record {
        path = claim.path;
        is_claim = sym (ap (λ (p : Claim × String). p.0) e);
        at_path =
            sym (ap (λ (p : Claim × String). p.1) e)
            ∙ claim_file_path-ok answers claim path found
            ∙ ap (λ (p : Claim × String). in_wiki (claim_rel_path p.0)) e;
        over_draft = λ old f. cc f;
      }
  placed_draft-IsPlaced answers claim (some existing) placed h =
      let (draft, h1) =
        >>-eq-ok
          (ensure (existing.status == "draft") (ClaimError.not_a_draft claim.id existing.status)) _
          h in
      let put = record claim { path = existing.path } in
      let (path, found, same) = >>=-eq-ok (claim_file_path text answers put) _ h1 in
      let e : (put, path) ≡ placed = cc same in
      record {
        path = existing.path;
        is_claim = sym (ap (λ (p : Claim × String). p.0) e);
        at_path =
            sym (ap (λ (p : Claim × String). p.1) e)
            ∙ claim_file_path-ok answers put path found
            ∙ ap (λ (p : Claim × String). in_wiki (claim_rel_path p.0)) e;
        over_draft = λ old f. was_draft existing old draft f;
      }
    where
      was_draft :
          (existing old : Claim)
          → ensure (existing.status == "draft") (ClaimError.not_a_draft claim.id existing.status)
            ≡ ok tt
          → some existing ≡ some old
          → old.status ≡ "draft"
      was_draft existing old draft f = ground (arith, eq_iff existing.status "draft")

  -- What the checks of a draft have found, and where it goes.
  record IsChecked (answers : Answers) (files : Files) (given : Claim) (placed : Claim × String)
      : Type 0 where
    claim : Claim
    matches : List Claim
    existing : Option Claim
    is_valid : validate_claim text.chrono (as_draft text given) ≡ ok tt
    approved : List Claim
    is_draft : claim ≡ record (as_draft text given) {
      contradicts = detect_contradictions text.unicode (as_draft text given) approved;
    }
    was_read : read_canonical_claims_by_id text answers files given.id ≡ ok matches
    chosen : existing_draft text answers files given.id given.path matches ≡ ok existing
    is_placed : IsPlaced claim existing placed

  draft_checks-IsChecked :
      (answers : Answers) (files : Files) (given : Claim) (placed : Claim × String)
      → draft_checks text answers files given ≡ ok placed
      → IsChecked answers files given placed
  unfolding draft_checks as_draft
  draft_checks-IsChecked answers files given placed h =
      let (valid, h1) = >>-eq-ok (validate_claim text.chrono (as_draft text given)) _ h in
      let (approved, a, h2) =
        >>=-eq-ok (approved_claims_for_contradictions text answers files) _ h1 in
      let claim = record (as_draft text given) {
        contradicts = detect_contradictions text.unicode (as_draft text given) approved;
      } in
      let (path, p, h3) = >>=-eq-ok (claim_file_path text answers claim) _ h2 in
      let (matches, m, h4) =
        >>=-eq-ok (read_canonical_claims_by_id text answers files given.id) _ h3 in
      let (single, h5) =
        >>-eq-ok (refuse_if (leb 2 (length matches)) (ClaimError.duplicate_canonical_id given.id)) _
          h4 in
      let (existing, e, h6) =
        >>=-eq-ok (existing_draft text answers files given.id given.path matches) _ h5 in
      record {
        claim = claim;
        matches = matches;
        existing = existing;
        is_valid = valid;
        approved = approved;
        is_draft = refl;
        was_read = m;
        chosen = e;
        is_placed = placed_draft-IsPlaced answers claim existing placed h6;
      }

  -- A claim that was read alone under the id is the one that the draft replaces.
  replaces :
      (answers : Answers) (files : Files) (id : String) (matches : List Claim)
      (existing : Option Claim) (old : Claim)
      → read_canonical_claims_by_id text answers files id ≡ ok matches
      → existing_draft text answers files id "" matches ≡ ok existing
      → read text answers files id ≡ ok old
      → existing ≡ some old
  unfolding existing_draft read only_match
  replaces answers files id matches existing old m chosen r =
      let (found, f, only) = >>=-eq-ok (read_canonical_claims_by_id text answers files id) _ r in
      let same : found ≡ matches = cc (f, m) in
      sole matches existing old (cc chosen) (subst (λ x. only_match text id x ≡ ok old) same only)
    where
      sole :
          (matches : List Claim) (existing : Option Claim) (old : Claim)
          → first_match text matches ≡ existing
          → only_match text id matches ≡ ok old
          → existing ≡ some old
      sole [] existing old f o = cc o
      sole (claim ∷ []) existing old f o = cc (f, o)
      sole (claim ∷ other ∷ claims) existing old f o = cc o

  publish_claim-ok :
      (write : Write) (path : String) (contents : List ℕ) (w : Workspace text) {u : Unit}
      → (publish_claim text write path contents w).1 ≡ ok u
      → (publish_claim text write path contents w).0
        ≡ record w { files = insert path contents w.files }
  unfolding publish_claim
  publish_claim-ok Write.published path contents w h = refl
  publish_claim-ok Write.unpublished path contents w h = cc
  publish_claim-ok Write.published_then_failed path contents w h = cc

  other_file :
      (p q : String) (contents : List ℕ) (files : Files)
      → p ≢ q
      → get (insert p contents files) q ≡ get files q
  other_file p q contents files apart = elim (Bool-cases (p == q)) [
    | inl e ↦ absurd (apart ((eq_iff p q).0 e))
    | inr e ↦ rw (get-insert p q contents files, e) refl
  ]

  -- The workspace after a claim has been written.
  pub write_claim-ok :
      (answers : Answers) (path : String) (claim : Claim) (w : Workspace text) {u : Unit}
      → (write_claim_atomic text answers path claim w).1 ≡ ok u
      → (contents : List ℕ) × (text.canon.render_claim_markdown claim ≡ ok contents)
        × ((write_claim_atomic text answers path claim w).0
            ≡ record w { files = insert path contents w.files })
  unfolding write_claim_atomic rendered
  write_claim-ok answers path claim w h =
      let (contents, made, same, put) = after_checks-ok w (rendered text answers claim) _ h in
      (
        contents,
        rendered-ok answers claim contents made,
        ap (λ (o : Outcome (Workspace text) ClaimError Unit). o.0) same
            ∙ publish_claim-ok (answers.write path) path contents w put,
      )
    where
      rendered-ok :
          (answers : Answers) (claim : Claim) (contents : List ℕ)
          → rendered text answers claim ≡ ok contents
          → text.canon.render_claim_markdown claim ≡ ok contents
      rendered-ok answers claim contents h = ground arith

  module _ (workspace : String) (answers : Answers) (given : Claim) (w : Workspace text) where
    -- What a draft that was written is, and what was left alone.
    pub record IsWritten (created : Claim) (now : Workspace text) : Type 0 where
      pub is_valid : validate_claim text.chrono (as_draft text given) ≡ ok tt
      pub is_draft : created.status ≡ "draft"
      pub is_unsigned : created.verified_digest ≡ ""
      pub keeps_id : created.id ≡ given.id
      pub keeps_body : created.body ≡ given.body
      pub leaves_others :
          (path : String) → path ≢ in_wiki created.path → get now.files path ≡ get w.files path
      pub leaves_journal : now.journal ≡ w.journal
      pub spares :
          given.path ≡ ""
          → (old : Claim) → read text answers w.files given.id ≡ ok old
          → old.status ≡ "draft"

    begin_mutation-files :
        ((begin_mutation text.journals text.generations workspace ClaimError.mutation_refused
            answers.mutation w).0.files
          ≡ w.files)
        × ((begin_mutation text.journals text.generations workspace ClaimError.mutation_refused
              answers.mutation w).0.journal
            ≡ w.journal)
    unfolding begin_mutation
    begin_mutation-files = (refl, refl)

    -- A draft that is written was valid as a draft, is an unsigned draft with the id and the body given,
    -- changes no file but its own and not the journal; and where no path was asked for, the one claim
    -- read under its id, if there was one, was a draft.
    pub write_draft-IsWritten :
        (created : Claim)
        → (write_draft_unlocked text workspace answers given w).1 ≡ ok created
        → IsWritten created (write_draft_unlocked text workspace answers given w).0
    unfolding write_draft_unlocked as_draft
    write_draft-IsWritten created h =
        let (placed, checked, same0, h1) =
          after_checks-ok w (draft_checks text answers w.files given) _ h in
        let begin =
          begin_mutation text.journals text.generations workspace ClaimError.mutation_refused
            answers.mutation w in
        let (u, began, same1, h2) = after_step-ok begin _ h1 in
        let (v, wrote, same2, h3) =
          after_step-ok (write_claim_atomic text answers placed.1 placed.0 begin.0) _ h2 in
        let (contents, shown, put) = write_claim-ok answers placed.1 placed.0 begin.0 wrote in
        let now : (write_draft_unlocked text workspace answers given w).0
            ≡ record begin.0 { files = insert placed.1 contents begin.0.files } =
          ap (λ (o : Outcome (Workspace text) ClaimError Claim). o.0) (same0 ∙ same1 ∙ same2)
          ∙ put in
        let c = draft_checks-IsChecked answers w.files given placed checked in
        let result : record placed.0 { path = claim_rel_path placed.0 } ≡ created = cc h3 in
        let made : placed.0 ≡ record (as_draft text given) {
          contradicts = detect_contradictions text.unicode (as_draft text given) c.approved;
          path = c.is_placed.path;
        } =
          c.is_placed.is_claim
          ∙ ap (λ (x : Claim). record x { path = c.is_placed.path }) c.is_draft in
        let at : placed.1 ≡ in_wiki created.path =
          c.is_placed.at_path ∙ ap (λ (x : Claim). in_wiki x.path) result in
        record {
          is_valid = c.is_valid;
          is_draft = sym (ap (λ (x : Claim). x.status) result) ∙ ap (λ (x : Claim). x.status) made;
          is_unsigned =
              sym (ap (λ (x : Claim). x.verified_digest) result)
              ∙ ap (λ (x : Claim). x.verified_digest) made;
          keeps_id = sym (ap (λ (x : Claim). x.id) result) ∙ ap (λ (x : Claim). x.id) made;
          keeps_body = sym (ap (λ (x : Claim). x.body) result) ∙ ap (λ (x : Claim). x.body) made;
          leaves_others = λ path other.
              ap (λ (x : Workspace text). get x.files path) now
              ∙ other_file placed.1 path contents begin.0.files (λ e. other (sym e ∙ at))
              ∙ ap (λ files. get files path) begin_mutation-files.0;
          leaves_journal = ap (λ (x : Workspace text). x.journal) now ∙ begin_mutation-files.1;
          spares = λ no_path old r. c.is_placed.over_draft old (
              replaces answers w.files given.id c.matches c.existing old c.was_read
                (subst
                  (λ p. existing_draft text answers w.files given.id p c.matches ≡ ok c.existing)
                  no_path c.chosen)
                r);
        }
