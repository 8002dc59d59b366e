-- ===== src/Claims/Contradictions.antt =====
-- claims.rs (crates/zbrain/src): the heuristics that find contradictions between a draft and the
-- approved claims.
pub mod Symmetric
pub mod Exact
use Prim.Native.Char.{Char, code}
use zbrain.Prelude.{
  ℕ, zero, suc, ◌-◌, ◌+◌, ◌*◌, String, Bool, true, false, not, ◌&&◌, ◌||◌, Option, none, some, List,
  [], ◌∷◌, ◌++◌, ◌==◌, if◌then◌else◌, is_empty, length, ltb, eqb,
}
use zbrain.Prelude.Text.{byte_length}
use zbrain.Prelude.Sets.{contains}
use zbrain.Ids.Generated.{concat}
use zbrain.Claims.{Claim, Contradiction}

-- The Unicode tables of the standard library.
pub record Unicode : Type 0 where
  pub to_lowercase : String → String
  pub is_alphabetic : ℕ → Bool
  pub is_numeric : ℕ → Bool

abbrev pub contradiction_negation : String
contradiction_negation = "negation"

abbrev pub contradiction_value_swap : String
contradiction_value_swap = "value_swap"

abbrev pub contradiction_status_change : String
contradiction_status_change = "status_change"

unfoldable pub negator : String → Bool
negator token =
    contains
      ("not" ∷ "no" ∷ "never" ∷ "cannot" ∷ "cant" ∷ "dont" ∷ "doesnt" ∷ "isnt" ∷ "arent" ∷ "wont"
        ∷ "without" ∷ [])
      token

unfoldable pub predicate : String → Bool
predicate token =
    contains ("is" ∷ "are" ∷ "uses" ∷ "requires" ∷ "supports" ∷ "has" ∷ "equals" ∷ "defaults" ∷ [])
      token

unfoldable pub status_word : String → Bool
status_word token =
    contains
      ("deprecated" ∷ "obsolete" ∷ "active" ∷ "current" ∷ "recommended" ∷ "rejected" ∷ "approved"
        ∷ "stable" ∷ "experimental" ∷ "required" ∷ "optional" ∷ "enabled" ∷ "disabled" ∷ [])
      token

unfoldable pub auxiliary : String → Bool
auxiliary token =
    contains
      ("do" ∷ "does" ∷ "did" ∷ "can" ∷ "will" ∷ "would" ∷ "may" ∷ "might" ∷ "with" ∷ "without"
        ∷ "also" ∷ "even" ∷ "still" ∷ [])
      token

unfoldable pub equal_token_slices : List String → List String → Bool
equal_token_slices [] [] = true
equal_token_slices (l ∷ left) (r ∷ right) = l == r && equal_token_slices left right
equal_token_slices _ _ = false

-- `token.ends_with(suffix)` for a suffix of one or two letters `s`
unfoldable pub ends_with_s : String → Bool
ends_with_s String.[] = false
ends_with_s (String.◌∷◌ c s) = if s == "" then eqb (code c) b's' else ends_with_s s

unfoldable pub ends_with_ss : String → Bool
ends_with_ss String.[] = false
ends_with_ss (String.◌∷◌ c s) = String.◌∷◌ c s == "ss" || ends_with_ss s

unfoldable pub without_last : String → String
without_last String.[] = ""
without_last (String.◌∷◌ c s) = if s == "" then "" else String.◌∷◌ c (without_last s)

unfoldable pub stem_contradiction_token : String → String
stem_contradiction_token token =
    if ltb 3 (byte_length token) && ends_with_s token && not (ends_with_ss token)
    then without_last token
    else token

-- The loop over the tokens: what is left of them, and whether one negates.
unfoldable pub normalize_contradiction_core : List String → List String × Bool
normalize_contradiction_core [] = ([], false)
normalize_contradiction_core (token ∷ tokens) =
    let rest = normalize_contradiction_core tokens in
    if negator token
    then (rest.0, true)
    else if auxiliary token
    then rest
    else (stem_contradiction_token token ∷ rest.0, rest.1)

pub record ContradictionClause : Type 0 where
  pub subject : List String
  pub verb : String
  pub object : List String

abbrev pub starts_negated : List String → Bool
starts_negated [] = false
starts_negated (token ∷ tokens) = negator token

-- The loop over the tokens, with those before the index.
unfoldable pub split_tokens : List String → List String → Option ContradictionClause
split_tokens before [] = none
split_tokens before (token ∷ tokens) =
    let later = split_tokens (before ++ token ∷ []) tokens in
    if not (predicate token)
    then later
    else if is_empty before || is_empty tokens || starts_negated tokens
    then none
    else some (record { subject = before; verb = token; object = tokens })

-- The tests on two clauses.
unfoldable pub swaps_value : Option ContradictionClause → Option ContradictionClause → Bool
swaps_value (some draft) (some approved) =
    if not (draft.verb == approved.verb)
    then false
    else if not (equal_token_slices draft.subject approved.subject)
    then false
    else not (equal_token_slices draft.object approved.object)
swaps_value _ _ = false

-- Objects of one word each, both a status, under the same subject.
unfoldable pub statuses_differ : List String → List String → Bool → Bool
statuses_differ (draft_status ∷ []) (approved_status ∷ []) same_subject =
    if not (status_word draft_status) || not (status_word approved_status)
    then false
    else same_subject && not (draft_status == approved_status)
statuses_differ _ _ same_subject = false

unfoldable pub changes_status : Option ContradictionClause → Option ContradictionClause → Bool
changes_status (some draft) (some approved) =
    statuses_differ draft.object approved.object (equal_token_slices draft.subject approved.subject)
changes_status _ _ = false

unfoldable pub with_found : Option String → List String → List String
with_found none heuristics = heuristics
with_found (some heuristic) heuristics = heuristic ∷ heuristics

module _ (unicode : Unicode) where
  abbrev pub is_word_char : Char → Bool
  is_word_char c = unicode.is_alphabetic (code c) || unicode.is_numeric (code c)

  -- The pieces of a text between other characters.
  unfoldable pub split_words : String → List String
  split_words String.[] = "" ∷ []
  split_words (String.◌∷◌ c s) =
      let rest = split_words s in
      if is_word_char c
      then elim rest [ [] ↦ String.◌∷◌ c "" ∷ [] | first ∷ others ↦ String.◌∷◌ c first ∷ others ]
      else "" ∷ rest

  unfoldable pub contradiction_tokens : String → List String
  contradiction_tokens text = not_empty (split_words (unicode.to_lowercase text))
    where
      not_empty : List String → List String
      not_empty [] = []
      not_empty (token ∷ tokens) =
          if token == "" then not_empty tokens else token ∷ not_empty tokens

  unfoldable pub detect_negation_flip : String → String → Bool
  detect_negation_flip draft_text approved_text =
      let draft_tokens = contradiction_tokens draft_text in
      let approved_tokens = contradiction_tokens approved_text in
      let draft_core = normalize_contradiction_core draft_tokens in
      let approved_core = normalize_contradiction_core approved_tokens in
      if is_empty draft_tokens || is_empty approved_tokens
      then false
      else if draft_core.1 && approved_core.1 || not draft_core.1 && not approved_core.1
      then false
      else if is_empty draft_core.0 || is_empty approved_core.0
      then false
      else equal_token_slices draft_core.0 approved_core.0

  unfoldable pub split_contradiction_clause : String → Option ContradictionClause
  split_contradiction_clause text = split_tokens [] (contradiction_tokens text)

  unfoldable pub detect_value_swap : String → String → Bool
  detect_value_swap draft_text approved_text =
      swaps_value (split_contradiction_clause draft_text) (split_contradiction_clause approved_text)

  unfoldable pub detect_status_change : String → String → Bool
  detect_status_change draft_text approved_text =
      changes_status (split_contradiction_clause draft_text)
        (split_contradiction_clause approved_text)

  unfoldable pub classify_contradiction : String → String → Option String
  classify_contradiction draft_text approved_text =
      if detect_status_change draft_text approved_text
      then some contradiction_status_change
      else if detect_negation_flip draft_text approved_text
      then some contradiction_negation
      else if detect_value_swap draft_text approved_text
      then some contradiction_value_swap
      else none

  -- The heuristics that the titles and the bodies meet.
  unfoldable pub heuristics_of : Claim → Claim → List String
  heuristics_of draft approved =
      with_found (classify_contradiction draft.title approved.title)
        (with_found (classify_contradiction draft.body approved.body) [])

abbrev pub seen_key : String → String → String
seen_key id heuristic = concat id (concat "/" heuristic)

-- The inner loop, over the heuristics in order; it returns the contradictions and those seen.
unfoldable pub report :
    String → List String → List String → List String → List Contradiction × List String
report id heuristics seen [] = ([], seen)
report id heuristics seen (heuristic ∷ order) =
    let passed = report id heuristics seen order in
    let others = report id heuristics (seen_key id heuristic ∷ seen) order in
    if not (contains heuristics heuristic) || contains seen (seen_key id heuristic)
    then passed
    else (record { claim_id = id; heuristic = heuristic } ∷ others.0, others.1)

abbrev pub heuristic_order : List String
heuristic_order =
    contradiction_status_change ∷ contradiction_negation ∷ contradiction_value_swap ∷ []

module _ (unicode : Unicode) where
  unfoldable pub detect_from : Claim → List String → List Claim → List Contradiction
  detect_from draft seen [] = []
  detect_from draft seen (approved ∷ claims) =
      let skipped = detect_from draft seen claims in
      let reported =
        report approved.id (heuristics_of unicode draft approved) seen heuristic_order in
      let others = detect_from draft reported.1 claims in
      if approved.id == draft.id then skipped else reported.0 ++ others

  unfoldable pub detect_contradictions : Claim → List Claim → List Contradiction
  detect_contradictions draft approved_claims = detect_from draft [] approved_claims
