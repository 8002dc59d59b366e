-- ===== src/Examples/Contradictions.antt =====
-- Two claims that contradict each other.
use zbrain.Prelude.{false, ◌≡◌, ◌↔◌, refl, some, [], ◌∷◌, leb}
use zbrain.Claims.{Claim, empty_claim}
use zbrain.Claims.Contradictions.{
  Unicode, classify_contradiction, detect_contradictions, detect_status_change, changes_status,
  split_contradiction_clause, split_tokens, contradiction_tokens, split_words, predicate, negator,
  statuses_differ, status_word, equal_token_slices,
}
use zbrain.Claims.Contradictions.Symmetric.{classify_contradiction-sym}
use zbrain.Claims.Contradictions.Exact.{Listed, Against, detect_contradictions_exact}

-- Words of small letters.
abbrev pub unicode : Unicode
unicode = record { to_lowercase = λ s. s; is_alphabetic = λ c. leb 97 c; is_numeric = λ c. false }

abbrev draft : Claim
draft = record empty_claim {
  id = "clm_00000000000000000000000000000001";
  title = "cache";
  body = "the cache is enabled";
}

abbrev approved : Claim
approved = record empty_claim {
  id = "clm_00000000000000000000000000000002";
  title = "cache";
  body = "the cache is disabled";
}

classify_contradiction-sym_example :
    classify_contradiction unicode "the cache is enabled" "the cache is disabled"
    ≡ classify_contradiction unicode "the cache is disabled" "the cache is enabled"
classify_contradiction-sym_example =
    classify_contradiction-sym unicode "the cache is enabled" "the cache is disabled"

detect_contradictions_exact_example :
    Listed "clm_00000000000000000000000000000002" "status_change"
      (detect_contradictions unicode draft (approved ∷ []))
    ↔ Against unicode draft "clm_00000000000000000000000000000002" "status_change" (approved ∷ [])
detect_contradictions_exact_example =
    detect_contradictions_exact unicode draft (approved ∷ []) "clm_00000000000000000000000000000002"
      "status_change"

detects :
    classify_contradiction unicode "the cache is enabled" "the cache is disabled"
    ≡ some "status_change"
unfolding classify_contradiction detect_status_change changes_status split_contradiction_clause
    split_tokens contradiction_tokens split_words predicate negator statuses_differ status_word
    equal_token_slices
detects = refl
