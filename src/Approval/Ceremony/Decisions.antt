-- ===== src/Approval/Ceremony/Decisions.antt =====
-- approval.rs (crates/zbrain/src): the checks of `grant_items` on the owner's decisions.
use zbrain.Prelude.{◌+◌, String, List, [], ◌∷◌, ok, ◌>>◌, ensure, refuse_if, is_empty, eqb, length}
use zbrain.Prelude.Sets.{contains}
use zbrain.Approval.{Challenge, ChallengeError}
use zbrain.Approval.Record.{Check, item_ids}

-- The loop over the granted ids.
unfoldable pub check_granted : List String → List String → List String → Check
check_granted bound seen [] = ok tt
check_granted bound seen (id ∷ ids) = do
  ensure (contains bound id) (ChallengeError.granted_unbound id)
  refuse_if (contains seen id) (ChallengeError.granted_twice id)
  check_granted bound (id ∷ seen) ids

-- The loop over the skipped ids.
unfoldable pub check_skipped : List String → List String → List String → List String → Check
check_skipped bound granted seen [] = ok tt
check_skipped bound granted seen (id ∷ ids) = do
  ensure (contains bound id) (ChallengeError.skipped_unbound id)
  refuse_if (contains granted id) (ChallengeError.granted_and_skipped id)
  refuse_if (contains seen id) (ChallengeError.skipped_twice id)
  check_skipped bound granted (id ∷ seen) ids

unfoldable pub check_grant_decisions : Challenge → List String → List String → Check
unfolding check_granted check_skipped
check_grant_decisions c granted skipped = do
  check_granted (item_ids c.items) [] granted
  check_skipped (item_ids c.items) granted [] skipped
  ensure (eqb (length granted + length skipped) (length c.items))
      ChallengeError.decisions_incomplete
  refuse_if (is_empty granted) ChallengeError.nothing_granted
