-- ===== src/Approval/Partition.antt =====
-- approval.rs (crates/zbrain/src): the owner's decisions on the items of a batch.
use zbrain.Prelude.{
  ℕ, suc, ◌+◌, ◌≤◌, String, true, false, ◌&&◌, ◌||◌, ◌≡◌, refl, ◌∙◌, ap, List, [], ◌∷◌, ◌++◌, ◌==◌,
  eq_iff, ok, ensure, refuse_if, arith, length, is_empty, if◌then◌else◌, >>-eq-ok, length-append,
  inl, inr, Bool-cases,
}
use zbrain.Prelude.Sets.{contains, distinct, contains-append, contains_self}
use zbrain.Clock.{Chrono}
use zbrain.Approval.RecordLaws.{valid-decisions}
use zbrain.Approval.{Challenge, ChallengeItem, ChallengeError}
use zbrain.Approval.Record.{
  item_ids, check_decided, validate_challenge_item_decisions, validate_challenge_record,
}

-- The list without the first place of a text.
abbrev drop_one : String → List String → List String
drop_one s [] = []
drop_one s (x ∷ xs) = if x == s then xs else x ∷ drop_one s xs

length-drop_one :
    (s : String) (xs : List String)
    → contains xs s ≡ true
    → length xs ≡ suc (length (drop_one s xs))
length-drop_one s [] h = cc
length-drop_one s (x ∷ xs) h = ground (arith, length-drop_one s xs)

contains-drop_one :
    (s t : String) (xs : List String)
    → (s == t) ≡ false
    → contains (drop_one s xs) t ≡ contains xs t
contains-drop_one s t [] h = refl
contains-drop_one s t (x ∷ xs) h =
    ground (arith, contains-drop_one s t xs, eq_iff x s, eq_iff x t, eq_iff s t)

-- As many different texts of a list as it has places are all its texts.
all_taken :
    (xs ys : List String) (t : String)
    → distinct xs ≡ true
    → ((s : String) → contains xs s ≡ true → contains ys s ≡ true)
    → length ys ≤ length xs
    → contains ys t ≡ true
    → contains xs t ≡ true
all_taken [] [] t d sub le h = h
all_taken [] (y ∷ ys) t d sub le h = absurd (omega arith)
all_taken (x ∷ xs) ys t d sub le h =
    let shorter = length-drop_one x ys (sub x (contains_self x xs)) in
    elim (Bool-cases (x == t)) [
      | inl e ↦ ground arith
      | inr e ↦
          let rest =
            all_taken xs (drop_one x ys) t (ground arith) (drop_one-sub x xs ys sub (ground arith))
              (omega arith) (contains-drop_one x t ys e ∙ h) in
          ground arith
    ]
  where
    drop_one-sub :
        (x : String) (xs ys : List String)
        → ((s : String) → contains (x ∷ xs) s ≡ true → contains ys s ≡ true)
        → contains xs x ≡ false
        → (s : String) → contains xs s ≡ true
        → contains (drop_one x ys) s ≡ true
    drop_one-sub x xs ys sub fresh s m =
        let apart : (x == s) ≡ false = ground (arith, eq_iff x s) in
        contains-drop_one x s ys apart ∙ sub s (ground arith)

-- The loop over the decisions lets only different bound texts through.
check_decided-seen :
    (bound seen decided : List String) (s : String)
    → check_decided bound seen decided ≡ ok tt
    → contains seen s ≡ true
    → contains decided s ≡ false
unfolding check_decided
check_decided-seen bound seen [] s h m = refl
check_decided-seen bound seen (id ∷ ids) s h m =
    let (a, h₁) = >>-eq-ok (ensure (contains bound id) (ChallengeError.decision_unbound id)) _ h in
    let (b, h₂) =
      >>-eq-ok (refuse_if (contains seen id) (ChallengeError.decision_repeated id)) _ h₁ in
    ground (arith, check_decided-seen bound (id ∷ seen) ids s h₂, eq_iff id s)

check_decided-distinct :
    (bound seen decided : List String)
    → check_decided bound seen decided ≡ ok tt
    → (distinct decided ≡ true)
      × ((s : String) → contains decided s ≡ true → contains bound s ≡ true)
unfolding check_decided
check_decided-distinct bound seen [] h = (refl, λ s m. cc)
check_decided-distinct bound seen (id ∷ ids) h =
    let (a, h₁) = >>-eq-ok (ensure (contains bound id) (ChallengeError.decision_unbound id)) _ h in
    let (b, h₂) =
      >>-eq-ok (refuse_if (contains seen id) (ChallengeError.decision_repeated id)) _ h₁ in
    let (d, sub) = check_decided-distinct bound (id ∷ seen) ids h₂ in
    let fresh = check_decided-seen bound (id ∷ seen) ids id h₂ (contains_self id seen) in
    (ground arith, λ s m. ground (arith, sub s, eq_iff id s))

distinct-append :
    (xs ys : List String) (t : String)
    → distinct (xs ++ ys) ≡ true
    → contains xs t ≡ true
    → contains ys t ≡ false
distinct-append [] ys t d m = cc
distinct-append (x ∷ xs) ys t d m =
    ground (arith, distinct-append xs ys t, contains-append xs ys x, eq_iff x t)

length-item_ids : (items : List ChallengeItem) → length (item_ids items) ≡ length items
length-item_ids [] = refl
length-item_ids (item ∷ items) = ap suc (length-item_ids items)

-- In a valid granted record of a batch, a claim is bound exactly when it is granted or skipped, and none
-- is both.
pub granted_partition :
    (chrono : Chrono) (sha256 : List ℕ → List ℕ) (workspace : String) (c : Challenge) (t : String)
    → validate_challenge_record chrono sha256 workspace c ≡ ok tt
    → c.granted ≡ true
    → is_empty c.items ≡ false
    → (contains (item_ids c.items) t ≡ (contains c.granted_items t || contains c.skipped_items t))
      × ((contains c.granted_items t && contains c.skipped_items t) ≡ false)
unfolding validate_challenge_item_decisions
granted_partition chrono sha256 workspace c t v granted batch =
    let decided = c.granted_items ++ c.skipped_items in
    let h = valid-decisions chrono sha256 workspace c v batch in
    let each : check_decided (item_ids c.items) [] decided ≡ ok tt = ground arith in
    let counted : length c.granted_items + length c.skipped_items ≡ length c.items = ground arith in
    let (d, sub) = check_decided-distinct (item_ids c.items) [] decided each in
    let le : length (item_ids c.items) ≤ length decided =
      omega (arith, length-item_ids c.items, length-append c.granted_items c.skipped_items) in
    (
      ground (
        arith,
        sub t,
        all_taken decided (item_ids c.items) t d sub le,
        contains-append c.granted_items c.skipped_items t,
      ),
      ground (arith, distinct-append c.granted_items c.skipped_items t d),
    )
