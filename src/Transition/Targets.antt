-- ===== src/Transition/Targets.antt =====
-- transition.rs (crates/zbrain/src): the targets of a valid journal, and the files before and after.
use mathlib.Core.Path.{subst}
use zbrain.Prelude.{
  ℕ, String, Bool, true, false, ◌≡◌, refl, sym, some, List, [], ◌∷◌, ◌==◌, eq_iff, ok, arith, ◌⊎◌,
  inl, inr, Bool-cases, >>-eq-ok, ◌||◌, is_ok,
}
use zbrain.Prelude.Text.{text_le}
use zbrain.Prelude.Order.{text_lt_trans}
use text.Mathlib.TextPositions.{compare_refl}
use zbrain.Prelude.Assoc.{get, insert, get-insert}
use zbrain.Paths.{safe_relative_path}
use zbrain.Paths.Safe.{safe_relative_path-names}
use zbrain.Transition.{
  PendingTransition, PendingTransitionTarget, transition_sha256, check_target, check_order,
  check_targets, validate_pending_transition_inner,
}
use zbrain.Transition.Journal.{Crates, Files}

abbrev pub is_target : String → List PendingTransitionTarget → Bool
is_target path [] = false
is_target path (target ∷ targets) = target.path == path || is_target path targets

module _ (crates : Crates) where
  -- The file of a target has the text before or the text after.
  pub record HasEither (files : Files) (target : PendingTransitionTarget) : Type 0 where
    pub contents : List ℕ
    pub stored : get files target.path ≡ some contents
    pub either :
        (transition_sha256 crates.sha256 contents ≡ target.preimage_sha256)
        ⊎ (transition_sha256 crates.sha256 contents ≡ target.target_sha256)

  -- The file of a target has the text after.
  pub record IsReached (files : Files) (target : PendingTransitionTarget) : Type 0 where
    pub contents : List ℕ
    pub stored : get files target.path ≡ some contents
    pub reached : transition_sha256 crates.sha256 contents ≡ target.target_sha256

  abbrev pub AllEither : Files → List PendingTransitionTarget → Type 0
  AllEither files [] = Unit
  AllEither files (target ∷ targets) = HasEither files target × AllEither files targets

  abbrev pub AllReached : Files → List PendingTransitionTarget → Type 0
  AllReached files [] = Unit
  AllReached files (target ∷ targets) = IsReached files target × AllReached files targets

  -- What a valid journal says of its targets: the bytes have the target's hash, and the paths differ.
  abbrev pub Sound : List PendingTransitionTarget → Type 0
  Sound [] = Unit
  Sound (target ∷ targets) =
      (transition_sha256 crates.sha256 target.target_bytes ≡ target.target_sha256)
      × (is_target target.path targets ≡ false)
      × Sound targets

  pub HasEither-insert_other :
      (files : Files) (target : PendingTransitionTarget) (path : String) (b : List ℕ)
      → (path == target.path) ≡ false
      → HasEither files target
      → HasEither (insert path b files) target
  HasEither-insert_other files target path b other h = record {
    contents = h.contents;
    stored = rw (get-insert path target.path b files, other) h.stored;
    either = h.either;
  }

  pub AllEither-insert_other :
      (files : Files) (targets : List PendingTransitionTarget) (path : String) (b : List ℕ)
      → is_target path targets ≡ false
      → AllEither files targets
      → AllEither (insert path b files) targets
  AllEither-insert_other files [] path b other h = tt
  AllEither-insert_other files (target ∷ targets) path b other (h, hs) = (
    HasEither-insert_other files target path b
        (ground (arith, eq_iff path target.path, eq_iff target.path path)) h,
    AllEither-insert_other files targets path b (ground arith) hs,
  )

  pub HasEither-insert_self :
      (files : Files) (target : PendingTransitionTarget)
      → transition_sha256 crates.sha256 target.target_bytes ≡ target.target_sha256
      → HasEither (insert target.path target.target_bytes files) target
  HasEither-insert_self files target h = record {
    contents = target.target_bytes;
    stored =
        rw
          (
            get-insert target.path target.path target.target_bytes files,
            (eq_iff target.path target.path).1 refl,
          )
          refl;
    either = inr h;
  }

  pub IsReached-insert_other :
      (files : Files) (target : PendingTransitionTarget) (path : String) (b : List ℕ)
      → (path == target.path) ≡ false
      → IsReached files target
      → IsReached (insert path b files) target
  IsReached-insert_other files target path b other h = record {
    contents = h.contents;
    stored = rw (get-insert path target.path b files, other) h.stored;
    reached = h.reached;
  }

  pub IsReached-insert_self :
      (files : Files) (target : PendingTransitionTarget)
      → transition_sha256 crates.sha256 target.target_bytes ≡ target.target_sha256
      → IsReached (insert target.path target.target_bytes files) target
  IsReached-insert_self files target h = record {
    contents = target.target_bytes;
    stored =
        rw
          (
            get-insert target.path target.path target.target_bytes files,
            (eq_iff target.path target.path).1 refl,
          )
          refl;
    reached = h;
  }

  check_target-hash :
      (target : PendingTransitionTarget)
      → check_target crates.sha256 target ≡ ok tt
      → (transition_sha256 crates.sha256 target.target_bytes ≡ target.target_sha256)
        × ((target.path == "") ≡ false)
  unfolding check_target
  check_target-hash target h =
      let safe : is_ok (safe_relative_path target.path) ≡ true = ground arith in
      (
        ground (
          arith,
          eq_iff (transition_sha256 crates.sha256 target.target_bytes) target.target_sha256,
        ),
        ((safe_relative_path-names target.path).0 safe).0,
      )

  check_order-lt :
      (previous path : String)
      → (previous == "") ≡ false
      → check_order true previous path ≡ ok tt
      → text_le path previous ≡ false
  unfolding check_order
  check_order-lt previous path h e = ground arith

  lt_apart : (p q : String) → text_le p q ≡ false → (p == q) ≡ false
  lt_apart p q h = elim (Bool-cases (p == q)) [
    | inl e ↦
        let here : text_le p p ≡ false =
          subst (λ x. text_le p x ≡ false) (sym ((eq_iff p q).0 e)) h in
        ground (arith, compare_refl p)
    | inr e ↦ e
  ]

  -- Behind a path, sorted targets have greater paths.
  is_target-greater :
      (q previous : String) (targets : List PendingTransitionTarget)
      → (previous == "") ≡ false
      → text_le previous q ≡ false
      → check_targets crates.sha256 true previous targets ≡ ok tt
      → is_target q targets ≡ false
  unfolding check_targets
  is_target-greater q previous [] h lt e = refl
  is_target-greater q previous (target ∷ targets) h lt e =
      let (checked, e₁) = >>-eq-ok (check_target crates.sha256 target) _ e in
      let (ordered, e₂) = >>-eq-ok (check_order true previous target.path) _ e₁ in
      let above =
        text_lt_trans target.path previous q (check_order-lt previous target.path h ordered) lt in
      let rest =
        is_target-greater q target.path targets (check_target-hash target checked).1 above e₂ in
      ground (arith, lt_apart target.path q above)

  is_target-behind :
      (path : String) (targets : List PendingTransitionTarget)
      → (path == "") ≡ false
      → check_targets crates.sha256 true path targets ≡ ok tt
      → is_target path targets ≡ false
  unfolding check_targets
  is_target-behind path [] h e = refl
  is_target-behind path (target ∷ targets) h e =
      let (checked, e₁) = >>-eq-ok (check_target crates.sha256 target) _ e in
      let (ordered, e₂) = >>-eq-ok (check_order true path target.path) _ e₁ in
      let above = check_order-lt path target.path h ordered in
      let rest =
        is_target-greater path target.path targets (check_target-hash target checked).1 above e₂ in
      ground (arith, lt_apart target.path path above)

  check_targets-Sound :
      (previous : String) (targets : List PendingTransitionTarget)
      → check_targets crates.sha256 true previous targets ≡ ok tt
      → Sound targets
  unfolding check_targets
  check_targets-Sound previous [] e = tt
  check_targets-Sound previous (target ∷ targets) e =
      let (checked, e₁) = >>-eq-ok (check_target crates.sha256 target) _ e in
      let (ordered, e₂) = >>-eq-ok (check_order true previous target.path) _ e₁ in
      let (hash, named) = check_target-hash target checked in
      (
        hash,
        is_target-behind target.path targets named e₂,
        check_targets-Sound target.path targets e₂,
      )

  pub valid-Sound :
      (workspace : String) (pending : PendingTransition)
      → validate_pending_transition_inner crates.sha256 workspace pending true ≡ ok tt
      → Sound pending.targets
  unfolding validate_pending_transition_inner
  valid-Sound workspace pending h = check_targets-Sound "" pending.targets (ground arith)
