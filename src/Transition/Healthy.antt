-- ===== src/Transition/Healthy.antt =====
-- transition.rs (crates/zbrain/src): the loops of recovery where the file system answers yes throughout.
use mathlib.Core.Path.{subst}
use zbrain.Prelude.Effects.{Write}
use zbrain.Prelude.{
  ℕ, String, Bool, true, false, ◌≡◌, refl, sym, List, [], ◌∷◌, ◌==◌, eq_iff, ok, arith, inl, inr,
  Bool-cases,
}
use zbrain.Prelude.Assoc.{insert}
use zbrain.Transition.{PendingTransitionTarget, Check, transition_sha256}
use zbrain.Transition.Targets.{
  is_target, HasEither, IsReached, AllEither, AllReached, Sound, IsReached-insert_other,
  IsReached-insert_self,
}
use zbrain.Transition.Journal.{
  Crates, Call, Files, target_state, target_states, write_target, after_write, apply_targets,
  verify_targets,
}

-- The file system answers yes throughout.
pub record IsHealthy (call : Call) : Type 0 where
  pub journal_path_safe : call.journal_path_safe ≡ true
  pub resolves : (path : String) → call.resolves path ≡ true
  pub is_readable : (path : String) → call.is_readable path ≡ true
  pub write : (path : String) → call.write path ≡ Write.published
  pub is_readable_again : (path : String) → call.is_readable_again path ≡ true
  pub journal_removed : call.journal_removed ≡ true

module _ (crates : Crates) (workspace : String) where
  -- A target that is not to be written is reached.
  abbrev pub Fit : Files → List Bool → List PendingTransitionTarget → Type 0
  Fit files [] [] = Unit
  Fit files (b ∷ bs) (t ∷ ts) = (b ≡ false → IsReached crates files t) × Fit files bs ts
  Fit files _ _ = ⊥

  Fit-insert_other :
      (files : Files) (states : List Bool) (targets : List PendingTransitionTarget) (path : String)
      (b : List ℕ)
      → is_target path targets ≡ false
      → Fit files states targets
      → Fit (insert path b files) states targets
  Fit-insert_other files [] [] path b other h = tt
  Fit-insert_other files (x ∷ xs) [] path b other h = elim h [ ]
  Fit-insert_other files [] (t ∷ ts) path b other h = elim h [ ]
  Fit-insert_other files (x ∷ xs) (t ∷ ts) path b other (h, hs) = (
    λ e.
        IsReached-insert_other crates files t path b
          (ground (arith, eq_iff path t.path, eq_iff t.path path)) (h e),
    Fit-insert_other files xs ts path b (ground arith) hs,
  )

  module _ (call : Call) (healthy : IsHealthy call) where
    target_state-ok :
        (files : Files) (t : PendingTransitionTarget)
        → HasEither crates files t
        → (b : Bool) × (target_state crates workspace call files t ≡ ok b)
          × (b ≡ false → IsReached crates files t)
    unfolding target_state
    target_state-ok files t h =
        let current = transition_sha256 crates.sha256 h.contents in
        elim (Bool-cases (current == t.target_sha256)) [
          | inl e ↦ (
            false,
            rw (healthy.resolves t.path, healthy.is_readable t.path, h.stored, e) refl,
            λ f. record {
              contents = h.contents;
              stored = h.stored;
              reached = (eq_iff current t.target_sha256).0 e;
            },
          )
          | inr e ↦
              let before : (current == t.preimage_sha256) ≡ true = ground (
                arith,
                h.either,
                eq_iff current t.target_sha256,
                eq_iff current t.preimage_sha256,
              ) in
              (
                true,
                rw (healthy.resolves t.path, healthy.is_readable t.path, h.stored, e, before) refl,
                λ f. cc,
              )
        ]

    pub target_states-ok :
        (files : Files) (ts : List PendingTransitionTarget)
        → AllEither crates files ts
        → (states : List Bool) × (target_states crates workspace call files ts ≡ ok states)
          × Fit files states ts
    unfolding target_states
    target_states-ok files [] h = ([], refl, tt)
    target_states-ok files (t ∷ ts) (h, hs) =
        let (b, e, fit) = target_state-ok files t h in
        let (states, es, fits) = target_states-ok files ts hs in
        (b ∷ states, rw (e, es) refl, (fit, fits))

    -- A reached target stays so while others are written.
    apply_targets-keeps :
        (files : Files) (states : List Bool) (ts : List PendingTransitionTarget)
        (t : PendingTransitionTarget)
        → is_target t.path ts ≡ false
        → IsReached crates files t
        → IsReached crates (apply_targets crates workspace call states ts files).0 t
    unfolding apply_targets after_write write_target
    apply_targets-keeps files [] ts t other h = h
    apply_targets-keeps files (true ∷ states) [] t other h = h
    apply_targets-keeps files (false ∷ states) [] t other h = h
    apply_targets-keeps files (false ∷ states) (u ∷ ts) t other h =
        apply_targets-keeps files states ts t (ground arith) h
    apply_targets-keeps files (true ∷ states) (u ∷ ts) t other h = rw (healthy.write u.path) (
        apply_targets-keeps (insert u.path u.target_bytes files) states ts t (ground arith)
          (IsReached-insert_other crates files t u.path u.target_bytes (ground arith) h))

    -- A target that is to be written is written, and the loop goes on.
    apply_targets-written :
        (files : Files) (states : List Bool) (t : PendingTransitionTarget)
        (ts : List PendingTransitionTarget)
        → apply_targets crates workspace call (true ∷ states) (t ∷ ts) files
          ≡ apply_targets crates workspace call states ts (insert t.path t.target_bytes files)
    unfolding apply_targets after_write write_target
    apply_targets-written files states t ts = rw (healthy.write t.path) refl

    pub apply_targets-AllReached :
        (files : Files) (states : List Bool) (ts : List PendingTransitionTarget)
        → Sound crates ts
        → Fit files states ts
        → ((apply_targets crates workspace call states ts files).1 ≡ ok tt)
          × AllReached crates (apply_targets crates workspace call states ts files).0 ts
    unfolding apply_targets after_write write_target
    apply_targets-AllReached files [] [] s h = (refl, tt)
    apply_targets-AllReached files (x ∷ xs) [] s h = elim h [ ]
    apply_targets-AllReached files [] (t ∷ ts) s h = elim h [ ]
    apply_targets-AllReached files (false ∷ states) (t ∷ ts) (hash, apart, s) (h, hs) =
        let (e, all) = apply_targets-AllReached files states ts s hs in
        (e, (apply_targets-keeps files states ts t apart (h refl), all))
    apply_targets-AllReached files (true ∷ states) (t ∷ ts) (hash, apart, s) (h, hs) =
        let (e, all) =
          apply_targets-AllReached (insert t.path t.target_bytes files) states ts s
            (Fit-insert_other files states ts t.path t.target_bytes apart hs) in
        subst (λ (r : Files × Check). (r.1 ≡ ok tt) × AllReached crates r.0 (t ∷ ts))
          (sym (apply_targets-written files states t ts))
          (
            e,
            (
              apply_targets-keeps (insert t.path t.target_bytes files) states ts t apart
                  (IsReached-insert_self crates files t hash),
              all,
            ),
          )

    pub verify_targets-ok :
        (files : Files) (ts : List PendingTransitionTarget)
        → AllReached crates files ts
        → verify_targets crates workspace call files ts ≡ ok tt
    unfolding verify_targets
    verify_targets-ok files [] h = refl
    verify_targets-ok files (t ∷ ts) (h, hs) =
        rw
          (
            healthy.is_readable_again t.path,
            h.stored,
            (eq_iff (transition_sha256 crates.sha256 h.contents) t.target_sha256).1 h.reached,
          )
          (verify_targets-ok files ts hs)
