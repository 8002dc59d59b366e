-- ===== src/Prelude/Effects.antt =====
-- Operations on a state that they return beside their result, also where they fail.
use mathlib.Core.Path.{◌≡◌, refl}
use zbrain.Prelude.Results.{Result, ok, err}

-- How a write of a file ends; what follows the rename, as `fsync` or the mode, may still fail.
pub data Write : Type 0 where
  published unpublished published_then_failed : Write

abbrev pub Outcome : Type 0 → Type 0 → Type 0 → Type 0
Outcome S E A = S × Result E A

module _ {S E A B : Type 0} where
  -- Checks that change nothing, and what follows where they pass.
  abbrev pub after_checks : S → Result E A → (A → Outcome S E B) → Outcome S E B
  after_checks s (err e) rest = (s, err e)
  after_checks s (ok a) rest = rest a

  -- A step that may change the state, and what follows where it succeeds.
  abbrev pub after_step : Outcome S E A → (S → A → Outcome S E B) → Outcome S E B
  after_step (s, err e) rest = (s, err e)
  after_step (s, ok a) rest = rest s a

  -- The steps that succeed, and in what state.
  pub after_checks-ok :
      (s : S) (checks : Result E A) (rest : A → Outcome S E B) {b : B}
      → (after_checks s checks rest).1 ≡ ok b
      → (a : A) × (checks ≡ ok a) × (after_checks s checks rest ≡ rest a) × ((rest a).1 ≡ ok b)
  after_checks-ok s (err e) rest h = cc
  after_checks-ok s (ok a) rest h = (a, refl, refl, h)

  pub after_step-ok :
      (step : Outcome S E A) (rest : S → A → Outcome S E B) {b : B}
      → (after_step step rest).1 ≡ ok b
      → (a : A) × (step.1 ≡ ok a)
        × (after_step step rest ≡ rest step.0 a)
        × ((rest step.0 a).1 ≡ ok b)
  after_step-ok (s, err e) rest h = cc
  after_step-ok (s, ok a) rest h = (a, refl, refl, h)

  -- What holds of the state with and without the rest holds after both.
  pub after_checks_cases :
      (P : S → Type 0) (s : S) (checks : Result E A) (rest : A → Outcome S E B)
      → P s
      → ((a : A) → checks ≡ ok a → P (rest a).0)
      → P (after_checks s checks rest).0
  after_checks_cases P s (err e) rest p q = p
  after_checks_cases P s (ok a) rest p q = q a refl

  pub after_step_cases :
      (P : S → Type 0) (step : Outcome S E A) (rest : S → A → Outcome S E B)
      → P step.0
      → ((a : A) → step.1 ≡ ok a → P (rest step.0 a).0)
      → P (after_step step rest).0
  after_step_cases P (s, err e) rest p q = p
  after_step_cases P (s, ok a) rest p q = q a refl

  -- What holds where the checks fail and where they pass holds of the whole, with its result.
  pub after_checks_outcome :
      (Q : Outcome S E B → Type 0) (s : S) (checks : Result E A) (rest : A → Outcome S E B)
      → ((e : E) → checks ≡ err e → Q (s, err e))
      → ((a : A) → checks ≡ ok a → Q (rest a))
      → Q (after_checks s checks rest)
  after_checks_outcome Q s (err e) rest p q = p e refl
  after_checks_outcome Q s (ok a) rest p q = q a refl

  pub after_step_outcome :
      (Q : Outcome S E B → Type 0) (step : Outcome S E A) (rest : S → A → Outcome S E B)
      → ((e : E) → step.1 ≡ err e → Q (step.0, err e))
      → ((a : A) → step.1 ≡ ok a → Q (rest step.0 a))
      → Q (after_step step rest)
  after_step_outcome Q (s, err e) rest p q = p e refl
  after_step_outcome Q (s, ok a) rest p q = q a refl
