-- ===== src/Prelude/Results.antt =====
-- `Result<A, E>`, with `?` as the bind of a `do` block.
use mathlib.Core.Path.{◌≡◌, refl}
use mathlib.Core.Logic.{◌⊎◌, inl, inr}
use mathlib.Core.Bool.{Bool, true, false}
use mathlib.Core.Option.{Option, none, some}
use mathlib.Core.List.{List, [], ◌∷◌}
use native.Mathlib.Omega.{arith}

pub data Result (E A : Type 0) : Type 0 where
  err : E → Result E A
  ok : A → Result E A

infixl 5 ◌>>=◌ ◌>>◌
abbrev pub ◌>>=◌ : {E A B : Type 0} → Result E A → (A → Result E B) → Result E B
err e >>= rest = err e
ok a >>= rest = rest a

abbrev pub ◌>>◌ : {E B : Type 0} → Result E (Unit {0}) → Result E B → Result E B
first >> rest = first >>= λ _. rest

-- `if !test { return Err(e) }`
abbrev pub ensure : {E : Type 0} → Bool → E → Result E (Unit {0})
ensure false refusal = err refusal
ensure true refusal = ok tt

-- `if test { return Err(e) }`
abbrev pub refuse_if : {E : Type 0} → Bool → E → Result E (Unit {0})
refuse_if true e = err e
refuse_if false e = ok tt

abbrev pub or_fail : {E A : Type 0} → Option A → E → Result E A
or_fail none e = err e
or_fail (some a) e = ok a

-- `.map_err(f)`
abbrev pub map_err : {D E A : Type 0} → (D → E) → Result D A → Result E A
map_err f (ok a) = ok a
map_err f (err d) = err (f d)

abbrev pub is_ok : {E A : Type 0} → Result E A → Bool
is_ok (ok a) = true
is_ok (err e) = false

-- `for x in xs { check(x)?; }`
abbrev pub check_each : {E A : Type 0} → (A → Result E (Unit {0})) → List A → Result E (Unit {0})
check_each check [] = ok tt
check_each check (x ∷ xs) = do check x; check_each check xs

module _ {E A B : Type 0} where
  pub >>=-eq-ok :
      (first : Result E A) (rest : A → Result E B) {b : B}
      → (first >>= rest) ≡ ok b
      → (a : A) × (first ≡ ok a) × (rest a ≡ ok b)
  >>=-eq-ok (err refusal) rest e = cc
  >>=-eq-ok (ok a) rest e = (a, refl, e)

module _ {E A : Type 0} where
  pub Result-cases : (r : Result E A) → ((a : A) × (r ≡ ok a)) ⊎ ((e : E) × (r ≡ err e))
  Result-cases (ok a) = inl (a, refl)
  Result-cases (err e) = inr (e, refl)

module _ {E B : Type 0} where
  pub >>-eq-ok :
      (m : Result E (Unit {0})) (k : Result E B) {b : B}
      → (m >> k) ≡ ok b
      → (m ≡ ok tt) × (k ≡ ok b)
  >>-eq-ok (ok tt) k h = (refl, h)
  >>-eq-ok (err e) k h = cc

module _ {E : Type 0} where
  pub ensure-eq-ok : (b : Bool) (e : E) → ensure b e ≡ ok tt → b ≡ true
  ensure-eq-ok b e h = ground arith

  pub refuse_if-eq-ok : (b : Bool) (e : E) → refuse_if b e ≡ ok tt → b ≡ false
  refuse_if-eq-ok b e h = ground arith

module _ {D E A : Type 0} where
  pub map_err-eq-ok : (f : D → E) (r : Result D A) {a : A} → map_err f r ≡ ok a → r ≡ ok a
  map_err-eq-ok f (ok b) h = cc h
  map_err-eq-ok f (err d) h = cc h
