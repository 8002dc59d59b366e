-- ===== src/Approval/ConstantTime.antt =====
-- approval.rs (crates/zbrain/src): `constant_time_eq`, whose loop looks at every byte, and equality of bytes.
use Prim.Native.Nat.{bit_or, bit_xor}
use mathlib.Core.Path.{ap₂}
use zbrain.Prelude.{
  ℕ, zero, suc, ◌<◌, ◌≡◌, refl, ◌↔◌, Bool, true, false, not, ◌&&◌, List, [], ◌∷◌, arith, eqb, ltb,
  length, if◌then◌else◌, All, ap,
}

-- The loop: `diff |= a ^ b` over the pairs of bytes.
unfoldable pub difference : ℕ → List ℕ → List ℕ → ℕ
difference diff [] right = diff
difference diff (a ∷ left) [] = diff
difference diff (a ∷ left) (b ∷ right) = difference (bit_or diff (bit_xor a b)) left right

unfoldable pub constant_time_eq : List ℕ → List ℕ → Bool
unfolding difference
constant_time_eq left right =
    if not (eqb (length left) (length right)) then false else eqb (difference 0 left right) 0

-- A test that every number under a bound passes.
passes_under : (ℕ → Bool) → ℕ → Bool
passes_under test zero = true
passes_under test (suc bound) = if test bound then passes_under test bound else false

passes_at :
    (test : ℕ → Bool) (bound : ℕ) (k : ℕ)
    → passes_under test bound ≡ true
    → k < bound
    → test k ≡ true
unfolding passes_under
passes_at test zero k all below = absurd (omega arith)
passes_at test (suc bound) k all below = ground (arith, passes_at test bound k)

passes_at_pair :
    (test : ℕ → ℕ → Bool) (a b : ℕ)
    → passes_under (λ x. passes_under (test x) 256) 256 ≡ true
    → a < 256
    → b < 256
    → test a b ≡ true
passes_at_pair test a b all ha hb =
    passes_at (test a) 256 b (passes_at (λ x. passes_under (test x) 256) 256 a all ha) hb

abbrev same : Bool → Bool → Bool
same true b = b
same false b = not b

-- The two facts of a pair of bytes: the result is a byte, and when it is 0.
xor_fact : ℕ → ℕ → Bool
xor_fact a b = let x = bit_xor a b in ltb x 256 && same (eqb x 0) (eqb a b)

or_fact : ℕ → ℕ → Bool
or_fact a b = let x = bit_or a b in ltb x 256 && same (eqb x 0) (eqb a 0 && eqb b 0)

xor_table : passes_under (λ a. passes_under (xor_fact a) 256) 256 ≡ true
unfolding passes_under xor_fact
xor_table = refl

or_table : passes_under (λ a. passes_under (or_fact a) 256) 256 ≡ true
unfolding passes_under or_fact
or_table = refl

xor_of_bytes : (a b : ℕ) → a < 256 → b < 256 → (bit_xor a b < 256) × ((bit_xor a b ≡ 0) ↔ (a ≡ b))
unfolding xor_fact
xor_of_bytes a b ha hb =
    let h = passes_at_pair xor_fact a b xor_table ha hb in
    (ground arith, (λ e. ground arith, λ e. ground arith))

or_of_bytes :
    (a b : ℕ) → a < 256 → b < 256 → (bit_or a b < 256) × ((bit_or a b ≡ 0) ↔ ((a ≡ 0) × (b ≡ 0)))
unfolding or_fact
or_of_bytes a b ha hb =
    let h = passes_at_pair or_fact a b or_table ha hb in
    (ground arith, (λ e. (ground arith, ground arith), λ e. ground arith))

abbrev pub AreBytes : List ℕ → Type 0
AreBytes = All (λ b. b < 256)

-- The difference is 0 exactly when it began so and every pair agrees.
difference-zero :
    (diff : ℕ) (left right : List ℕ)
    → diff < 256
    → AreBytes left
    → AreBytes right
    → length left ≡ length right
    → (difference diff left right ≡ 0) ↔ ((diff ≡ 0) × (left ≡ right))
unfolding difference
difference-zero diff [] [] hd hl hr e = (λ z. (z, refl), λ z. z.0)
difference-zero diff [] (b ∷ right) hd hl hr e = absurd (omega arith)
difference-zero diff (a ∷ left) [] hd hl hr e = absurd (omega arith)
difference-zero diff (a ∷ left) (b ∷ right) hd hl hr e =
    let x = xor_of_bytes a b hl.0 hr.0 in
    let o = or_of_bytes diff (bit_xor a b) hd x.0 in
    let rest = difference-zero (bit_or diff (bit_xor a b)) left right o.0 hl.1 hr.1 (omega arith) in
    (
      λ z. let (d, l) = rest.0 z in let (d0, x0) = o.1.0 d in (d0, ap₂ ◌∷◌ (x.1.0 x0) l),
      λ z. rest.1 (o.1.1 (z.0, x.1.1 (ground arith)), ground arith),
    )

-- On bytes the comparison says yes exactly when the two are equal.
pub constant_time_eq_exact :
    (left right : List ℕ)
    → AreBytes left
    → AreBytes right
    → (constant_time_eq left right ≡ true) ↔ (left ≡ right)
unfolding constant_time_eq
constant_time_eq_exact left right hl hr = (
  λ h.
      let e : length left ≡ length right = ground arith in
      ((difference-zero 0 left right (omega arith) hl hr e).0 (ground arith)).1,
  λ e.
      let z = (difference-zero 0 left right (omega arith) hl hr (ap length e)).1 (refl, e) in
      rw (z, ap length e) (ground arith),
)
