-- ===== src/Prelude/Order.antt =====
-- The strict order of texts, as the failure of `text_le`.
use Prim.Native.Nat.{Ordering, compare as compare_number}
use Prim.Native.Char.{code}
use Prim.Native.String.{String, then, compare}
use Prim.Native.String.compare as compare_laws
use mathlib.Core.Path.{◌≡◌, sym, ◌∙◌}
use mathlib.Core.Bool.{true, false}
use native.Mathlib.Omega.{arith}
use text.Mathlib.TextPositions.{compare_refl}
use text.Mathlib.Text.{◌==◌}
use zbrain.Prelude.Text.{text_le}

then-gt_trans :
    (a b c : Prim.Native.Nat.ℕ) (r s t : Ordering)
    → (r ≡ Ordering.gt → s ≡ Ordering.gt → t ≡ Ordering.gt)
    → then (compare_number a b) r ≡ Ordering.gt
    → then (compare_number b c) s ≡ Ordering.gt
    → then (compare_number a c) t ≡ Ordering.gt
then-gt_trans a b c r s t h p q = ground arith

pub compare-gt_trans :
    (s t u : String)
    → compare s t ≡ Ordering.gt
    → compare t u ≡ Ordering.gt
    → compare s u ≡ Ordering.gt
compare-gt_trans String.[] String.[] u p q = ground (arith, compare_refl String.[])
compare-gt_trans String.[] (String.◌∷◌ d t) u p q = ground (arith, compare_laws.nil-cons d t)
compare-gt_trans (String.◌∷◌ c s) String.[] String.[] p q = p
compare-gt_trans (String.◌∷◌ c s) String.[] (String.◌∷◌ e u) p q =
    ground (arith, compare_laws.nil-cons e u)
compare-gt_trans (String.◌∷◌ c s) (String.◌∷◌ d t) String.[] p q = compare_laws.cons-nil c s
compare-gt_trans (String.◌∷◌ c s) (String.◌∷◌ d t) (String.◌∷◌ e u) p q =
    compare_laws.cons-cons c e s u
    ∙ then-gt_trans (code c) (code d) (code e) (compare s t) (compare t u) (compare s u)
        (compare-gt_trans s t u) (sym (compare_laws.cons-cons c d s t) ∙ p)
        (sym (compare_laws.cons-cons d e t u) ∙ q)

pub text_lt_trans :
    (s t u : String) → text_le s t ≡ false → text_le t u ≡ false → text_le s u ≡ false
text_lt_trans s t u p q = ground (arith, compare-gt_trans s t u)

then-lt_flip :
    (a b : Prim.Native.Nat.ℕ) (r s : Ordering)
    → (r ≡ Ordering.lt → s ≡ Ordering.gt)
    → then (compare_number a b) r ≡ Ordering.lt
    → then (compare_number b a) s ≡ Ordering.gt
then-lt_flip a b r s h p = ground arith

compare-lt_flip : (s t : String) → compare s t ≡ Ordering.lt → compare t s ≡ Ordering.gt
compare-lt_flip String.[] String.[] p = ground (arith, compare_refl String.[])
compare-lt_flip String.[] (String.◌∷◌ d t) p = compare_laws.cons-nil d t
compare-lt_flip (String.◌∷◌ c s) String.[] p = ground (arith, compare_laws.cons-nil c s)
compare-lt_flip (String.◌∷◌ c s) (String.◌∷◌ d t) p =
    compare_laws.cons-cons d c t s
    ∙ then-lt_flip (code c) (code d) (compare s t) (compare t s) (compare-lt_flip s t)
        (sym (compare_laws.cons-cons c d s t) ∙ p)

-- Of two different texts, one is not below the other.
pub text_le_flip : (s t : String) → text_le s t ≡ true → (s == t) ≡ false → text_le t s ≡ false
text_le_flip s t p q = ground (arith, compare-lt_flip s t)
