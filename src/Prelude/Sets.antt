-- ===== src/Prelude/Sets.antt =====
-- Membership of texts, as the `contains` of the program's hash sets and slices, and lists with no
-- text twice.
use Prim.Native.String.{String}
use mathlib.Core.Path.{◌≡◌, refl}
use mathlib.Core.Logic.{◌⊎◌}
use mathlib.Core.Bool.{Bool, true, false, not, ◌&&◌, ◌||◌}
use mathlib.Core.List.{List, [], ◌∷◌, ◌++◌}
use native.Mathlib.Omega.{arith}
use text.Mathlib.Text.{◌==◌}
use text.Mathlib.TextEquality.{eq_iff}

abbrev pub contains : List String → String → Bool
contains [] s = false
contains (x ∷ xs) s = x == s || contains xs s

abbrev pub distinct : List String → Bool
distinct [] = true
distinct (x ∷ xs) = not (contains xs x) && distinct xs

pub contains-append :
    (xs ys : List String) (s : String) → contains (xs ++ ys) s ≡ (contains xs s || contains ys s)
contains-append [] ys s = refl
contains-append (x ∷ xs) ys s = ground (arith, contains-append xs ys s)

pub contains-cons :
    (x : String) (xs : List String) (s : String)
    → contains (x ∷ xs) s ≡ true
    → (x ≡ s) ⊎ (contains xs s ≡ true)
contains-cons x xs s h = ground (arith, eq_iff x s)

pub contains_self : (x : String) (xs : List String) → contains (x ∷ xs) x ≡ true
contains_self x xs = ground (arith, eq_iff x x)
