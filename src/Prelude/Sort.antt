-- ===== src/Prelude/Sort.antt =====
-- Rust's stable `sort` and `sort_by`, as an insertion that keeps equal keys in order.
use Prim.Native.String.{String}
use mathlib.Core.Path.{◌≡◌, refl}
use mathlib.Core.Bool.{not, ◌&&◌, ◌||◌}
use mathlib.Core.List.{List, [], ◌∷◌}
use native.Mathlib.Omega.{arith}
use text.Mathlib.Text.{◌==◌}
use text.Mathlib.TextEquality.{eq_iff}
use zbrain.Prelude.Tests.{if◌then◌else◌}
use zbrain.Prelude.Text.{text_le}
use zbrain.Prelude.Sets.{contains, distinct}

module _ {ℓ} {A : Type ℓ} where
  unfoldable pub insert_by : (A → String) → A → List A → List A
  insert_by key x [] = x ∷ []
  insert_by key x (y ∷ ys) = if text_le (key x) (key y) then x ∷ y ∷ ys else y ∷ insert_by key x ys

  unfoldable pub sort_by : (A → String) → List A → List A
  unfolding insert_by
  sort_by key [] = []
  sort_by key (x ∷ xs) = insert_by key x (sort_by key xs)

unfoldable pub sort : List String → List String
unfolding sort_by
sort = sort_by (λ s. s)

contains-insert_by :
    (x : String) (xs : List String) (s : String)
    → contains (insert_by (λ t. t) x xs) s ≡ (x == s || contains xs s)
unfolding insert_by
contains-insert_by x [] s = refl
contains-insert_by x (y ∷ ys) s = ground (arith, contains-insert_by x ys s)

pub contains-sort : (xs : List String) (s : String) → contains (sort xs) s ≡ contains xs s
unfolding sort
contains-sort [] s = refl
contains-sort (x ∷ xs) s = ground (arith, contains-insert_by x (sort xs) s, contains-sort xs s)

distinct-insert_by :
    (x : String) (xs : List String)
    → distinct (insert_by (λ t. t) x xs) ≡ (not (contains xs x) && distinct xs)
unfolding insert_by
distinct-insert_by x [] = refl
distinct-insert_by x (y ∷ ys) =
    ground (arith, eq_iff x y, eq_iff y x, distinct-insert_by x ys, contains-insert_by x ys y)

pub distinct-sort : (xs : List String) → distinct (sort xs) ≡ distinct xs
unfolding sort
distinct-sort [] = refl
distinct-sort (x ∷ xs) =
    ground (arith, distinct-insert_by x (sort xs), contains-sort xs x, distinct-sort xs)
