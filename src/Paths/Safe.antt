-- ===== src/Paths/Safe.antt =====
-- boundary.rs (crates/zbrain/src): what a path that `safe_relative_path` accepts is made of, and
-- where it leads.
use mathlib.Core.Path.{subst}
use mathlib.Core.List.{append-nil, append_assoc}
use zbrain.Prelude.{
  is_ok, ◌+◌, ◌≤◌, String, ◌≡◌, refl, sym, ◌∙◌, ◌↔◌, Bool, true, false, some, List, [], ◌∷◌, ◌++◌,
  ◌==◌, eq_iff, arith, ok, length, length-append, but_last, ap,
}
use zbrain.Paths.{
  split_slash, later_components, first_components, Component, FilePath, normal, root_dir, cur_dir,
  parent_dir, component_eq, path_eq, components, pop, normalize_from, normalize, is_absolute,
  absolute_under, strip_root, path_within, safe_relative_path, starts_with_parent, any_traversal,
}
use zbrain.Paths.Pieces.{all_normal, HasSafePieces, pieces_exact}

component_eq_refl : (c : Component) → component_eq c c ≡ true
unfolding component_eq
component_eq_refl root_dir = refl
component_eq_refl cur_dir = refl
component_eq_refl parent_dir = refl
component_eq_refl (normal s) = (eq_iff s s).1 refl

path_eq_refl : (p : FilePath) → path_eq p p ≡ true
unfolding path_eq
path_eq_refl [] = refl
path_eq_refl (c ∷ p) = rw (component_eq_refl c) (path_eq_refl p)

length-path_eq : (p q : FilePath) → path_eq p q ≡ true → length p ≡ length q
unfolding path_eq
length-path_eq [] [] h = refl
length-path_eq [] (y ∷ q) h = cc
length-path_eq (x ∷ p) [] h = cc
length-path_eq (x ∷ p) (y ∷ q) h = ground (arith, length-path_eq p q)

-- Normal components are kept as they are.
normalize_from-all_normal :
    (out p : FilePath) → all_normal p ≡ true → normalize_from out p ≡ out ++ p
unfolding normalize_from
normalize_from-all_normal out [] h = sym (append-nil out)
normalize_from-all_normal out (normal s ∷ p) h =
    normalize_from-all_normal (out ++ normal s ∷ []) p h ∙ append_assoc out (normal s ∷ []) p
normalize_from-all_normal out (root_dir ∷ p) h = cc
normalize_from-all_normal out (cur_dir ∷ p) h = cc
normalize_from-all_normal out (parent_dir ∷ p) h = cc

length-but_last : (p : FilePath) → length (but_last p) ≤ length p
length-but_last [] = omega arith
length-but_last (c ∷ []) = omega arith
length-but_last (c ∷ d ∷ p) = omega (arith, length-but_last (d ∷ p))

length-pop : (p : FilePath) → length (pop p) ≤ length p
unfolding pop
length-pop [] = omega arith
length-pop (root_dir ∷ []) = omega arith
length-pop (root_dir ∷ d ∷ p) = length-but_last (root_dir ∷ d ∷ p)
length-pop (c ∷ p) = length-but_last (c ∷ p)

-- The root stands in no later place.
abbrev no_root : FilePath → Bool
no_root [] = true
no_root (root_dir ∷ p) = false
no_root (c ∷ p) = no_root p

length-normalize_from-le :
    (out p : FilePath) → no_root p ≡ true → length (normalize_from out p) ≤ length out + length p
unfolding normalize_from
length-normalize_from-le out [] h = omega arith
length-normalize_from-le out (normal s ∷ p) h = omega (
  arith,
  length-normalize_from-le (out ++ normal s ∷ []) p h,
  length-append {0} out (normal s ∷ []),
)
length-normalize_from-le out (root_dir ∷ p) h = cc
length-normalize_from-le out (cur_dir ∷ p) h = omega (arith, length-normalize_from-le out p h)
length-normalize_from-le out (parent_dir ∷ p) h =
    omega (arith, length-normalize_from-le (pop out) p h, length-pop out)

-- A path of which a component was dropped is shorter.
length-normalize_from :
    (out p : FilePath)
    → no_root p ≡ true
    → length (normalize_from out p) ≡ length out + length p
    → all_normal p ≡ true
unfolding normalize_from
length-normalize_from out [] h e = refl
length-normalize_from out (normal s ∷ p) h e =
    length-normalize_from (out ++ normal s ∷ []) p h
      (omega (arith, length-append {0} out (normal s ∷ [])))
length-normalize_from out (root_dir ∷ p) h e = cc
length-normalize_from out (cur_dir ∷ p) h e =
    absurd (omega (arith, length-normalize_from-le out p h))
length-normalize_from out (parent_dir ∷ p) h e =
    absurd (omega (arith, length-normalize_from-le (pop out) p h, length-pop out))

no_root-later_components : (pieces : List String) → no_root (later_components pieces) ≡ true
unfolding later_components
no_root-later_components [] = refl
no_root-later_components (s ∷ rest) = ground (arith, no_root-later_components rest)

no_root-first_components :
    (pieces : List String)
    → is_absolute (first_components pieces) ≡ false
    → no_root (first_components pieces) ≡ true
unfolding first_components
no_root-first_components [] h = refl
no_root-first_components (s ∷ []) h = ground (arith, no_root-later_components (s ∷ []))
no_root-first_components (s ∷ t ∷ rest) h =
    ground (arith, no_root-later_components (t ∷ rest), no_root-later_components (s ∷ t ∷ rest))

no_root-components :
    (path : String) → is_absolute (components path) ≡ false → no_root (components path) ≡ true
unfolding components
no_root-components path h = no_root-first_components (split_slash path) h

strip_root-append : (root p : FilePath) → strip_root root (root ++ p) ≡ some p
unfolding strip_root
strip_root-append [] p = refl
strip_root-append (c ∷ root) p = rw (component_eq_refl c) (strip_root-append root p)

path_within-append : (root p : FilePath) → path_within root (root ++ p) ≡ true
unfolding path_within
path_within-append root [] =
    let self : strip_root root root ≡ some [] =
      subst (λ x. strip_root root x ≡ some []) (append-nil root) (strip_root-append root []) in
    rw (append-nil root) (rw (self, path_within) (path_eq_refl root))
path_within-append root (c ∷ p) = rw (strip_root-append root (c ∷ p), path_within) refl

-- No test of `safe_relative_path` is against names.
record IsPlain (p : FilePath) : Type 0 where
  relative : is_absolute p ≡ false
  not_current : path_eq p (cur_dir ∷ []) ≡ false
  not_parent : path_eq p (parent_dir ∷ []) ≡ false
  not_below_parent : starts_with_parent p ≡ false
  no_traversal : any_traversal p ≡ false

any_traversal-all_normal : (p : FilePath) → all_normal p ≡ true → any_traversal p ≡ false
any_traversal-all_normal [] h = refl
any_traversal-all_normal (normal s ∷ p) h = any_traversal-all_normal p h
any_traversal-all_normal (root_dir ∷ p) h = cc
any_traversal-all_normal (cur_dir ∷ p) h = cc
any_traversal-all_normal (parent_dir ∷ p) h = cc

IsPlain-all_normal : (p : FilePath) → all_normal p ≡ true → IsPlain p
unfolding path_eq
IsPlain-all_normal [] h = record {
  relative = refl;
  not_current = refl;
  not_parent = refl;
  not_below_parent = refl;
  no_traversal = refl;
}
IsPlain-all_normal (normal s ∷ p) h = record {
  relative = refl;
  not_current = refl;
  not_parent = refl;
  not_below_parent = refl;
  no_traversal = any_traversal-all_normal p h;
}
IsPlain-all_normal (root_dir ∷ p) h = cc
IsPlain-all_normal (cur_dir ∷ p) h = cc
IsPlain-all_normal (parent_dir ∷ p) h = cc

normalize-all_normal : (p : FilePath) → all_normal p ≡ true → normalize p ≡ p
unfolding normalize
normalize-all_normal p h = normalize_from-all_normal [] p h

all_normal_of_normalize :
    (p : FilePath) → no_root p ≡ true → path_eq (normalize p) p ≡ true → all_normal p ≡ true
unfolding normalize
all_normal_of_normalize p h e =
    length-normalize_from [] p h (omega (arith, length-path_eq (normalize_from [] p) p e))

pub safe_relative_path-names :
    (path : String)
    → (is_ok (safe_relative_path path) ≡ true)
      ↔ (((path == "") ≡ false) × (all_normal (components path) ≡ true))
unfolding safe_relative_path
safe_relative_path-names path = (
  λ h. (
    ground arith,
    ground (arith, no_root-components path, all_normal_of_normalize (components path)),
  ),
  λ h.
      rw (h.0, normalize-all_normal (components path) h.1)
        (ground (arith, IsPlain-all_normal (components path) h.1, path_eq_refl (components path))),
)

-- A path is accepted exactly when, of the pieces of its text between slashes, the first is neither empty nor
-- `.`, and none is `..`.
pub safe_relative_path_exact :
    (path : String) → (is_ok (safe_relative_path path) ≡ true) ↔ HasSafePieces (split_slash path)
unfolding components
safe_relative_path_exact path =
    let (to, from) = pieces_exact path (split_slash path) refl in
    let (names, accepts) = safe_relative_path-names path in
    ((λ h. to (names h)), (λ h. accepts (from h)))

normalize_from-append :
    (out p q : FilePath) → normalize_from out (p ++ q) ≡ normalize_from (normalize_from out p) q
unfolding normalize_from
normalize_from-append out [] q = refl
normalize_from-append out (parent_dir ∷ p) q = normalize_from-append (pop out) p q
normalize_from-append out (cur_dir ∷ p) q = normalize_from-append out p q
normalize_from-append out (root_dir ∷ p) q = normalize_from-append (root_dir ∷ []) p q
normalize_from-append out (normal s ∷ p) q = normalize_from-append (out ++ normal s ∷ []) p q

-- Names below a root stay below it in the normal form.
absolute_under-names :
    (root p : FilePath) → all_normal p ≡ true → absolute_under root p ≡ normalize root ++ p
unfolding absolute_under normalize
absolute_under-names root p names =
    rw ((IsPlain-all_normal p names).relative)
      (normalize_from-append [] root p ∙ normalize_from-all_normal (normalize_from [] root) p names)

-- What is accepted is, as a path, the text itself; and below any root, with every `..` resolved, it leads
-- to the place that its components name below the normal form of the root, so inside the root.
pub safe_relative_path_within :
    (path : String) (p root : FilePath)
    → safe_relative_path path ≡ ok p
    → (p ≡ components path)
      × (absolute_under root p ≡ normalize root ++ p)
      × (path_within (normalize root) (absolute_under root p) ≡ true)
unfolding safe_relative_path
safe_relative_path_within path p root h =
    let names : all_normal (components path) ≡ true =
      ((safe_relative_path-names path).0 (rw h refl)).1 in
    let same : p ≡ components path = ground (arith, normalize-all_normal (components path) names) in
    let all : all_normal p ≡ true = ap all_normal same ∙ names in
    let place = absolute_under-names root p all in
    (same, place, ap (path_within (normalize root)) place ∙ path_within-append (normalize root) p)
