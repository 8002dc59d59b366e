-- ===== src/Paths/Pieces.antt =====
-- paths.rs and boundary.rs (crates/zbrain/src): the components of a text that are names, by its pieces.
use zbrain.Prelude.{
  String, ◌≡◌, refl, sym, ◌∙◌, ◌↔◌, Bool, true, false, ◌&&◌, ◌||◌, List, [], ◌∷◌, ◌==◌, eq_iff,
  arith, not, ◌≢◌, ap, eqb, if_cases, Bool-cases, inl, inr,
}
use Prim.Native.Char.{code}
use zbrain.Prelude.Sets.{contains}
use zbrain.Paths.{
  cons_first, split_slash, later_components, first_components, Component, FilePath, normal,
}

abbrev pub is_normal : Component → Bool
is_normal (normal s) = true
is_normal _ = false

abbrev pub all_normal : FilePath → Bool
all_normal [] = true
all_normal (c ∷ p) = is_normal c && all_normal p

-- The first of the pieces.
abbrev pub starts_at : List String → String → Bool
starts_at [] s = false
starts_at (piece ∷ pieces) s = piece == s

passed_over : (s : String) → (s == "" || s == ".") ≡ true → (s == "..") ≡ false
passed_over s h = elim (Bool-cases (s == "")) [
  | inl e ↦ rw ((eq_iff s "").0 e) refl
  | inr e ↦ rw ((eq_iff s ".").0 (ground arith)) refl
]

later_components-names :
    (pieces : List String) → all_normal (later_components pieces) ≡ not (contains pieces "..")
unfolding later_components
later_components-names [] = refl
later_components-names (s ∷ rest) = elim (Bool-cases (s == "" || s == ".")) [
  | inl b ↦ rw (b, passed_over s b) (later_components-names rest)
  | inr b ↦ rw b (ground (arith, later_components-names rest))
]

apart : {b : Bool} → b ≡ true → b ≡ false → ⊥
apart is not_so = cc (is, not_so)

-- The pieces of a text, read as components, where the first is neither empty nor `.`.
first_components-names :
    (s : String) (rest : List String)
    → (s == "") ≡ false
    → (s == ".") ≡ false
    → all_normal (first_components (s ∷ rest)) ≡ not (contains (s ∷ rest) "..")
unfolding first_components
first_components-names s [] e d =
    if_cases (λ (p : FilePath). all_normal p ≡ not (contains (s ∷ []) "..")) (s == ".")
      (λ is. absurd (apart is d)) (λ b. later_components-names (s ∷ []))
first_components-names s (t ∷ rest) e d =
    if_cases (λ (p : FilePath). all_normal p ≡ not (contains (s ∷ t ∷ rest) "..")) (s == "")
      (λ is. absurd (apart is e))
      (λ b.
        if_cases (λ (p : FilePath). all_normal p ≡ not (contains (s ∷ t ∷ rest) "..")) (s == ".")
          (λ is. absurd (apart is d)) (λ c. later_components-names (s ∷ t ∷ rest)))

first_components-current :
    (s : String) (rest : List String)
    → (s == ".") ≡ true
    → all_normal (first_components (s ∷ rest)) ≡ false
unfolding first_components
first_components-current s [] d = rw d refl
first_components-current s (t ∷ rest) d = ground (arith, eq_iff s "", eq_iff s ".")

first_components-root :
    (s t : String) (rest : List String)
    → (s == "") ≡ true
    → all_normal (first_components (s ∷ t ∷ rest)) ≡ false
unfolding first_components
first_components-root s t rest e = rw e refl

cons_first-apart :
    (c : Prim.Native.Char.Char) (pieces : List String)
    → cons_first pieces (λ first. String.◌∷◌ c first) ≢ "" ∷ []
unfolding cons_first
cons_first-apart c [] e = cc e
cons_first-apart c (s ∷ rest) e = cc e

cons_first-some : (pieces : List String) (f : String → String) → cons_first pieces f ≢ []
unfolding cons_first
cons_first-some [] f e = cc e
cons_first-some (s ∷ rest) f e = cc e

split_slash-some : (path : String) → split_slash path ≢ []
unfolding split_slash
split_slash-some String.[] e = cc e
split_slash-some (String.◌∷◌ c s) e =
    if_cases (λ (pieces : List String). pieces ≡ [] → ⊥) (eqb (code c) b'/') (λ slash f. cc f)
      (λ other f. cons_first-some (split_slash s) _ f) e

-- Only the empty text is one empty piece.
split_slash-empty : (path : String) → split_slash path ≡ "" ∷ [] → path ≡ ""
unfolding split_slash
split_slash-empty String.[] e = refl
split_slash-empty (String.◌∷◌ c s) e = absurd (
    if_cases (λ (pieces : List String). pieces ≡ "" ∷ [] → ⊥) (eqb (code c) b'/')
      (λ slash f. split_slash-some s (ap tail f)) (λ other f. cons_first-apart c (split_slash s) f)
      e)
  where
    tail : List String → List String
    tail [] = []
    tail (x ∷ xs) = xs

-- The pieces of the text between slashes: the first is neither empty nor `.`, and none is `..`.
pub record HasSafePieces (pieces : List String) : Type 0 where
  pub relative : starts_at pieces "" ≡ false
  pub not_current : starts_at pieces "." ≡ false
  pub no_parent : contains pieces ".." ≡ false

not_root :
    (path s : String) (rest : List String)
    → split_slash path ≡ s ∷ rest
    → (path == "") ≡ false
    → all_normal (first_components (s ∷ rest)) ≡ true
    → (s == "") ≡ false
not_root path s [] e filled names = elim (Bool-cases (s == "")) [
  | inl b ↦
      let none_there = split_slash-empty path (e ∙ ap (λ x. x ∷ []) ((eq_iff s "").0 b)) in
      absurd (apart ((eq_iff path "").1 none_there) filled)
  | inr b ↦ b
]
not_root path s (t ∷ rest) e filled names = elim (Bool-cases (s == "")) [
  | inl b ↦ absurd (apart names (first_components-root s t rest b))
  | inr b ↦ b
]

not_dot :
    (s : String) (rest : List String)
    → all_normal (first_components (s ∷ rest)) ≡ true
    → (s == ".") ≡ false
not_dot s rest names = elim (Bool-cases (s == ".")) [
  | inl b ↦ absurd (apart names (first_components-current s rest b))
  | inr b ↦ b
]

not_empty : (path : String) → starts_at (split_slash path) "" ≡ false → (path == "") ≡ false
unfolding split_slash
not_empty path h = elim (Bool-cases (path == "")) [
  | inl b ↦ absurd (apart (ap (λ x. starts_at (split_slash x) "") ((eq_iff path "").0 b)) h)
  | inr b ↦ b
]

pub pieces_exact :
    (path : String) (pieces : List String)
    → split_slash path ≡ pieces
    → (((path == "") ≡ false) × (all_normal (first_components pieces) ≡ true))
      ↔ HasSafePieces pieces
pieces_exact path [] e = absurd (split_slash-some path e)
pieces_exact path (s ∷ rest) e = (
  (λ h.
      let root = not_root path s rest e h.0 h.1 in
      let dot = not_dot s rest h.1 in
      let names = first_components-names s rest root dot in
      record { relative = root; not_current = dot; no_parent = flip _ (sym names ∙ h.1) }),
  (λ h. (
    not_empty path (ap (λ p. starts_at p "") e ∙ h.relative),
    first_components-names s rest h.relative h.not_current ∙ ap not h.no_parent,
  )),
)
  where
    flip : (b : Bool) → not b ≡ true → b ≡ false
    flip b h = ground arith
