-- ===== src/Examples/Paths.antt =====
-- The theorems on paths at concrete paths.
use zbrain.Prelude.{◌≡◌, ◌↔◌, refl, true, false, ok, is_ok, ◌++◌}
use zbrain.Paths.{
  components, path_within, absolute_under, safe_relative_path, normalize, path_eq, split_slash,
}
use zbrain.Paths.Pieces.{HasSafePieces}
use zbrain.Paths.Safe.{safe_relative_path_exact, safe_relative_path_within}

safe_relative_path_exact_example :
    (is_ok (safe_relative_path "wiki/../index.db") ≡ true)
    ↔ HasSafePieces (split_slash "wiki/../index.db")
safe_relative_path_exact_example = safe_relative_path_exact "wiki/../index.db"

-- A `.` behind the first piece is passed over, one that stands first is not.
dot_inside : is_ok (safe_relative_path "wiki/./a.md") ≡ true
unfolding safe_relative_path components path_eq normalize
dot_inside = refl

dot_first : is_ok (safe_relative_path "./a.md") ≡ false
unfolding safe_relative_path components path_eq normalize
dot_first = refl

accepted : safe_relative_path "wiki/axioms/a.md" ≡ ok (components "wiki/axioms/a.md")
unfolding safe_relative_path components path_eq normalize
accepted = refl

safe_relative_path_within_example :
    (components "wiki/axioms/a.md" ≡ components "wiki/axioms/a.md")
    × (absolute_under (components "/home/o/../brain") (components "wiki/axioms/a.md")
        ≡ normalize (components "/home/o/../brain") ++ components "wiki/axioms/a.md")
    × (path_within
          (normalize (components "/home/o/../brain"))
          (absolute_under (components "/home/o/../brain") (components "wiki/axioms/a.md"))
        ≡ true)
safe_relative_path_within_example =
    safe_relative_path_within "wiki/axioms/a.md" (components "wiki/axioms/a.md")
      (components "/home/o/../brain") accepted
