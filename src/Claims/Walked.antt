-- ===== src/Claims/Walked.antt =====
-- claims.rs (crates/zbrain/src): a walk visits no more files than there are.
use zbrain.Prelude.{
  ℕ, suc, ◌≤◌, String, ◌≡◌, refl, ap, ◌∙◌, Option, none, some, List, [], ◌∷◌, arith, if_cases,
  length,
}
use zbrain.Prelude.Text.{strip_prefix}
use zbrain.Paths.{split_slash}
use zbrain.Claims.Scan.{
  Files, is_markdown, with_file, markdown_files, insert_file, sort_files, walk_markdown_files,
  pieces_le,
}

length-insert_file :
    (file : String × List ℕ) (files : Files) → length (insert_file file files) ≡ suc (length files)
unfolding insert_file
length-insert_file file [] = refl
length-insert_file file (next ∷ files) =
    if_cases (λ (fs : Files). length fs ≡ suc (suc (length files)))
      (pieces_le (split_slash file.0) (split_slash next.0)) {x = file ∷ next ∷ files}
      {y = next ∷ insert_file file files} (λ e. refl) (λ e. ap suc (length-insert_file file files))

length-sort_files : (files : Files) → length (sort_files files) ≡ length files
unfolding sort_files
length-sort_files [] = refl
length-sort_files (file ∷ files) =
    length-insert_file file (sort_files files) ∙ ap suc (length-sort_files files)

with_file_le :
    (rel : Option String) (contents : List ℕ) (files : Files)
    → length (with_file rel contents files) ≤ suc (length files)
with_file_le none contents files = omega arith
with_file_le (some rel) contents files =
    if_cases (λ (fs : Files). length fs ≤ suc (length files)) (is_markdown rel) (λ e. omega arith)
      (λ e. omega arith)

markdown_files_le : (files : Files) → length (markdown_files files) ≤ length files
unfolding markdown_files
markdown_files_le [] = omega arith
markdown_files_le ((path, contents) ∷ files) = omega (
  arith,
  with_file_le (strip_prefix "wiki/" path) contents (markdown_files files),
  markdown_files_le files,
)

pub walk_markdown_files_le : (files : Files) → length (walk_markdown_files files) ≤ length files
unfolding walk_markdown_files
walk_markdown_files_le files =
    omega (arith, length-sort_files (markdown_files files), markdown_files_le files)
