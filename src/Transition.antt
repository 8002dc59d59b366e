-- ===== src/Transition.antt =====
-- transition.rs (crates/zbrain/src): the journal of a pending transition and its checks.
pub mod Base64
pub mod Journal
pub mod Targets
pub mod Written
pub mod Recover
pub mod Untouched
pub mod Healthy
pub mod Complete
pub mod Mutation
use Prim.Native.Char.{code}
use zbrain.Prelude.{
  ℕ, String, Bool, true, false, not, ◌&&◌, List, [], ◌∷◌, ◌==◌, Result, ok, ◌>>=◌, ◌>>◌, ensure,
  refuse_if, is_empty, is_ok, if◌then◌else◌,
}
use zbrain.Prelude.Text.{is_blank, text_le}
use zbrain.Prelude.Sort.{sort_by}
use zbrain.Paths.{
  Component, root_dir, cur_dir, parent_dir, normal, FilePath, components, safe_relative_path,
  is_safe_workspace_name,
}
use zbrain.Ids.{is_transition_sha256}
use zbrain.Ids.Generated.{sha256_text, concat}
use zbrain.Claims.{is_known_transition_kind}

pub record PendingTransitionTarget : Type 0 where
  pub path : String
  pub preimage_sha256 : String
  pub target_sha256 : String
  pub target_bytes : List ℕ

pub record PendingTransition : Type 0 where
  pub operation_id : String
  pub kind : String
  pub workspace : String
  pub targets : List PendingTransitionTarget

-- `TransitionError`, its messages each with the values that it prints.
pub data TransitionError : Type 0 where
  not_found : TransitionError
  workspace_unsafe operation_id_required targets_required : TransitionError
  workspace_mismatch kind_unsupported : String → TransitionError
  target_unsafe target_not_normalized preimage_hash_invalid : String → TransitionError
  target_hash_invalid target_bytes_mismatch target_duplicated : String → TransitionError
  targets_unsorted : String → TransitionError
  path_refused undecodable publish_failed remove_failed : TransitionError
  target_unresolved target_missing target_unreadable : String → TransitionError
  preimage_mismatch target_not_written target_not_reached : String → TransitionError
  mutation_refused : TransitionError
  pending_exists : String → TransitionError
  pending_invalid : TransitionError → TransitionError

abbrev pub Check : Type 0
Check = Result TransitionError (Unit {0})

abbrev pub component_text : Component → String
component_text root_dir = "/"
component_text cur_dir = "."
component_text parent_dir = ".."
component_text (normal s) = s

-- `collect::<PathBuf>()` of components, as a text
unfoldable pub path_text : FilePath → String
path_text [] = ""
path_text (c ∷ []) = component_text c
path_text (root_dir ∷ c ∷ p) = concat "/" (path_text (c ∷ p))
path_text (b ∷ c ∷ p) = concat (component_text b) (concat "/" (path_text (c ∷ p)))

-- The comparison with the path before; `previous` begins empty.
unfoldable pub check_order : Bool → String → String → Check
check_order require_sorted previous path =
    if not (previous == "") && text_le path previous
    then (do
      refuse_if (path == previous) (TransitionError.target_duplicated path)
      refuse_if require_sorted (TransitionError.targets_unsorted path))
    else ok tt

module _ (sha256 : List ℕ → List ℕ) where
  unfoldable pub transition_sha256 : List ℕ → String
  transition_sha256 contents = sha256_text (sha256 contents)

  unfoldable pub check_target : PendingTransitionTarget → Check
  check_target target = do
    ensure (is_ok (safe_relative_path target.path)) (TransitionError.target_unsafe target.path)
    ensure (path_text (components target.path) == target.path)
        (TransitionError.target_not_normalized target.path)
    ensure (is_transition_sha256 target.preimage_sha256)
        (TransitionError.preimage_hash_invalid target.path)
    ensure (is_transition_sha256 target.target_sha256)
        (TransitionError.target_hash_invalid target.path)
    ensure (transition_sha256 target.target_bytes == target.target_sha256)
        (TransitionError.target_bytes_mismatch target.path)

  -- The loop over the targets.
  unfoldable pub check_targets : Bool → String → List PendingTransitionTarget → Check
  check_targets require_sorted previous [] = ok tt
  check_targets require_sorted previous (target ∷ targets) = do
    check_target target
    check_order require_sorted previous target.path
    check_targets require_sorted target.path targets

  unfoldable pub validate_pending_transition_inner : String → PendingTransition → Bool → Check
  validate_pending_transition_inner workspace pending require_sorted = do
    ensure (is_safe_workspace_name workspace) TransitionError.workspace_unsafe
    ensure (pending.workspace == workspace) (TransitionError.workspace_mismatch pending.workspace)
    refuse_if (is_blank pending.operation_id) TransitionError.operation_id_required
    ensure (is_known_transition_kind pending.kind) (TransitionError.kind_unsupported pending.kind)
    refuse_if (is_empty pending.targets) TransitionError.targets_required
    check_targets require_sorted "" pending.targets

  unfoldable pub normalize_pending_transition :
      String → PendingTransition → Result TransitionError PendingTransition
  normalize_pending_transition workspace pending = do
    validate_pending_transition_inner workspace pending false
    ok (record pending {
      targets = sort_by (λ (target : PendingTransitionTarget). target.path) pending.targets;
    })
