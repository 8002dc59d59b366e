-- ===== src/Coordination.antt =====
-- coordination.rs (crates/zbrain/src): the generation of a workspace, and the barrier that marks its
-- index dirty before anything canonical is written.
pub mod Barrier
use zbrain.Prelude.Assoc.{Assoc, get}
use zbrain.Prelude.{
  List, [], ◌∷◌, String, leb, length, ℕ, ◌+◌, ◌^◌, ◌<◌, Bool, true, false, not, ◌≡◌, Option, none,
  some, Result, ok, err, ◌>>=◌, ◌>>◌, ensure, refuse_if, or_fail, map_err, ltb, eqb, if◌then◌else◌,
}
use zbrain.Prelude.Effects.{Write, Outcome, after_checks, after_step}

pub record WorkspaceGeneration : Type 0 where
  pub current : ℕ
  pub published : ℕ

-- `GenerationError` and `MutationError`.
pub data MutationError : Type 0 where
  workspace_refused generation_missing generation_unreadable generation_undecodable : MutationError
  extra_fields current_required published_required : MutationError
  published_newer : ℕ → ℕ → MutationError
  index_paths_refused generation_exhausted dirty_failed generation_failed : MutationError
  generation_unread : MutationError → MutationError
  generation_unadvanced : MutationError → MutationError

abbrev pub u64_max : ℕ
u64_max = 18_446_744_073_709_551_615

-- A `serde_json::Value`, as far as the generation file tells values apart.
pub data JsonValue : Type 0 where
  null other : JsonValue
  number : ℕ → JsonValue

-- serde_json: the object that a text holds, and the text of a generation.
pub record Crates : Type 1 where
  pub Json : Type 0
  pub encode : WorkspaceGeneration → Json
  pub decode : Json → Option (Assoc JsonValue)
  pub decode-encode :
      (g : WorkspaceGeneration)
      → decode (encode g)
        ≡ some (("current", number g.current) ∷ ("published", number g.published) ∷ [])

-- `.get(..).filter(|v| !v.is_null())`
unfoldable pub present : Option JsonValue → Option JsonValue
present (some null) = none
present o = o

-- `serde_json::from_value::<u64>`
unfoldable pub u64_of : JsonValue → Result MutationError ℕ
u64_of (number n) = if leb n u64_max then ok n else err MutationError.generation_undecodable
u64_of _ = err MutationError.generation_undecodable

-- What `read_generation_file` makes of the object.
unfoldable pub generation_of : Assoc JsonValue → Result MutationError WorkspaceGeneration
generation_of value = do
  ensure (eqb (length value) 2) MutationError.extra_fields
  current_value ← or_fail (present (get value "current")) MutationError.current_required
  published_value ← or_fail (present (get value "published")) MutationError.published_required
  current ← u64_of current_value
  published ← u64_of published_value
  refuse_if (ltb current published) (MutationError.published_newer published current)
  ok (record { current = current; published = published })

-- The answers of the file system to one mutation.
pub record Call : Type 0 where
  pub is_workspace : Bool
  pub index_paths_valid : Bool
  pub generation_readable : Bool
  pub dirty_write : Write
  pub generation_written : Bool

module _ (crates : Crates) where
  -- The generation file, if there is one, and whether the dirty mark stands.
  pub record Control : Type 0 where
    pub generation : Option crates.Json
    pub is_dirty : Bool

  unfoldable pub read_generation_file :
      Call → Option crates.Json → Result MutationError WorkspaceGeneration
  read_generation_file call none = err MutationError.generation_missing
  read_generation_file call (some contents) = do
    ensure call.generation_readable MutationError.generation_unreadable
    value ← or_fail (crates.decode contents) MutationError.generation_undecodable
    generation_of value

  unfoldable pub read_workspace_generation :
      Call → Control → Result MutationError WorkspaceGeneration
  read_workspace_generation call control = do
    ensure call.is_workspace MutationError.workspace_refused
    read_generation_file call control.generation

  -- The file is renamed into place last.
  unfoldable pub write_generation_file :
      Call → WorkspaceGeneration → Control → Outcome Control MutationError (Unit {0})
  write_generation_file call state control =
      if ltb state.current state.published
      then (control, err (MutationError.published_newer state.published state.current))
      else if call.generation_written
      then (record control { generation = some (crates.encode state) }, ok tt)
      else (control, err MutationError.generation_failed)

  abbrev pub default_generation : WorkspaceGeneration
  default_generation = record { current = 0; published = 0 }

  unfoldable pub or_default :
      Result MutationError WorkspaceGeneration → Result MutationError WorkspaceGeneration
  or_default (ok state) = ok state
  or_default (err generation_missing) = ok default_generation
  or_default (err e) = err (MutationError.generation_unread e)

  unfoldable pub ensured :
      Call
      → Control
      → Result MutationError WorkspaceGeneration
      → Outcome Control MutationError WorkspaceGeneration
  ensured call control (ok state) = (control, ok state)
  ensured call control (err generation_missing) =
      after_step (write_generation_file call default_generation control)
        (λ now done. (now, ok default_generation))
  ensured call control (err e) = (control, err e)

  unfoldable pub ensure_workspace_generation :
      Call → Control → Outcome Control MutationError WorkspaceGeneration
  ensure_workspace_generation call control =
      ensured call control (read_workspace_generation call control)

  unfoldable pub write_dirty : Write → Control → Outcome Control MutationError (Unit {0})
  write_dirty Write.published control = (record control { is_dirty = true }, ok tt)
  write_dirty Write.unpublished control = (control, err MutationError.dirty_failed)
  write_dirty Write.published_then_failed control =
      (record control { is_dirty = true }, err MutationError.dirty_failed)

  unfoldable pub mark_dirty_unlocked : Call → Control → Outcome Control MutationError (Unit {0})
  mark_dirty_unlocked call control =
      if call.index_paths_valid
      then write_dirty call.dirty_write control
      else (control, err MutationError.index_paths_refused)

  unfoldable pub mutation_checks : Call → Control → Result MutationError WorkspaceGeneration
  mutation_checks call control = do
    ensure call.index_paths_valid MutationError.index_paths_refused
    state ← or_default (read_workspace_generation call control)
    refuse_if (eqb state.current u64_max) MutationError.generation_exhausted
    ok state

  unfoldable pub advanced : WorkspaceGeneration → WorkspaceGeneration
  advanced state = record { current = state.current + 1; published = state.published }

  unfoldable pub begin_canonical_mutation_unlocked :
      Call → Control → Outcome Control MutationError WorkspaceGeneration
  begin_canonical_mutation_unlocked call control =
      after_checks control (mutation_checks call control) (λ state.
        after_step (mark_dirty_unlocked call control) (λ marked dirty.
          after_step (write_generation_file call (advanced state) marked)
            (λ written done. (written, ok (advanced state)))))
