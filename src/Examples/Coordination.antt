-- ===== src/Examples/Coordination.antt =====
-- A generation that is advanced once, and once cut short.
use zbrain.Prelude.Effects.{Write}
use zbrain.Prelude.{◌+◌, true, false, ◌≡◌, refl, ◌⊎◌, none, some, [], ◌∷◌, ok, ◌<◌, arith}
use zbrain.Prelude.Assoc.{Assoc, get}
use zbrain.Coordination.{
  JsonValue, generation_of, u64_of, present, Crates, Call, Control, WorkspaceGeneration,
  begin_canonical_mutation_unlocked, default_generation, mutation_checks, or_default,
  read_workspace_generation, read_generation_file, mark_dirty_unlocked, write_dirty,
  write_generation_file, advanced,
}
use zbrain.Coordination.Barrier.{
  Holds, Follows, begin_mutation-ok, begin_mutations, begin_mutations-Follows,
}

-- A generation as the object that serde_json makes of it.
abbrev object_of : WorkspaceGeneration → Assoc JsonValue
object_of g =
    ("current", JsonValue.number g.current) ∷ ("published", JsonValue.number g.published) ∷ []

abbrev pub crates : Crates
crates = record {
  Json = Assoc JsonValue;
  encode = object_of;
  decode = some;
  decode-encode = λ g. refl;
}

abbrev pub call : Call
call = record {
  is_workspace = true;
  index_paths_valid = true;
  generation_readable = true;
  dirty_write = Write.published;
  generation_written = true;
}

abbrev three : WorkspaceGeneration
three = record { current = 3; published = 3 }

abbrev pub control : Control crates
control = record { generation = some (object_of three); is_dirty = false }

begins :
    (begin_canonical_mutation_unlocked crates call control).1
    ≡ ok (record { current = 4; published = 3 })
unfolding begin_canonical_mutation_unlocked mutation_checks or_default read_workspace_generation
    read_generation_file mark_dirty_unlocked write_dirty write_generation_file advanced
    generation_of u64_of present get
begins = refl

begin_mutation-ok_example :
    ((begin_canonical_mutation_unlocked crates call control).0.is_dirty ≡ true)
    × Holds crates
        (begin_canonical_mutation_unlocked crates call control).0
        (record { current = 4; published = 3 })
    × ((old : WorkspaceGeneration) × (Holds crates control old
          ⊎ (control.generation ≡ none) × (old ≡ default_generation crates))
        × (4 ≡ old.current + 1)
        × (3 ≡ old.published)
        × (4 < 18_446_744_073_709_551_616))
begin_mutation-ok_example =
    begin_mutation-ok crates call control (record { current = 4; published = 3 }) begins

three-Holds : Holds crates control three
unfolding generation_of u64_of present get
three-Holds = record {
  contents = object_of three;
  value = object_of three;
  stored = refl;
  decoded = refl;
  parsed = refl;
  ordered = omega arith;
}

begin_mutations-Follows_example :
    Follows crates three
      (begin_mutations crates (record call { generation_written = false } ∷ call ∷ []) control)
begin_mutations-Follows_example =
    begin_mutations-Follows crates (record call { generation_written = false } ∷ call ∷ []) three
      control three-Holds
