-- ===== src/Coordination/Barrier.antt =====
-- coordination.rs (crates/zbrain/src): the generation and the dirty mark over histories of mutations.
use mathlib.Core.Path.{subst}
use zbrain.Prelude.{
  sym, ◌+◌, ◌<◌, ◌≤◌, true, false, ◌≡◌, refl, ap, ◌∙◌, ◌⊎◌, inl, inr, some, none, List, [], ◌∷◌,
  Result, ok, err, arith, ltb-false, if_cases, ltb, eqb,
}
use zbrain.Prelude.Effects.{
  Write, Outcome, after_checks-ok, after_step-ok, after_checks_cases, after_step_cases,
}
use zbrain.Prelude.Assoc.{Assoc, get}
use zbrain.Coordination.{
  JsonValue, generation_of, u64_of, present, Crates, Call, Control, WorkspaceGeneration,
  MutationError, read_generation_file, read_workspace_generation, write_generation_file, or_default,
  mark_dirty_unlocked, write_dirty, mutation_checks, advanced, begin_canonical_mutation_unlocked,
  default_generation, generation_missing, u64_max,
}

generation_of-ok :
    (value : Assoc JsonValue) (g : WorkspaceGeneration)
    → generation_of value ≡ ok g
    → (g.current < 18446744073709551616)
      × (g.published < 18446744073709551616)
      × (g.published ≤ g.current)
unfolding generation_of u64_of
generation_of-ok value g h = ground arith

generation_of-encoded :
    (g : WorkspaceGeneration)
    → g.current < 18446744073709551616
    → g.published ≤ g.current
    → generation_of
        (("current", JsonValue.number g.current) ∷ ("published", JsonValue.number g.published) ∷ [])
      ≡ ok g
unfolding generation_of u64_of present get
generation_of-encoded g small ordered = ground arith

module _ (crates : Crates) where
  -- The file holds the generation, which is no older than what was published of it.
  pub record Holds (control : Control crates) (g : WorkspaceGeneration) : Type 0 where
    pub contents : crates.Json
    pub stored : control.generation ≡ some contents
    pub value : Assoc JsonValue
    pub decoded : crates.decode contents ≡ some value
    pub parsed : generation_of value ≡ ok g
    pub ordered : g.published ≤ g.current

  -- The generation has not gone back, has not been published, and the mark stands if it has moved.
  pub record Follows (before : WorkspaceGeneration) (control : Control crates) : Type 0 where
    pub now : WorkspaceGeneration
    pub holds : Holds control now
    pub same_published : now.published ≡ before.published
    pub not_back : before.current ≤ now.current
    pub marked : before.current < now.current → control.is_dirty ≡ true

  read-ok :
      (call : Call) (control : Control crates) (g : WorkspaceGeneration)
      → read_workspace_generation crates call control ≡ ok g
      → Holds control g
  unfolding read_workspace_generation read_generation_file
  read-ok call control g h =
      let (contents, value, stored, decoded, parsed) : (contents : crates.Json) × (value : Assoc
            JsonValue)
          × (control.generation ≡ some contents)
          × (crates.decode contents ≡ some value)
          × (generation_of value ≡ ok g) =
        ground arith in
      record {
        contents = contents;
        stored = stored;
        value = value;
        decoded = decoded;
        parsed = parsed;
        ordered = (generation_of-ok value g parsed).2;
      }

  or_default-ok :
      (r : Result MutationError WorkspaceGeneration) (g : WorkspaceGeneration)
      → or_default crates r ≡ ok g
      → (r ≡ ok g) ⊎ (r ≡ err generation_missing) × (g ≡ default_generation crates)
  unfolding or_default
  or_default-ok r g h = ground arith

  read-missing :
      (call : Call) (control : Control crates)
      → read_workspace_generation crates call control ≡ err generation_missing
      → control.generation ≡ none
  unfolding read_workspace_generation read_generation_file generation_of u64_of
  read-missing call control h = ground arith

  Holds-bounds :
      (control : Control crates) (g : WorkspaceGeneration)
      → Holds control g
      → (g.current < 18446744073709551616) × (g.published < 18446744073709551616)
  Holds-bounds control g h = let (c, p, o) = generation_of-ok h.value g h.parsed in (c, p)

  mutation_checks-ok :
      (call : Call) (control : Control crates) (g : WorkspaceGeneration)
      → mutation_checks crates call control ≡ ok g
      → (Holds control g ⊎ (control.generation ≡ none) × (g ≡ default_generation crates))
        × (g.current < u64_max)
  unfolding mutation_checks
  mutation_checks-ok call control g h =
      let (found, below) : (or_default crates (read_workspace_generation crates call control)
            ≡ ok g)
          × (eqb g.current u64_max ≡ false) =
        ground arith in
      elim (or_default-ok (read_workspace_generation crates call control) g found) [
        | inl r ↦
            let k = read-ok call control g r in (inl k, ground (arith, Holds-bounds control g k))
        | inr (missing, e) ↦ (inr (read-missing call control missing, e), ground (arith, e))
      ]

  Holds-encoded :
      (g : WorkspaceGeneration) (control : Control crates)
      → g.current < 18446744073709551616
      → g.published ≤ g.current
      → control.generation ≡ some (crates.encode g)
      → Holds control g
  Holds-encoded g control small ordered stored = record {
    contents = crates.encode g;
    stored = stored;
    value =
        ("current", JsonValue.number g.current) ∷ ("published", JsonValue.number g.published) ∷ [];
    decoded = crates.decode-encode g;
    parsed = generation_of-encoded g small ordered;
    ordered = ordered;
  }

  write-ok :
      (call : Call) (g : WorkspaceGeneration) (control : Control crates) {u : Unit}
      → (write_generation_file crates call g control).1 ≡ ok u
      → ((write_generation_file crates call g control).0
          ≡ record control { generation = some (crates.encode g) })
        × (g.published ≤ g.current)
  unfolding write_generation_file
  write-ok call g control h = (ground arith, ground arith)

  mark-ok :
      (call : Call) (control : Control crates) {u : Unit}
      → (mark_dirty_unlocked crates call control).1 ≡ ok u
      → (mark_dirty_unlocked crates call control).0 ≡ record control { is_dirty = true }
  unfolding mark_dirty_unlocked write_dirty
  mark-ok call control h = ground arith

  -- A mutation that may begin marks the index dirty, and the generation that the file then holds is
  -- one more than the generation before it, 0 where there was no file, fits 64 bits, and is no older
  -- than what was published, which stays.
  pub begin_mutation-ok :
      (call : Call) (control : Control crates) (g : WorkspaceGeneration)
      → (begin_canonical_mutation_unlocked crates call control).1 ≡ ok g
      → ((begin_canonical_mutation_unlocked crates call control).0.is_dirty ≡ true)
        × Holds (begin_canonical_mutation_unlocked crates call control).0 g
        × ((old : WorkspaceGeneration) × (Holds control old
              ⊎ (control.generation ≡ none) × (old ≡ default_generation crates))
            × (g.current ≡ old.current + 1)
            × (g.published ≡ old.published)
            × (g.current < 18446744073709551616))
  unfolding begin_canonical_mutation_unlocked advanced
  begin_mutation-ok call control g h =
      let (old, checked, same0, h1) =
        after_checks-ok control (mutation_checks crates call control) _ h in
      let (u, marked, same1, h2) = after_step-ok (mark_dirty_unlocked crates call control) _ h1 in
      let (v, written, same2, h3) =
        after_step-ok
          (write_generation_file crates call (advanced crates old)
            (mark_dirty_unlocked crates call control).0)
          _ h2 in
      let (found, small) = mutation_checks-ok call control old checked in
      let (put, ordered) =
        write-ok call (advanced crates old) (mark_dirty_unlocked crates call control).0 written in
      let whole : (begin_canonical_mutation_unlocked crates call control).0
          ≡ record { generation = some (crates.encode (advanced crates old)); is_dirty = true } =
        ap (λ x. x.0) (same0 ∙ same1 ∙ same2)
        ∙ put
        ∙ ap
            (λ (c : Control crates). record c {
              generation = some (crates.encode (advanced crates old));
            })
            (mark-ok call control marked) in
      let result : advanced crates old ≡ g = cc h3 in
      (
        ap (λ (c : Control crates). c.is_dirty) whole,
        subst (Holds (begin_canonical_mutation_unlocked crates call control).0) result (
            Holds-encoded (advanced crates old) _ (omega (arith, small)) ordered
              (ap (λ (c : Control crates). c.generation) whole)),
        (
          old,
          found,
          ap (λ (x : WorkspaceGeneration). x.current) (sym result),
          ap (λ (x : WorkspaceGeneration). x.published) (sym result),
          omega (arith, small, ap (λ (x : WorkspaceGeneration). x.current) result),
        ),
      )

  Follows-dirty :
      (before : WorkspaceGeneration) (control : Control crates)
      → Follows before control
      → Follows before (record control { is_dirty = true })
  Follows-dirty before control f = record {
    now = f.now;
    holds = record {
      contents = f.holds.contents;
      stored = f.holds.stored;
      value = f.holds.value;
      decoded = f.holds.decoded;
      parsed = f.holds.parsed;
      ordered = f.holds.ordered;
    };
    same_published = f.same_published;
    not_back = f.not_back;
    marked = λ moved. refl;
  }

  mark-Follows :
      (before : WorkspaceGeneration) (call : Call) (control : Control crates)
      → Follows before control
      → Follows before (mark_dirty_unlocked crates call control).0
  unfolding mark_dirty_unlocked write_dirty
  mark-Follows before call control f =
      if_cases (λ (o : Outcome (Control crates) MutationError Unit). Follows before o.0)
        call.index_paths_valid (λ t. by_write call.dirty_write) (λ t. f)
    where
      by_write : (w : Write) → Follows before (write_dirty crates w control).0
      by_write Write.published = Follows-dirty before control f
      by_write Write.unpublished = f
      by_write Write.published_then_failed = Follows-dirty before control f

  -- What the checks find is the generation that the file holds.
  checked-now :
      (before : WorkspaceGeneration) (call : Call) (control : Control crates)
      (state : WorkspaceGeneration) (f : Follows before control)
      → mutation_checks crates call control ≡ ok state
      → (f.now ≡ state) × (state.current < u64_max)
  checked-now before call control state f e =
      let (found, small) = mutation_checks-ok call control state e in
      elim found [
        | inl k ↦ (
          ground (
            arith, f.holds.stored, f.holds.decoded, k.stored, k.decoded, f.holds.parsed, k.parsed,
          ),
          small,
        )
        | inr (missing, default) ↦ cc (missing, f.holds.stored)
      ]

  write-Follows :
      (before : WorkspaceGeneration) (call : Call) (control : Control crates)
      (state : WorkspaceGeneration) (f : Follows before control)
      → f.now ≡ state
      → state.current < u64_max
      → control.is_dirty ≡ true
      → Follows before (write_generation_file crates call (advanced crates state) control).0
  unfolding write_generation_file advanced
  write-Follows before call control state f same small dirty =
      if_cases (λ (o : Outcome (Control crates) MutationError Unit). Follows before o.0)
        (ltb (state.current + 1) state.published) (λ t. f)
        λ t.
          if_cases (λ (o : Outcome (Control crates) MutationError Unit). Follows before o.0)
            call.generation_written
            (λ w. record {
              now = advanced crates state;
              holds =
                  Holds-encoded (advanced crates state) _ (omega (arith, small))
                    (ltb-false (state.current + 1) state.published t) refl;
              same_published =
                  ap (λ (x : WorkspaceGeneration). x.published) (sym same) ∙ f.same_published;
              not_back =
                  omega (arith, f.not_back, ap (λ (x : WorkspaceGeneration). x.current) same);
              marked = λ moved. dirty;
            })
            (λ w. f)

  begin-Follows :
      (before : WorkspaceGeneration) (call : Call) (control : Control crates)
      → Follows before control
      → Follows before (begin_canonical_mutation_unlocked crates call control).0
  unfolding begin_canonical_mutation_unlocked
  begin-Follows before call control f =
      after_checks_cases (Follows before) control (mutation_checks crates call control) _ f
        λ state checked.
          let (same, small) = checked-now before call control state f checked in
          after_step_cases (Follows before) (mark_dirty_unlocked crates call control) _
            (mark-Follows before call control f)
            λ u marked.
              let dirty : Control crates = record control { is_dirty = true } in
              let f_dirty = Follows-dirty before control f in
              let now : f_dirty.now ≡ state = ground (
                arith, same, f.holds.stored, f.holds.decoded, f_dirty.holds.stored,
                f_dirty.holds.decoded,
              ) in
              let wrote : Follows before
                  (write_generation_file crates call (advanced crates state)
                    (mark_dirty_unlocked crates call control).0).0 =
                subst
                  (λ c.
                    Follows before (write_generation_file crates call (advanced crates state) c).0)
                  (sym (mark-ok call control marked))
                  (write-Follows before call dirty state f_dirty now small refl) in
              after_step_cases (Follows before)
                (write_generation_file crates call (advanced crates state)
                  (mark_dirty_unlocked crates call control).0)
                _ wrote λ v done. wrote

  unfoldable pub begin_mutations : List Call → Control crates → Control crates
  begin_mutations [] control = control
  begin_mutations (call ∷ calls) control =
      begin_mutations calls (begin_canonical_mutation_unlocked crates call control).0

  -- Over any mutations that begin, each of which the file system may cut short anywhere, a generation
  -- file that is valid stays valid, its generation never goes back and what was published of it
  -- stays, and as soon as the generation has moved the index is marked dirty.
  pub begin_mutations-Follows :
      (calls : List Call) (g : WorkspaceGeneration) (control : Control crates)
      → Holds control g
      → Follows g (begin_mutations calls control)
  unfolding begin_mutations
  begin_mutations-Follows calls g control k = go calls control (record {
    now = g;
    holds = k;
    same_published = refl;
    not_back = omega arith;
    marked = λ moved. absurd (omega (arith, moved));
  })
    where
      go :
          (calls : List Call) (control : Control crates)
          → Follows g control
          → Follows g (begin_mutations calls control)
      go [] control f = f
      go (call ∷ calls) control f =
          go calls (begin_canonical_mutation_unlocked crates call control).0
            (begin-Follows g call control f)
