-- ===== src/Transition/Mutation.antt =====
-- transition.rs (crates/zbrain/src): the recovery before a mutation, behind the barrier of
-- coordination.rs.
use zbrain.Prelude.{String, Option, Result, ok, err}
use zbrain.Prelude.Effects.{Outcome, after_step}
use zbrain.Coordination
use zbrain.Coordination.{Control, begin_canonical_mutation_unlocked}
use zbrain.Transition.{PendingTransition, TransitionError, not_found}
use zbrain.Transition.Journal
use zbrain.Transition.Journal.{Disk, Files, read_pending_transition, recover_pending_transition}

-- A workspace: its files, the journal, if there is one, and the generation and mark of its index.
pub record World (journals : Journal.Crates) (generations : Coordination.Crates) : Type 0 where
  pub journal : Option journals.Json
  pub files : Files
  pub control : Control generations

module _ (journals : Journal.Crates) (generations : Coordination.Crates) (workspace : String) where
  abbrev pub disk_of : World journals generations → Disk journals workspace
  disk_of w = record { journal = w.journal; files = w.files }

  -- A step on the journal and the files alone.
  unfoldable pub on_disk :
      {A : Type 0}
      → World journals generations
      → Outcome (Disk journals workspace) TransitionError A
      → Outcome (World journals generations) TransitionError A
  on_disk w step = (record w { journal = step.0.journal; files = step.0.files }, step.1)

  abbrev pub refused_as : {A B E F : Type 0} → F → A → Result E B → Result F A
  refused_as refusal a (ok b) = ok a
  refused_as refusal a (err e) = err refusal

  -- The barrier, which changes the generation and the mark only.
  unfoldable pub begin_mutation :
      {E : Type 0}
      → E
      → Coordination.Call
      → World journals generations
      → Outcome (World journals generations) E (Unit {0})
  begin_mutation refusal call w =
      let step = begin_canonical_mutation_unlocked generations call w.control in
      (record w { control = step.0 }, refused_as refusal tt step.1)

  unfoldable pub recover_found :
      Coordination.Call
      → Journal.Call
      → World journals generations
      → Result TransitionError PendingTransition
      → Outcome (World journals generations) TransitionError (Unit {0})
  recover_found call answers w (ok pending) =
      after_step (begin_mutation TransitionError.mutation_refused call w) (λ begun done.
        on_disk begun (recover_pending_transition journals workspace answers (disk_of begun)))
  recover_found call answers w (err not_found) = (w, ok tt)
  recover_found call answers w (err e) = (w, err (TransitionError.pending_invalid e))

  unfoldable pub recover_pending_transition_for_mutation :
      Coordination.Call
      → Journal.Call
      → World journals generations
      → Outcome (World journals generations) TransitionError (Unit {0})
  recover_pending_transition_for_mutation call answers w =
      recover_found call answers w (read_pending_transition journals workspace answers (disk_of w))
