-- ===== src/Approval/Files.antt =====
-- approval.rs (crates/zbrain/src): the operations of the ceremony as steps on the challenge files, and the
-- soundness of the files.
use mathlib.Core.Path.{subst}
use zbrain.Prelude.Effects.{Write}
use zbrain.Prelude.{
  String, false, ◌≡◌, refl, ap, ◌∙◌, some, List, [], ◌∷◌, ◌==◌, eq_iff, Result, ok, err, arith, inl,
  inr, Bool-cases,
}
use zbrain.Prelude.Assoc.{get, insert, get-insert}
use zbrain.Approval.{Challenge, ChallengeItem, ChallengePrepare, ChallengeError}
use zbrain.Approval.Record.{validate_challenge_record}
use zbrain.Approval.Ceremony.{
  Crates, Call, Files, Outcome, after_checks, returning, read_challenge, publish, write_challenge,
  prepare, prepare_batch, grant, grant_items, consume,
}

-- The operations on the files, each with what its call meets.
pub data Op : Type 0 where
  prepare_op : Call → ChallengePrepare → Op
  prepare_batch_op : Call → List ChallengeItem → Op
  grant_op : Call → String → Op
  grant_items_op : Call → String → List String → List String → Op
  consume_op : Call → String → String → Op

module _ (crates : Crates) (workspace : String) where
  unfoldable pub run_op : Op → Files crates → Files crates
  run_op (prepare_op call p) files = (prepare crates workspace call p files).0
  run_op (prepare_batch_op call items) files = (prepare_batch crates workspace call items files).0
  run_op (grant_op call id) files = (grant crates workspace call id files).0
  run_op (grant_items_op call id granted skipped) files =
      (grant_items crates workspace call id granted skipped files).0
  run_op (consume_op call id token) files = (consume crates workspace call id token files).0

  unfoldable pub run_ops : List Op → Files crates → Files crates
  unfolding run_op
  run_ops [] files = files
  run_ops (op ∷ ops) files = run_ops ops (run_op op files)

  -- A file holds a valid record under the record's own id.
  pub record Holds (files : Files crates) (id : String) (c : Challenge) : Type 0 where
    pub contents : crates.Json
    pub stored : get files id ≡ some contents
    pub decoded : crates.decode contents ≡ some c
    pub valid : validate_challenge_record crates.chrono crates.sha256 workspace c ≡ ok tt
    pub placed : c.id ≡ id

  -- Every file does.
  pub record IsSound (files : Files crates) : Type 0 where
    pub holds :
        (id : String) (contents : crates.Json)
        → get files id ≡ some contents
        → (c : Challenge) × Holds files id c

-- What holds of the files before, and after the rest, holds after the whole.
pub after_checks-files :
    {F A B : Type 0} (P : F → Type 0) (files : F) (r : Result ChallengeError A)
    (rest : A → Outcome F B)
    → P files
    → ((a : A) → r ≡ ok a → P (rest a).0)
    → P (after_checks files r rest).0
after_checks-files P files (err e) rest before after = before
after_checks-files P files (ok a) rest before after = after a refl

pub returning-files : {F A B : Type 0} (b : B) (o : Outcome F A) → (returning b o).0 ≡ o.0
returning-files b (files, ok a) = refl
returning-files b (files, err e) = refl

pub returning-eq-ok :
    {F A B : Type 0} (b c : B) (o : Outcome F A)
    → (returning b o).1 ≡ ok c
    → (b ≡ c) × ((a : A) × (o.1 ≡ ok a))
returning-eq-ok b c (files, ok a) h = (ground arith, (a, refl))
returning-eq-ok b c (files, err e) h = cc

module _ (crates : Crates) (workspace : String) where
  pub Holds-insert_other :
      (files : Files crates) (id j : String) (b : crates.Json) (c : Challenge)
      → (j == id) ≡ false
      → Holds crates workspace files id c
      → Holds crates workspace (insert j b files) id c
  Holds-insert_other files id j b c other h = record {
    contents = h.contents;
    stored = rw (get-insert j id b files, other) h.stored;
    decoded = h.decoded;
    valid = h.valid;
    placed = h.placed;
  }

  pub Holds-insert_self :
      (files : Files crates) (c : Challenge)
      → validate_challenge_record crates.chrono crates.sha256 workspace c ≡ ok tt
      → Holds crates workspace (insert c.id (crates.encode c) files) c.id c
  Holds-insert_self files c v = record {
    contents = crates.encode c;
    stored = rw (get-insert c.id c.id (crates.encode c) files, (eq_iff c.id c.id).1 refl) refl;
    decoded = crates.decode-encode c;
    valid = v;
    placed = refl;
  }

  pub IsSound-insert :
      (files : Files crates) (c : Challenge)
      → validate_challenge_record crates.chrono crates.sha256 workspace c ≡ ok tt
      → IsSound crates workspace files
      → IsSound crates workspace (insert c.id (crates.encode c) files)
  IsSound-insert files c v s = record {
    holds = λ id contents e. elim (Bool-cases (c.id == id)) [
      | inl same ↦ (
        c,
        subst (λ x. Holds crates workspace (insert c.id (crates.encode c) files) x c)
            ((eq_iff c.id id).0 same) (Holds-insert_self files c v),
      )
      | inr other ↦
          let (d, h) =
            s.holds id contents (ground (arith, get-insert c.id id (crates.encode c) files)) in
          (d, Holds-insert_other files id c.id (crates.encode c) d other h)
    ];
  }

  -- A write leaves the files or puts a record that is valid under its own id.
  pub write_challenge-files :
      (P : Files crates → Type 0) (call : Call) (c : Challenge) (files : Files crates)
      → P files
      → (validate_challenge_record crates.chrono crates.sha256 workspace c ≡ ok tt
          → P (insert c.id (crates.encode c) files))
      → P (write_challenge crates workspace call c files).0
  unfolding write_challenge publish
  write_challenge-files P call c files before after =
      after_checks-files P files _ _ before λ u e. publish-files call.write (ground arith)
    where
      publish-files :
          (w : Write)
          → validate_challenge_record crates.chrono crates.sha256 workspace c ≡ ok tt
          → P (publish crates workspace w c files).0
      publish-files Write.published v = after v
      publish-files Write.unpublished v = before
      publish-files Write.published_then_failed v = after v

  -- An operation leaves the files, or writes a record whose checks passed.
  pub checked_write-files :
      {B : Type 0} (P : Files crates → Type 0) (call : Call) (files : Files crates)
      (checks : Result ChallengeError B) (record_of : B → Challenge) {D : Type 0} (result : B → D)
      → P files
      → ((b : B)
          → checks ≡ ok b
          → validate_challenge_record crates.chrono crates.sha256 workspace (record_of b) ≡ ok tt
          → P (insert (record_of b).id (crates.encode (record_of b)) files))
      → P
          (after_checks files checks (λ b.
            returning (result b) (write_challenge crates workspace call (record_of b) files))).0
  checked_write-files P call files checks record_of result before after =
      after_checks-files P files checks _ before λ b e.
        rw (returning-files (result b) (write_challenge crates workspace call (record_of b) files))
          (write_challenge-files P call (record_of b) files before (after b e))

  pub read_challenge-parts :
      (call : Call) (id : String) (files : Files crates) (c : Challenge)
      → read_challenge crates workspace call id files ≡ ok c
      → (contents : crates.Json) × (get files id ≡ some contents)
        × (crates.decode contents ≡ some c)
        × (validate_challenge_record crates.chrono crates.sha256 workspace c ≡ ok tt)
  unfolding read_challenge
  read_challenge-parts call id files c h = ground arith

  -- What is read is valid and, where the files are sound, stored under its own id.
  pub read_challenge-Holds :
      (call : Call) (id : String) (files : Files crates) {c : Challenge}
      → IsSound crates workspace files
      → read_challenge crates workspace call id files ≡ ok c
      → Holds crates workspace files id c
  read_challenge-Holds call id files {c} s h =
      let (contents, stored, decoded, valid) = read_challenge-parts call id files c h in
      let (d, held) = s.holds id contents stored in
      let same : c ≡ d = ground (arith, held.stored, held.decoded) in
      record {
        contents = contents;
        stored = stored;
        decoded = decoded;
        valid = valid;
        placed = ap (λ (x : Challenge). x.id) same ∙ held.placed;
      }

  -- Every operation keeps the files sound.
  pub run_op-IsSound :
      (op : Op) (files : Files crates)
      → IsSound crates workspace files
      → IsSound crates workspace (run_op crates workspace op files)
  unfolding run_op prepare prepare_batch grant grant_items consume
  run_op-IsSound (prepare_op call p) files s =
      checked_write-files (IsSound crates workspace) call files _ (λ c. c) (λ c. c) s
        λ c e v. IsSound-insert files c v s
  run_op-IsSound (prepare_batch_op call items) files s =
      checked_write-files (IsSound crates workspace) call files _ (λ c. c) (λ c. c) s
        λ c e v. IsSound-insert files c v s
  run_op-IsSound (grant_op call id) files s =
      checked_write-files (IsSound crates workspace) call files _ (λ g. g.0) (λ g. g) s
        λ g e v. IsSound-insert files g.0 v s
  run_op-IsSound (grant_items_op call id granted skipped) files s =
      checked_write-files (IsSound crates workspace) call files _ (λ g. g.0) (λ g. g) s
        λ g e v. IsSound-insert files g.0 v s
  run_op-IsSound (consume_op call id token) files s =
      checked_write-files (IsSound crates workspace) call files _ (λ c. c) (λ c. c) s
        λ c e v. IsSound-insert files c v s

  -- Any sequence of operations keeps sound files sound: each stored challenge is valid, bound to this
  -- workspace and stored under its own id, also after writes that fail before or after the rename.
  pub run_ops-IsSound :
      (ops : List Op) (files : Files crates)
      → IsSound crates workspace files
      → IsSound crates workspace (run_ops crates workspace ops files)
  unfolding run_ops
  run_ops-IsSound [] files s = s
  run_ops-IsSound (op ∷ ops) files s =
      run_ops-IsSound ops (run_op crates workspace op files) (run_op-IsSound op files s)
