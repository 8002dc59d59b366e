-- ===== src/Approval/OneTime.antt =====
-- approval.rs (crates/zbrain/src): a consumed challenge and the operations that come after.
use mathlib.Core.Path.{subst}
use zbrain.Prelude.{
  ℕ, String, true, false, ◌≡◌, ◌≢◌, sym, ◌∙◌, some, List, [], ◌∷◌, eq_iff, ok, arith, All,
}
use zbrain.Prelude.Assoc.{insert}
use zbrain.Ids.Generated.{new_challenge_id}
use zbrain.Approval.{Challenge, ChallengeItem, ChallengePrepare}
use zbrain.Approval.RecordLaws.{consumed-granted}
use zbrain.Approval.Ceremony.{
  Crates, Call, Files, read_challenge, validate_token, prepare, prepare_batch, prepared,
  prepared_batch, grant, grant_items, consume, release, granted_record, prepare_checks,
  prepare_batch_checks, grant_checks, grant_items_checks, consume_checks,
}
use zbrain.Approval.Files.{
  Op, prepare_op, prepare_batch_op, grant_op, grant_items_op, consume_op, run_op, run_ops, Holds,
  IsSound, checked_write-files, read_challenge-parts, read_challenge-Holds, Holds-insert_other,
  run_op-IsSound,
}

-- The random bytes of a new challenge do not make the id anew.
abbrev pub AvoidsId : String → Op → Type 0
AvoidsId id (prepare_op call p) =
    (random : List ℕ) → call.random ≡ some random → new_challenge_id random ≢ id
AvoidsId id (prepare_batch_op call items) =
    (random : List ℕ) → call.random ≡ some random → new_challenge_id random ≢ id
AvoidsId id _ = Unit

module _ (crates : Crates) (workspace : String) where
  pub record IsConsumed (files : Files crates) (id : String) : Type 0 where
    pub challenge : Challenge
    pub held : Holds crates workspace files id challenge
    pub is_consumed : challenge.consumed ≡ true

module _ (crates : Crates) (workspace : String) where
  -- What is read of a consumed challenge is the consumed record.
  pub read_consumed :
      (call : Call) (id : String) (files : Files crates) (c : Challenge)
      → IsConsumed crates workspace files id
      → read_challenge crates workspace call id files ≡ ok c
      → (c.consumed ≡ true) × (c.granted ≡ true)
  read_consumed call id files c k r =
      let (contents, stored, decoded, valid) =
        read_challenge-parts crates workspace call id files c r in
      let consumed : c.consumed ≡ true =
        ground (arith, k.held.stored, k.held.decoded, k.is_consumed) in
      (consumed, consumed-granted crates.chrono crates.sha256 workspace c valid consumed)

  IsConsumed-insert_other :
      (files : Files crates) (id j : String) (b : crates.Json)
      → j ≢ id
      → IsConsumed crates workspace files id
      → IsConsumed crates workspace (insert j b files) id
  IsConsumed-insert_other files id j b other k = record {
    challenge = k.challenge;
    held =
        Holds-insert_other crates workspace files id j b k.challenge (ground (arith, eq_iff j id))
          k.held;
    is_consumed = k.is_consumed;
  }

  prepare_checks-ok :
      (call : Call) (p : ChallengePrepare) (c : Challenge)
      → prepare_checks crates workspace call p ≡ ok c
      → (random : List ℕ) × (call.random ≡ some random) × (c.id ≡ new_challenge_id random)
  unfolding prepare_checks prepared
  prepare_checks-ok call p c h = ground arith

  prepare_batch_checks-ok :
      (call : Call) (items : List ChallengeItem) (c : Challenge)
      → prepare_batch_checks crates workspace call items ≡ ok c
      → (random : List ℕ) × (call.random ≡ some random) × (c.id ≡ new_challenge_id random)
  unfolding prepare_batch_checks prepared_batch
  prepare_batch_checks-ok call items c h = ground arith

  release-id :
      (call : Call) (c : Challenge) (g : Challenge × String)
      → release crates workspace call c ≡ ok g
      → g.0.id ≡ c.id
  unfolding release granted_record
  release-id call c g h = ground arith

  -- A grant reads an ungranted record and keeps its id.
  pub grant_checks-ok :
      (call : Call) (j : String) (files : Files crates) (g : Challenge × String)
      → grant_checks crates workspace call j files ≡ ok g
      → (c : Challenge) × (read_challenge crates workspace call j files ≡ ok c)
        × (c.granted ≡ false)
        × (g.0.id ≡ c.id)
  unfolding grant_checks
  grant_checks-ok call j files g h =
      let parts : (c : Challenge) × (read_challenge crates workspace call j files ≡ ok c)
          × (c.granted ≡ false)
          × (release crates workspace call c ≡ ok g) =
        ground arith in
      let (c, r, ungranted, released) = parts in (c, r, ungranted, release-id call c g released)

  pub grant_items_checks-ok :
      (call : Call) (j : String) (granted skipped : List String) (files : Files crates)
      (g : Challenge × String)
      → grant_items_checks crates workspace call j granted skipped files ≡ ok g
      → (c : Challenge) × (read_challenge crates workspace call j files ≡ ok c)
        × (c.granted ≡ false)
        × (g.0.id ≡ c.id)
  unfolding grant_items_checks
  grant_items_checks-ok call j granted skipped files g h =
      let parts : (c : Challenge) × (read_challenge crates workspace call j files ≡ ok c)
          × (c.granted ≡ false)
          × (release crates workspace call
                (record c { granted_items = granted; skipped_items = skipped })
              ≡ ok g) =
        ground arith in
      let (c, r, ungranted, released) = parts in (c, r, ungranted, release-id call _ g released)

  -- A consumption reads a record that was not consumed and keeps its id.
  pub consume_checks-ok :
      (call : Call) (j token : String) (files : Files crates) (c : Challenge)
      → consume_checks crates workspace call j token files ≡ ok c
      → (d : Challenge) × (read_challenge crates workspace call j files ≡ ok d)
        × (d.consumed ≡ false)
        × (c.id ≡ d.id)
        × (c.consumed ≡ true)
  unfolding consume_checks validate_token
  consume_checks-ok call j token files c h = ground arith

  -- In sound files a record with the consumed id that is read is the consumed one.
  pub read_same :
      (call : Call) (id j : String) (files : Files crates) (c : Challenge)
      → IsSound crates workspace files
      → IsConsumed crates workspace files id
      → read_challenge crates workspace call j files ≡ ok c
      → c.id ≡ id
      → (c.consumed ≡ true) × (c.granted ≡ true)
  read_same call id j files c s k r same =
      let held = read_challenge-Holds crates workspace call j files s r in
      let here : j ≡ id = ground (arith, held.placed) in
      read_consumed call id files c k
        (subst (λ x. read_challenge crates workspace call x files ≡ ok c) here r)

  run_op-IsConsumed :
      (op : Op) (files : Files crates) (id : String)
      → AvoidsId id op
      → IsSound crates workspace files
      → IsConsumed crates workspace files id
      → IsConsumed crates workspace (run_op crates workspace op files) id
  unfolding run_op prepare prepare_batch grant grant_items consume
  run_op-IsConsumed (prepare_op call p) files id avoids s k =
      checked_write-files crates workspace (λ f. IsConsumed crates workspace f id) call files _
        (λ c. c) (λ c. c) k
        λ c e v.
          let (random, drawn, made) = prepare_checks-ok call p c e in
          IsConsumed-insert_other files id c.id _ (λ same. avoids random drawn (sym made ∙ same)) k
  run_op-IsConsumed (prepare_batch_op call items) files id avoids s k =
      checked_write-files crates workspace (λ f. IsConsumed crates workspace f id) call files _
        (λ c. c) (λ c. c) k
        λ c e v.
          let (random, drawn, made) = prepare_batch_checks-ok call items c e in
          IsConsumed-insert_other files id c.id _ (λ same. avoids random drawn (sym made ∙ same)) k
  run_op-IsConsumed (grant_op call j) files id avoids s k =
      checked_write-files crates workspace (λ f. IsConsumed crates workspace f id) call files _
        (λ g. g.0) (λ g. g) k
        λ g e v.
          let (c, r, ungranted, ids) = grant_checks-ok call j files g e in
          IsConsumed-insert_other files id g.0.id _
            (λ same. ground (arith, read_same call id j files c s k r (sym ids ∙ same))) k
  run_op-IsConsumed (grant_items_op call j granted skipped) files id avoids s k =
      checked_write-files crates workspace (λ f. IsConsumed crates workspace f id) call files _
        (λ g. g.0) (λ g. g) k
        λ g e v.
          let (c, r, ungranted, ids) = grant_items_checks-ok call j granted skipped files g e in
          IsConsumed-insert_other files id g.0.id _
            (λ same. ground (arith, read_same call id j files c s k r (sym ids ∙ same))) k
  run_op-IsConsumed (consume_op call j token) files id avoids s k =
      checked_write-files crates workspace (λ f. IsConsumed crates workspace f id) call files _
        (λ c. c) (λ c. c) k
        λ c e v.
          let (d, r, fresh, ids, spent) = consume_checks-ok call j token files c e in
          IsConsumed-insert_other files id c.id _
            (λ same. ground (arith, read_same call id j files d s k r (sym ids ∙ same))) k

  pub run_ops-IsConsumed :
      (ops : List Op) (files : Files crates) (id : String)
      → All (AvoidsId id) ops
      → IsSound crates workspace files
      → IsConsumed crates workspace files id
      → IsConsumed crates workspace (run_ops crates workspace ops files) id
  unfolding run_ops
  run_ops-IsConsumed [] files id avoids s k = k
  run_ops-IsConsumed (op ∷ ops) files id (a, avoids) s k =
      run_ops-IsConsumed ops (run_op crates workspace op files) id avoids
        (run_op-IsSound crates workspace op files s) (run_op-IsConsumed op files id a s k)
