-- ===== src/Lib.antt =====
-- zbrain keeps claims in Markdown files, lets an owner approve them, and serves only claims whose whole
-- support is approved and untampered. This library models, from crates/zbrain/src:
--
--   * paths.rs and boundary.rs in Paths: the pure functions on paths (`normalize`, `safe_relative_path`,
--     `path_within`, `absolute_under`, `is_safe_workspace_name`) on lists of components, read as
--     `std::path` reads them on Unix: a `.` behind the first piece is passed over, and two paths are the same
--     where their components are, so what `safe_relative_path` returns is known up to its spelling.
--   * the checks and the making of identifiers and hash texts (claims.rs, approval.rs, transition.rs,
--     index_state.rs, evidence.rs, campaign.rs) in Ids.
--   * claims.rs in Claims: the records, `validate_claim` with all it calls (Claims/Validate) and the
--     digests (Claims/Digest), and the heuristics that find contradictions (Claims/Contradictions), over the
--     standard library's Unicode tables, the parameter `Unicode`. `render_claim_markdown` is a field
--     of `Canon`, beside SHA-256.
--     Claims/Document splits a document from its front matter, whose readers are the parameter `Frontmatter`;
--     Claims/Scan is `scan_workspace_inner` and Claims/Store the reads and writes of `ClaimStore`, on files by
--     their paths from the root of the workspace. What the file system answers is a record `Answers`.
--   * trust.rs in Trust: the validator with its five maps. Trust/Visit is `visit`, Trust/Root the entry
--     points; Trust/Trusted says independently what a trusted claim is. `visit` recurs on fuel: each level
--     marks an id as being visited, so more fuel than ids that can be found is enough.
--   * approval.rs in Approval: the challenge record and its action digest, its checks (Approval/Record),
--     and the operations of `ChallengeStore` (Approval/Ceremony). An operation takes the challenge files
--     and returns them beside its result. What the file system, the clock and the random source answer
--     in one call is a `Call`; a write ends published, unpublished, or published and then failed.
--     Approval/Apply is the ceremony against the claims: `prepare_challenge`, `apply_challenge` and, in
--     Approval/Apply/Batch, their batch forms, on an `Office` of challenge files and claims.
--   * transition.rs in Transition: the journal of a pending transition and its checks, and in
--     Transition/Journal the exclusive write, the read and the recovery. A `Disk` is the journal and the
--     files by their relative paths; a `Call` holds the answers of the file system to each step, so that an
--     attempt can be cut short anywhere. Its loops run over the targets. Transition/Base64 is the text of a
--     target's bytes in the journal; Transition/Mutation is the recovery before a mutation, on a `World` that
--     holds journal, files and generation.
--   * coordination.rs in Coordination: the generation of a workspace and the barrier
--     `begin_canonical_mutation_unlocked`, which marks the index dirty before anything canonical is written.
--   * lifecycle.rs in Lifecycle: the plans of approvals, supersessions, revocations and migrations, and in
--     Lifecycle/Commit the whole operations, which recover, plan, pass the barrier and write. The evidence
--     rules are the parameter `Evidence`. The validator has one step of fuel more than there are files, which is
--     enough, since each id that can be read takes a file of its own.
--   * campaign.rs in Campaign: a run of drafts, its checks and counts, and the operations of `CampaignStore`
--     (Campaign/Store) on the run files. What a submission needs of the claims is the interface
--     `ClaimDrafts`, which Campaign/Drafts fills with the store of claims. Campaign/Ledger says
--     independently what a run is to its owner: slots that are filled once and closed at the end.
--
-- A claim's support is decided by Trust from what Claims computes; the ceremony of Approval authorises the
-- transitions that make a claim approved, and Transition puts a transition of several files on disk.
-- Examples holds a concrete world and runs.
--
-- A `String` is a sequence of Unicode scalar values, and lengths, hashes and bytes are those of its UTF-8
-- encoding. A `HashMap` is an association list, a `HashSet` a list. An error message is a constructor
-- with the values that it prints, or only the id where it lists paths or repeats another error.
-- Crates are parameters: chrono is `Chrono` (times are nanoseconds from
-- chrono's first time; printing cuts to whole seconds), sha2 and serde_json are fields of `Crates`.
-- `Chrono` reads back every time that it prints, which chrono does for the years 0 to 9999. The files below
-- wiki, the campaign runs, the challenges and the generation are separate stores: the journals that the
-- program writes name wiki files only, and one made by hand that names another file is outside the model.
-- Workspace locks are not modelled: operations on one workspace are sequences.
--
-- Not modelled: `render_claim_markdown` and the YAML front matter, the store of evidence, the prompts
-- of approval.rs, the workspace locks, the SQLite index, search, the MCP server, the command
-- line, set-up and assets. The first two are pure enough to follow; the others are mostly input and output.
pub mod Prelude
pub mod Paths
pub mod Ids
pub mod Clock
pub mod Claims
pub mod Trust
pub mod Coordination
pub mod Campaign
pub mod Approval
pub mod Transition
pub mod Lifecycle
pub mod Examples
