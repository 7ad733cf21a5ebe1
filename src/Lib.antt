-- ===== src/Lib.antt =====
-- A model of denju, which keeps agent skills in step between a registry and the tools of a user: its
-- skills are directories with a SKILL.md, its revisions are content-addressed trees, and the heads
-- of two devices meet in a three-way merge. The model covers the pure core of the workspace, which
-- every other crate calls, the hashes that bind a request to its operation, the social operations and
-- the outbox of the registry, and the watcher of a workspace.
--
-- The parts and the code that they model:
--   Base           what the parts share: tests on numbers, equality as an instance, lists, results,
--                  orders and the sort, texts, UTF-8, and maps in the order of their keys
--   Core.Entry     OwnedSkillEntry (crates/denju-core/src/snapshot.rs)
--   Core.Merge     crates/denju-core/src/merge.rs: merge_skill_entries and
--                  merge_skill_entries_with_resolutions (Merge.Trees), text_edits, merge_edits and
--                  merge_text (Merge.Edits); Merge.Script, Merge.Overlap, Merge.Union and
--                  Merge.Symmetry hold the proofs
--   Core.PortablePath  crates/denju-core/src/portable_path.rs: PortablePath::parse (Path),
--                  validate_symlink_target and validate_portable_tree (Tree); Links, Kinds,
--                  Valid and Paths hold the proofs
--   Core.Locator   crates/denju-core/src/locator.rs: FromStr and Display of a resource locator
--   Core.Ids       crates/denju-core/src/ids.rs: the UUIDv7 identities and generations
--   Core.Object    crates/denju-core/src/object.rs: tree objects (Tree) and revisions (Revisions),
--                  with the bytes that their identities hash; Transcript and Parents hold the
--                  proofs
--   Core.Skill     crates/denju-core/src/skill.rs: names (Name), front matter (Frontmatter),
--                  documents (Document) and directories (Directory); Words and Body hold the
--                  proofs
--   Core.Snapshot  crates/denju-core/src/snapshot.rs: manifests (Manifest), their construction
--                  (Build), and archives (Archive)
--   Sync.Desired   resolve_desired_sources (crates/denju-sync/src/lib.rs): Defs, with its proofs in
--                  Choice
--   Sync.Names     collision_alias (Alias) and allocate_projection_names (Allocate) of the same file;
--                  Decimal, Bounds, Search, Canonical, Claims, Distinct and Allocation hold the
--                  proofs
--   Wire.Json      the shape of a serialized value, and its normal form
--   Wire.Types     the values inside the requests and their JSON: TeamRole (teams.rs),
--                  PackMemberTarget (packs.rs), PublicSkillManifest (public.rs), ForkSyncIntent
--                  (workspace.rs) and ForkImportIntent (ingest.rs) of crates/denju-wire/src
--   Wire.Manifest  PublicSkillManifest::from_core and to_core (public.rs)
--   Wire.Hash      RequestHash and hash_payload (crates/denju-wire/src/mutation.rs)
--   Wire.Mutation  the request hashes of mutation.rs, mutation/social_hash.rs, mutation/admin_hash.rs,
--                  mutation/pack_hash.rs, mutation/team_hash.rs, sharing.rs, proposals.rs and
--                  teams.rs of the same crate, one definition `<name>_request` for each function
--                  `<name>_request_hash`; Request is the sum of them, Readers and Read hold the
--                  readers of their JSON, and Binding the proof
--   Registry       crates/denju-registry/src: the errors (Api) of api.rs in crates/denju-wire/src; the
--                  tables of the migrations that social operations touch (Tables);
--                  user_authority (identity_support.rs) and team_access.rs (Access, with the
--                  proofs in Publish and Granted, the second under the unique keys IsKeyed
--                  of the tables); outbox.rs (Outbox, with its proofs in Order, Drain, Enqueue,
--                  Queue and Fifo)
--   Registry.Release  release_validation.rs of the same directory
--   Registry.Social  social.rs of the same directory: its requests and responses, which are those of
--                  crates/denju-wire/src/discovery.rs (Responses), normalize_topics (Topics), the
--                  steps that every handler shares (Operations), the statements and the functions
--                  of migrations/0016_security_lock_helpers.sql (Statements), the handlers
--                  update_profile, mutate_follow, mutate_star, update_resource_topics and
--                  report_resource (Handlers), and sequences of their calls (Calls); Normal,
--                  Prepared, Kept, Replay, Later, Once, Stars, Counts and Starred hold the proofs
--   Local.Watch    crates/denju-local/src/workspace_watch.rs
--
-- How they meet: a merge and a manifest read the entries of Core.Entry; a skill directory and a
-- manifest are checked as portable trees; an object and a snapshot carry portable paths; the locator
-- and the skill share the rules on names. An error is a value of the type of the source's error
-- enum, and `?` is the bind of Result. A byte is a natural number, a text is the list of its
-- characters, and a value that the source computes modulo a power of two is reduced in the model.
-- The names of Sync.Names are the lists of their bytes: `truncate` cuts them there, and its panic
-- inside of a character is not modelled, as validated skill names are ASCII. A portable path, a target
-- of a link and what contains it are read lexically, as the code does: no link is followed.
-- A BTreeMap or BTreeSet is a list in the order of its keys.
--
-- Code from outside of the repository is a parameter: the tables of Unicode (Core.Unicode), the line
-- diff of the crate similar with the contract that its blocks describe both texts (IsDiff), the hash
-- SHA-256, the coding of hexadecimal (with the contract IsHex where it is read back), the parser of
-- the crate uuid, serde_yaml (the record Yaml), tar with zstd (the record ArchiveFormat), the
-- channel of tokio (with the contract IsChannel that a hint it takes goes to its end), and the
-- canonicalizer of JSON with the contract that its text determines the value up to the order of
-- members (IsCanonical).
--
-- The registry: a table is the list of its rows, and a handler takes the tables to its response and the
-- tables after its transaction, or to an error, after which `commit` leaves the tables as they were.
-- Transactions run one after the other. What the registry takes from other crates, the text of a
-- database error included, is the record Host.
--
-- Fuel: the search for a free alias has two rounds more than there are used names. The aliases from
-- the second on differ, so that one of them is free. The decimal digits of n have n + 1 rounds, which
-- is more than the number of its digits.
--
-- Not modelled: the rest of the local state, the other handlers of the registry, row-level security,
-- the wake that update_resource_topics sends inside of the process once it has committed, the HTTP
-- client, the command line and the server, which are mostly SQL, network, files and terminal, and
-- the tasks of the repository.
pub mod Base
pub mod Core
pub mod Sync
pub mod Wire
pub mod Registry
pub mod Local
mod Tests
