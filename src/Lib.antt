-- ===== src/Lib.antt =====
-- The sandbox policies of cageforge, modelled from their Rust sources.
--
-- A sandbox policy states which paths a command may read and write and which hosts it may reach.
-- The crates modelled here decide such questions without touching the file system or the network;
-- the backends of the repository enforce the decisions and are not modelled.
--
-- The parts, and the files that model them:
--
-- Path (crates/cageforge-path/src/lib.rs and native.rs): paths as `std::path` splits them into
-- components (Path/Components), comparison, containment and runs of components (Path/Compare:
-- paths_equal, is_within, contains_component_path), lexical normalisation and the resolution of a
-- declaration against a base (Path/Resolve: normalize_lexical_path, resolve_lexical_path), and
-- the texts of a configuration in a chosen dialect (Path/Dialect: PlatformPathKey, is_absolute_text,
-- contains_parent_traversal_text).
--
-- Policy (crates/cageforge-policy/src): access modes (Access, of access.rs), errors (Error, of
-- error.rs), selectors (Selector, of path.rs), the context that resolves them (Context, of
-- context.rs), globs (Glob for the table of glob_components_match, Pattern for PathPattern, both of
-- path.rs), filesystem rules (Rule), the filesystem policy with its validation and normal form
-- (Filesystem) and its decisions (Decision: access_for_path, access_for), all of filesystem.rs; host
-- names and their grammar (Host), domain patterns and matchers (Domain), addresses that are not
-- public (PublicIp), the modes and rules of a network policy (NetworkModel), the policy with its
-- builders and normal form (Network), and its
-- decisions (NetworkDecision: decision_for_domain, authorize_connection, decision_for_unix_socket),
-- all of network.rs and network/model.rs; local endpoints (LocalIpc, of local_ipc.rs); the pair of a
-- filesystem and a network boundary (Sandbox, of policy.rs).
--
-- Command (crates/cageforge-command/src): names of variables with their identity and the tables keyed
-- by it (Names: remove_environment_name, collect_environment), specifications of an environment with
-- their filters and overrides (Environment: apply_to, with_var, filter_action_for), all of
-- environment.rs; programs and arguments (Spec, of command.rs), and requests (Request, of request.rs,
-- stdio.rs and timeout.rs).
--
-- Compose (crates/cageforge-policy-compose/src): an effective sandbox asks a requested policy and a
-- ceiling. Compose models the combination of decisions and the effective decisions of compose.rs,
-- Compose/Roots the workspace roots of model.rs and compose.rs, Compose/Environment the effective
-- environment of environment.rs, Compose/Sandbox `compose` and path_context of compose.rs and
-- model.rs, Compose/Requirements what a backend must enforce, of filesystem.rs and model.rs.
--
-- Backend (crates/cageforge-backend-api/src): the capabilities of a backend (Capability, of model.rs
-- and lib.rs), what a request requires (Requirements, of requirements.rs), and the preparation of a
-- request, which joins Command and Compose, with the queries of a prepared request (Prepared, of
-- lib.rs).
--
-- Permissions (crates/cageforge-permissions/src/lib.rs): capabilities with their order (Capability),
-- sets of them (Set: is_subset_of, extend_from), requests and requests for more (Request), the
-- settings of approval (Approval), identifiers and cursors with their texts (GrantId: from_hex,
-- to_token), grants and the authority that makes them (Grant: approve_with, approve_escalation), the
-- store of persistent grants (Store: open, get, put, revoke, revoke_all, read_document,
-- write_document) and its listing in pages (Paging: list_page). The theorems on the store are
-- in Store/Step, Store/WellFormed, Store/Lookup and Store/History, which has calls as data.
--
-- How the parts interact: a filesystem rule resolves its selector through the context and tests the
-- path with is_within, or matches a glob against it; the policy keeps the deepest match, a denial
-- ends the search, and a protected component such as ".git" turns a write into a read. A network
-- policy normalises the host, asks its domain rules, and then tests every resolved address; an
-- authorised connection names one address of the resolved target. A composed sandbox holds the
-- normal forms of both policies, both environments and the roots. The identity of an allocation,
-- which binds a context to its composition, is a number. A grant is bound to a request by the digest
-- of the request, which is also the key of the grant's entry in the store; a lookup tests the entry
-- against the request again.
--
-- State: the policies and the context are records, and each builder of the source, which takes and
-- returns `self`, is a function between records. An early return with an error is an `err` of
-- Base/Results. A loop over a list is a structural recursion over it, so no definition uses fuel. The
-- store's state is its file, none or a document; a call takes what the system refuses to it as an
-- argument (Faults) and gives its result and the file behind it. The clock is an argument too. The
-- lock of the file orders the calls of all processes, so that a history is a list of calls.
--
-- Restrictions and interfaces:
-- - The host is a POSIX one: the branches under cfg(windows) are left out. A path is a text, a list
--   of code points, so that the lossy conversion of a path to a string is the identity.
-- - `std::path` and the parser of `std::net::IpAddr` are modelled after their documented grammar
--   (Path/Components, Policy/IpText); an IPv4 address is its 32-bit number.
-- - The crate globset is the interface GlobSet of Policy/Glob: a type of matchers, a builder that may
--   fail, and a match. No law is asked of it. The Unicode table of alphanumeric characters is the
--   interface CharTable of Policy/Host. The SHA-256 digests of serialised requests and documents are
--   the interfaces RequestDigest and DocumentDigest; theorems that need it ask for 32 bytes.
-- - `Path::exists` sees the store's file wherever there is one: an error of the system that it answers
--   with false is left out.
-- - A JSON file is the document that it stands for, and a failure to parse it is one to read it.
-- - A BTreeMap with texts for keys is its sorted list of entries (Base/Maps). A hash map or set is the
--   list of its entries, searched by the key.
-- - Where an error quotes a rendered value, the model keeps the value or the text it stands for; the
--   text of a globset error is the one that the builder gives.
-- - The crate wildmatch is the interface WildMatch, the decoding of native names and the table of
--   lower-case characters the interface OsText, both of Command; `str::to_lowercase` is the interface Lowercase of
--   Path/Dialect. No law is asked of them.
-- - Not modelled: the orderings and hashes of
--   selectors and patterns, the accessors for lowering, configuration, the proxy, the
--   execution traits and diagnostics of the backend interface, and the native backends.
pub mod Base
pub mod Path
pub mod Policy
pub mod Compose
pub mod Permissions
pub mod Command
pub mod Backend
pub mod Tests
