-- ===== src/Lib.antt =====
-- Models of the Orbita agent research server (python).
--
-- Orbita keeps a ledger of claims (orbita/), runs discovery campaigns whose results are written
-- to a hash-chained file (orbita_discovery/), and serves agents that are bound to tenants
-- (orbita_agent/). Paths are given from the repository's directory src/.
--
-- Base. Shared helpers: Boolean tests and lists over the native ℕ (Base/Tests, Base/Lists), the
-- exceptions of the source as a result type with its inversion lemmas (Base/Results), tables with a
-- primary key (Base/Keys), the string methods in use (Base/Texts), JSON values with the truth
-- tests of python (Base/Json), and the sorting of their keys (Base/Canonical), by the order of texts
-- (Base/TextOrder).
--
-- Epistemic, for orbita/.
--   Models            orbita/models.py: the enumerations and the report
--   Policy            orbita/policy.py: CommitPolicy and actor_can_commit
--   Tables            orbita/db.py: the rows and the tables as lists in order of insertion
--   Ledger            orbita/ledger.py: EpistemicLedger, its writing methods and its queries; a
--                     method takes the tables and returns an error or the new tables and a value
--   Descendants       orbita/ledger.py: descendants_of_claim, descendants_of_evidence and
--                     revoke_evidence; the loop over the frontier recurs on a fuel of the number of
--                     claims, which every new entry of the seen set uses up
--   Support           orbita/support.py: SupportEngine, with the memo and the stack as state; the
--                     recursion is on a fuel of one more than the number of claims, since the
--                     claims on the stack are distinct
--   Commit            orbita/ledger.py: commit_claim and its checks
--   Planner           orbita/planner.py: the score of a plan, in halves, and the choice of a plan
--   Actions           orbita/actions.py: SafeActionRuntime, its rows, the actions over the files of
--                     the workspace (Actions/Files) and its methods (Actions/Runtime), which answer
--                     the state they leave also where they raise; paths, encoding and digest are an
--                     interface
--   Integrity, Links  the foreign keys of orbita/db.py, and that the methods keep them
--   Steps             the ledgers that sequences of the methods reach
-- The identifiers, the clock and the digests that the methods draw are arguments of the methods.
--
-- Discovery, for orbita_discovery/.
--   Core              orbita_discovery/core.py: resolve_status, the body of Engine.run for a
--                     candidate, and survivors; the judge and the falsifiers are parameters, and a
--                     score is a number that only orders the report
--   Chain             orbita_discovery/core.py: the hash-chained Ledger and verify_ledger. A file
--                     is the list of its lines; the texts of JSON, json.loads and sha256 are
--                     parameters. What verify_ledger accepts is in Chain/Entries, what it says of
--                     the files that the engine writes in Chain/Verified
--
-- Agent, for orbita_agent/.
--   Tenancy           orbita_agent/tenancy.py: TenantRegistry, its bindings, identities and event
--                     trail; bind, unbind, seeding and resolve
--   Opportunity       orbita_agent/opportunity_diagnosis.py: diagnose_improvement_opportunity; the
--                     JSON text and its digest are parameters; audit_observation_only_instrument is
--                     in Opportunity/Audit
--   Improvement       orbita_agent/improvement_registry.py: ImprovementRegistry, its tables
--                     (Improvement/Tables), the checks of arguments (Improvement/Checks) and the
--                     methods that write
--   Archive           orbita_agent/archive_policy.py: the settings, allows and ensure; str.casefold and
--                     str.lower are parameters
--   Evidence          orbita_agent/evidence_normalization.py: the checks of a receipt and the
--                     eligibility of decisions (Evidence), EvidenceReceiptLedger (Evidence/Receipts);
--                     Evidence/Genuine has the ledgers that sequences of records leave
--   Uploads           orbita_agent/uploads.py: the tickets, mint, claim and purge_expired, and the file
--                     names (Uploads/Names), for which the library of paths is an interface; Calls has
--                     the sequences of calls
--   Oauth             orbita_agent/oauth.py: GitHubOAuthProvider, its constructor (Oauth/Settings), the
--                     values of the protocol (Oauth/Protocol), the five tables (Oauth/Tables),
--                     registration, sign-in and callback (Oauth/Flow), codes, tokens and revocation
--                     (Oauth/Tokens); Requests serves a sequence of requests the way the protocol
--                     library calls the provider. The digest, the secrets, the time and the answer of
--                     GitHub are arguments
--
-- Not modelled: HTTP and MCP servers, command lines, printing, subprocesses, and file systems but
-- for the files that Actions works on;
-- analyses over floats, text scoring and third-party libraries.

pub mod Base
pub mod Epistemic
pub mod Discovery
pub mod Agent
