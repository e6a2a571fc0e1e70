-- ===== src/Lib.antt =====
-- The decision ledger: how a reasoner's submission becomes a decision that can be replayed.
--
-- A reasoner hands the ledger a submission: in mode `record` a decision that it already took, with
-- the bypass rule that justifies it, in mode `gate` evidence for the ledger to decide on. The ledger
-- checks it against the reasoner's registration, resolves the subject's identity, runs the gates of
-- the decision's gate set, enforces each output, combines the enforced actions, and stores a bundle
-- from which enforcement can be run again.
--
-- The files, with the code that each models (paths from the repository's root):
-- - Prelude: Python's idioms (any, all, next, sort and max with a key, sets of names, dictionaries,
--   exceptions).
-- - Actions: core/actions.py, core/gate/combinator.py.
-- - Predicate: core/gate/predicate.py, `evaluate_predicate` as `evaluate`; Predicate/Valid its
--   validators.
-- - Json: the JSON values that configurations hold.
-- - Gate: core/gate/output.py, core/gate/verdict.py.
-- - Identity: core/identity.py; Identity/Step: app/identity/passthrough.py and
--   app/identity/resolvers.py, `IdentityService.identify` as `identify`.
-- - Registration: core/observation/registration.py; Registry: app/reasoner_registry.py, its map as
--   a list of entries, with `register` as a function from a store to a store.
-- - Submission, Bypass, Intake: core/submission.py, the model's shape rules, the evaluation of bypass
--   rules, and the checks against the registration.
-- - Enforcement: core/enforcement.py and the gate level of app/enforcement/resolver.py; Decision: its
--   decision level.
-- - Invocation: app/gates.py, `invoke_gate`.
-- - Bundle: core/bundle.py, app/audit/bundle.py.
-- - Submit: app/submit.py, `decide` and `submit`.
-- - Replay, Store: app/audit/store.py, `replay_bundle` and the tables that `BundleStore` writes.
-- - Resolution: core/resolution and app/audit/resolution_journal.py, the journal as a list of rows.
-- - Artifacts: app/audit/artifacts.py, the evidence escrow as the rows of its table.
-- - Rules: gates/rules, `RulesGate.evaluate` as `evaluate_ruleset`, on the records of Rules/Model;
--   Rules/Verify its `verify`, Rules/Load `load_rulesets`; Rules/Verdict, Rules/Enforced and
--   Rules/Tenant on its verdicts.
-- - Gates: app/gates.py, building and closing the gates of a deployment, checking them against the
--   registrations; Gates/Evidence: `verify_evidence`.
-- - Identity/Events, Identity/Projection, Identity/Linked: core/identity.py, the entity journal's
--   events, `project_membership` and `linked_entities`.
-- - PolicyRag: gates/policy_rag, its corpora, what it asks of a provider's answer and the hold on a
--   tiered verdict; PolicyRag/Retrieval: `retrieve_evidence`; PolicyRag/Admission: whom
--   the gate serves (gate.py, config.py, assets.py, prompt_registry.py), its profiles and templates.
-- - Auth: app/auth.py, principals and the key ring, the map of key digests.
-- - Examples: runs at concrete data.
--
-- An exception is a value of the sum `Outcome`; a raised text is a constructor with the values that
-- it shows. Gates and identity resolvers belong to the deployment, so they are functions whose
-- answers also say how the call ended (returned in time, returned late, raised, cut off). A UUID is
-- its number, a timestamp a number, and a float or an int the exact fraction that it stands for. The
-- functions of code outside the repository (uuid5, the JSON of a bundle and its validation) and the content address of a
-- registration are parameters, gathered in the record `External` of Submit; those of the rules gate
-- (SHA-256, JSON, YAML, the models read and written) are in the record `Formats` of Rules/Model. Retrieval
-- providers are functions too. All recursion is structural but the walk of `linked_entities`, which
-- runs on fuel: one more than the number of ends of intervals, since every round adds an end that was
-- not seen.
--
-- Not modelled: the storability check of a submission's text and numbers, latencies, log output,
-- locks, HTTP, the reading of API keys, plugin discovery, SQL beyond the rows that are written, the
-- policy gate's prompts, language model and stored documents, the upkeep of the membership table, the
-- example reasoners, and evaluation. Gates run concurrently in the code; they share no state, so the
-- model runs them in the order of the bindings.
pub mod Prelude
pub mod Actions
pub mod Predicate
pub mod Json
pub mod Gate
pub mod Identity
pub mod Registration
pub mod Submission
pub mod Bypass
pub mod Intake
pub mod Enforcement
pub mod Bundle
pub mod Decision
pub mod Registry
pub mod Invocation
pub mod Submit
pub mod Replay
pub mod Store
pub mod Examples
pub mod Resolution
pub mod Artifacts
pub mod Rules
pub mod Gates
pub mod PolicyRag
pub mod Auth
