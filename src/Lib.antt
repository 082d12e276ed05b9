-- ===== src/Lib.antt =====
-- Verification library of MemoryGuard, the part of ProofOps that remembers what was observed about a
-- payee and decides on payment intents.
--
-- The program. An observation comes in through `observe`: policy.py sorts its facts into accepted
-- and quarantined ones, and module.py appends it to the hash chain of its subject. An intent comes
-- in through `decide`: policy.py reads the chain of its subject, and module.py stores a draft of the
-- verdict that is bound to the intent, the memory root and the policy by hashes. `finalize` takes a
-- draft through its gates and stores a result. All state is behind a memory port. The agent of
-- agent.py runs a decision with a planning model and registered safety tools, records every step,
-- and checks the record before it is stored and whenever it is read.
-- The casework package keeps one workspace for each tenant: tasks that depend on each other, baselines,
-- risk cases and decisions. Each command of its service loads the workspace under a lock, checks it,
-- changes it and saves it with one more event of a hash chain; a repeated command gets the old answer.
--
-- The files, with the code they model (paths from the root of the repository):
--   Base, Base/*             dictionaries in insertion order, sorted sets, lemmas on lists
--   Python, Python/*         the values, numbers, times and texts of the language
--   Errors, Exec             exceptions (src/proofops_memoryguard/errors.py) as results, and
--                            programs on a state that may raise
--   Canonical                src/proofops_memoryguard/canonical.py: `domain_hash`, `subject_ref`
--   Models                   src/proofops_memoryguard/models.py: the enumerations and records
--   Policy/Facts             src/proofops_memoryguard/policy.py: `_validate_fact`
--   Policy/Classify, ...     policy.py: `classify_observation`, stage by stage
--   Policy/Decide, ...       policy.py: `decide`
--   Proof, Proof/*           src/proofops_memoryguard/proof.py: payloads, hashes and checks
--   Ports                    src/proofops_memoryguard/ports.py: the ports, and what is relied on
--   Memory, Memory/*         src/proofops_memoryguard/adapters/memory_fake.py
--   Guard, Guard/*           src/proofops_memoryguard/module.py: `observe` (Guard/Observe), `decide`
--                            (Guard/Decide), `finalize` and `inspect_finalization`
--                            (Guard/Finalize), and sequences of calls (Guard/History)
--   Agent, Agent/*           src/proofops_memoryguard/agent_models.py (Agent/Models) and agent.py:
--                            identities and authority (Agent/Authority), `_validate_run`
--                            (Agent/Check, Agent/Validate), the trace and the planning (Agent/Run),
--                            `run`, `_run_claimed` and `inspect` (Agent/Claimed), `resume`
--                            (Agent/Resume)
--   Casework, Casework/*     src/proofops_casework: models.py (Casework/Models, Casework/Values), core.py
--                            with the heads of source_state.py: digests (Casework/Digest), the check
--                            of a workspace (Casework/Integrity), the closure of a task
--                            (Casework/Ancestors), the affected tasks (Casework/Affected), the bases
--                            (Casework/Basis), the policy (Casework/Ruling), decisions over time
--                            (Casework/Validity); service.py: `_invalidate` and `_decision`
--                            (Casework/Decide), `_mutate` (Casework/Service) and the commands
--                            (Casework/Service/Commands, Casework/Service/Cases,
--                            Casework/Service/Resolve, with source_guard.py's obligations)
--   Samples                  concrete inputs for the tests
--
-- Conventions. A call that may raise returns a `Result`; a call that changes memory is a function
-- from the memory to a result and the memory after it, so that an exception leaves the writes that
-- came before it. Digests, JSON text, Unicode functions, regular expressions on free text and the
-- reading of ISO times are fields of `Runtime`, about which nothing is assumed; clock readings and
-- random identifiers are arguments. A Python `float` is a whole number of units of 2^-1074, an
-- infinity or a NaN. A `datetime` is an instant in microseconds with an offset or none. Loops are
-- recursions on the list that they run over, but for two of core.py: the walk over the ancestors has
-- fuel for one call more than there are tasks, and one to find a cycle, and the propagation to affected
-- tasks has a round for each task, since every round but the last adds one.
--
-- Not modelled. The lock of the guard: calls follow each other in any order. Deep copies, since
-- values do not change. The sign of a zero, and the `TypeError` that Python raises where a time
-- without an offset meets one with an offset in a comparison. The adapters that call external
-- services, and the web layer. Of the casework package: the validation of fields by pydantic, the evidence
-- desk, which the constructor of the service leaves empty, and the commands and views that
-- Casework/Service does not name. The id of an evidence source is a text.
pub mod Base
pub mod Python
pub mod Errors
pub mod Canonical
pub mod Models
pub mod Policy
pub mod Proof
pub mod Exec
pub mod Ports
pub mod Memory
pub mod Guard
pub mod Agent
pub mod Casework
pub mod Samples
