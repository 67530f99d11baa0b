-- ===== src/Lib.antt =====
-- Dokion's runtime: the engine that executes a playbook's stages and steps, the state store and the
-- hash-chained event journal that record what it did, and the policies around them.
--
-- The modules and the code, by paths from the repository's root:
--
--   Base             lists, optional values, results, and `Exec`, asynchronous methods that change the
--                    world and may throw; what was written before an exception stays written. `Triple`
--                    and `Keeps` are the rules by which the proofs go through such a method.
--   Model            src/playbook/types.ts, src/state/types.ts, parsed JSON.
--   Events           src/state/event-log.ts and src/state/event-chain.ts. `inspect_event_chain` is the loop of
--                    `inspectEventChain` over the journal's lines and the checks on the head file;
--                    `append_event` is `appendEvent`.
--   World            the files below .dokion/, a clock, and the list of what was started, with
--                    src/state/state-store.ts as actions on them. `Host` is what the code asks git, the
--                    file system, the schema validator and the capabilities' programs; every answer
--                    may depend on the time of the question. Platform is the agent that
--                    src/platform/platform-detector.ts finds in the environment.
--   Approvals        src/approvals/approval-store.ts.
--   Applicability    src/applicability/evaluate-applicability.ts.
--   Engine           src/engine/runtime-engine.ts with src/engine/dependencies.ts, src/engine/attempt-policy.ts,
--                    src/playbook/load-playbook.ts and part of src/git/repository-identity.ts. Marks
--                    has one mutator for each call of `updateState`; Events the `mark…`, `awaitApproval`
--                    and `failStep` methods; Step one round of the loop over the steps; Loop the loops,
--                    `run` and `resume`; Identity the comparison.
--   Policy           src/policy/failure-policy.ts and src/policy/approval-policy.ts.
--   Autopilot        src/autopilot/: the next action, retries, budgets, drift, and the loop of
--                    `runAutopilot`, on fuel that is the number of turns left.
--   Readiness        src/readiness/: completion.ts, the criteria for a claim of completion; coverage.ts,
--                    the coverage lanes and the cap on readiness; release-gates.ts, the gates by their
--                    commands and conditions; readiness-statement.ts and promotion-signoff.ts.
--   Locks            src/state/run-lock.ts: Record is the file, Run the calls, Owners the moves of several
--                    processes that call them. Waiting is the transition lock of src/state/state-store.ts
--                    and the append lock of src/state/event-log.ts: the loop on the file, on fuel that
--                    is the number of attempts, and what surrounds the action.
--   Dataflow         src/playbook/dataflow-contract.ts: the typed inputs and outputs of the steps.
--   Checkpoints      src/state/checkpoint.ts and src/invocation/replay-policy.ts: the files that say which side
--                    effects were begun. One file is a pair of its id and what it holds.
--   Goals            src/goal-engineering/state.ts: `GoalStateEngine` and sequences of its calls.
--   Registry         src/registry/protocol-semantics.ts: manifests, source lists and provenance records.
--
-- Loops run over lists that are given, so no fuel is needed but in two places: the autopilot's turns,
-- which the source bounds itself, and the attempts on a lock file, where the fuel that is enough
-- follows from the deadline of 2 s and the sleeps of 5 ms. Numbers are natural numbers; the schemas
-- refuse negative ones. Texts that are only shown to a user are kept where an event, an issue, a
-- statement or the state holds them and left out elsewhere.
--
-- The calls of acquireRunLock and release are moves that are not divided; recoverStaleRunLock is four
-- moves in Locks.Owners, and two recoveries of one lock that overlap, so that both processes get a
-- lease, are run step by step in Locks.Tests. World is the store as one process sees it, under the lock
-- that Locks models apart. The calls of Checkpoints are whole, and their writes succeed. A line of the
-- journal is the event that it parses to: blank lines, spacing and the order of keys are left out.
--
-- Not modelled: the programs that capabilities run, schema validation, the command line, the findings
-- scanners, downloads and archives of the registry, the creator and distribution tools, telemetry, and
-- the frontend.
pub mod Base
pub mod Model
pub mod Goals
pub mod Locks
pub mod Events
pub mod World
pub mod Approvals
pub mod Applicability
pub mod Dataflow
pub mod Engine
pub mod Policy
pub mod Autopilot
pub mod Readiness
pub mod Registry
pub mod Checkpoints
