-- ===== src/Lib.antt =====
-- A verification library for 2Collab, a service in which small teams coordinate coding agents: a server
-- grants authority and keeps the record, runners on the developers' machines execute the agents and report
-- over a WebSocket, and a workflow engine decides what runs next. All code is TypeScript; the paths below
-- are from the repository's root.
--
-- The parts and how they interact:
--
--   * A runner may act only on an authorization that the server's execution authority issued. Authority
--     models src/server/modules/execution-authority: Authority.Sessions the session and its fences
--     (readSession, requireSessionFence and sessionView of fencing.ts), Authority.Authorizations the
--     consumption of an authorization (createOperationAuthorizationConsumer), Authority.Connectors the
--     check before a connector calls its provider (createConnectorAttemptAuthority; what it has established
--     stands in Authority.Connectors.Authorized), Authority.Policy who may execute which command
--     (policy.ts), and Authority.Commands the commands of a session in execution-authority.ts:
--     executeRenewSession and executeReleaseSession, in Authority.Commands.Issue executeAuthorizeOperation,
--     which writes the authorization that a runner then consumes, and in Authority.Commands.Replay
--     `execute` for these three commands, with the facts that it refreshes first and the stored results
--     that answer a command a second time. Authority.Revocations is executeRevocation, which ends the
--     permits, sessions and leases of the attempts that it affects (revocationActorAuthorized,
--     affectedAttempts and revocation.ts; the writes in Authority.Revocations.Apply).
--   * A runner talks to the server over src/server/adapters/wss, which is Wire: Wire.Registry which
--     connection of a runner is current (RunnerConnectionRegistry of connection-registry.ts),
--     Wire.Protocol which frames its channel accepts (InMemoryRunnerProtocolChannel of protocol.ts) with
--     the choice of a version in Wire.Protocol.Versions (selectVersion), Wire.TokenBucket the rate limit
--     that the channel consumes, Wire.SendQueue the queue of what the server sends (TokenBucket and
--     BoundedSendQueue of rate-limits.ts), and Wire.LiveOutput the output of running processes that the
--     server keeps for a while (LiveOutputHub of live-output.ts; redact in Wire.LiveOutput.Redaction).
--   * On the runner, src/runner, which is Runner: Runner.Outbox keeps the events that it owes to the server
--     (outbox.ts), Runner.Reconnect the state of its connection (transport/reconnect.ts), and
--     Runner.Offline what it may do while the connection is down (decideOffline of offline-policy.ts).
--   * The server takes those events once and in order: Runs.Acceptance models
--     createRunnerEventDeduplicator of src/server/modules/runs/event-deduplication.ts, and Runs.Lifecycle
--     the states of runs and attempts that the events move (lifecycle.ts).
--   * Gates models src/server/modules/gates: Gates.Approvals the fingerprints of commands that an owner
--     approved (approveGateFingerprint and isGateFingerprintApproved of fingerprints.ts), Gates.Evaluations
--     the store of evaluations and Gates.Coordinator the coordinator in front of it, which asks the
--     sessions of the execution authority who sent a piece of evidence (createGateEvaluationStore and
--     createGateCoordinator of evaluations.ts).
--   * Workflow models src/server/modules/workflows: Workflow.Join the join of a parallel group
--     (evaluateJoin of joins.ts), Workflow.StopPolicy when a managed loop stops (evaluateStopPolicy of
--     stop-policy.ts), and Workflow.ManagedLoop the loop's attempt budget, events and evaluations
--     (advanceManagedLoop and createManagedLoopStore of managed-loops.ts), which call the stop policy.
--     Workflow.Validation is validateWorkflow of validation.ts, which decides whether a definition may run:
--     in Transitions and Nodes the rules of single transitions and nodes, in Graph the edges and the
--     searches for nodes that are not reachable or do not end, in Cycles the bounds of cycles, and in
--     Checks all of them together.
--   * Base holds what they share: tests, lists, sets of keys, the Map of JavaScript (Base.Table), the
--     result type of src/shared/contracts/result.ts (Base.Outcome) and the patterns of the schemas
--     (Base.Patterns).
--
-- In each part the module of the component's name holds its operations; where its data has a module of its
-- own, that is called Records, Frames, Content or Eviction, and stands below it, as do the proofs.
--
-- How state and operations correspond: a class is a record and each of its methods a function from the
-- record to the record and the answer. A database table is the list of its rows and a query a function of
-- the list; a statement that a CHECK, a key or an index refuses is a throw, which rolls the transaction
-- back. The clock's reading and the identifiers that are drawn at random are arguments of each call. A
-- thrown error is `none`, or the error that its caller makes of it; an error that is returned is `err` with
-- its code and its hint to try again; messages and audit identifiers are left out.
--
-- Numbers: clocks, rates, sequences, sizes and bounds are natural numbers, since the schemas and the
-- columns admit no others; a fraction or a negative number, which these refuse, has no counterpart. A
-- subtraction that the code keeps from going below 0 is the one that stops at 0. The jitter of a
-- reconnection is in thousandths and its delay in milliseconds, which makes the code's products exact.
--
-- Loops: a loop over a collection is structural, and the others run on fuel. The loop that evicts entries
-- of a send queue runs for as many rounds as the queue has entries, and the two that evict chunks of live
-- output for as many as there are chunks, which is enough, since each round removes one. The searches of
-- the validation forwards have a round for each key that can enter their queue, which are the starts and
-- the targets of all edges; the search backwards has one pass for each entry of the graph and one more,
-- since each pass but the last finds a key. A search that lacked fuel would answer `none`.
--
-- Parameters for what is not in the repository: the digest of an intent in Authority.Revocations, the
-- answer of authorityFacts.refresh in Authority.Commands.Replay, Codec of Runner.Outbox.Content (the
-- message schema of zod, JSON text, SHA-256), Decoder of Wire.Protocol.Frames (UTF-8, JSON, zod, SHA-256)
-- and Outside of Runs.Acceptance.Records (the rest of the database, on which an event's effect works, the
-- foreign keys and SHA-256). Each has an instance in a Scenarios module, where the theorems are applied to
-- concrete values.
--
-- Not modelled: a database that fails by itself (a full disk, a lock), the text of messages, and the parts
-- of the program that are input and output, rendering or wiring: the HTTP routes, the web application, the
-- command line, the provider clients, the migrations and the operations scripts. Left out as well are the
-- rest of the execution authority (the launch of attempts, the use of permits, checkpoints, evidence,
-- results and cancellation), the engine that plans and starts runs, identity, the registries of runners
-- and connectors, and the parsing of a gate's manifest, which is the work of a TOML library and of zod.
mod Base
pub mod Authority
pub mod Gates
pub mod Runner
pub mod Runs
pub mod Wire
pub mod Workflow
