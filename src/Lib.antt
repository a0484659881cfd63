-- ===== src/Lib.antt =====
-- Verification of the core of flowy, a library for durable executions of graphs in Go.
--
-- An execution is an envelope: its progress, its journal of activities, its waits and its lineage,
-- under a revision and a digest. A runner acquires the execution at a store, which fences every
-- later write by the incarnation of that lease, loads the envelope, and commits the next one at the
-- revision that it has read. An activity is a call to the outside: its record in the journal tells
-- whether an attempt may be dispatched, and when. A durable wait is armed in the envelope and decided
-- by the deliveries that arrive.
--
-- Prelude          numbers, Booleans, the integers of Go's int64, tests and equality
-- Base             strings and bytes (execution_text.go), time.Time, the sentinel errors, results and
--                  maps
-- Activity         activity.go, activity_retry.go, activity_schedule.go, activity_resolution.go,
--                  activity_references.go and the validators activity_*_integrity.go. Schedule chooses
--                  and validates the delays, with child modules on their arithmetic (Delay), their
--                  validity (Choice, Verdict) and the deadline (Bounds). Types, Integrity and Record are the
--                  records and their validation, Journal and Resolution the steps that write them,
--                  Retry what a failure leads to.
-- Execution        the envelope and its parts (execution_contract.go and the contracts of history,
--                  rollover, fork and import), their validation, and the transitions between two
--                  envelopes (execution_fork_transition.go, execution_lifecycle_validation.go)
--                  Execution/Migration is PrepareExecutionMigration: Chain follows the edges of a
--                  registry, Prepared says what a migration yields.
-- Graph            the builder, Compile and the graph (builder.go, options.go, middleware.go), and
--                  resolveEdge and validateExecutionPointer of runner_execution.go in Routing. Message
--                  holds the errors and their order, Marks and Checked what silent checks say of a
--                  builder, Sound and Fault where a compiled graph may lead.
-- Runner           the loop of execute with its steps and directives (runner_execution.go, budget.go):
--                  Loop is one round after another, Bounded and Terminates count the calls, Known and
--                  Stays keep a run on the nodes of its graph, Paid within its budgets; Effects is about
--                  UnwrapDirective.
-- Checkpoint       snapshots and MemoryCheckpointer of testutil/memory_checkpointer.go; Interface is what
--                  a client relies on of a Checkpointer (flowy.go)
-- Handoff          runHandoffOutboxFSM over any checkpointer (handoff_outbox.go, runner_checkpoint.go)
--                  and the intents of flowy.go; Persisted and Asked say what the store and the outbox
--                  see of it; Recovery is EvaluateHandoffRecovery
--                  (runner_recovery.go) and RecoverStaleHandoff
-- Child            PlanChildGroup (child_contract.go), the validation of a child (child_state.go and the
--                  validators of its decisions) in Return, and ComputeChildBudgetReturn
--                  (child_budget.go); Budget and Returned count the units
-- Store            MemoryExecutionStore of testutil/execution_store.go, the executable form of the
--                  contract in execution_store.go: its maps are functions, its methods return the new
--                  store or an error. Commit says what a commit has checked; Step and Run are runs of
--                  acquisitions, renewals, releases and commits under any interleaving of the callers,
--                  since each method holds the mutex.
-- Lease            MemoryLeaseManager of lease.go
-- Wait             durable_wait_contract.go, durable_wait_arbitration.go and the record of
--                  durable_wait_cancellation.go: validateDurableWait, planDurableWait,
--                  prepareWaitDecision and CancelWait
--
-- Correspondence. A Go function has its name in snake case here. Structs are records, string enums are
-- data types with a constructor for every other string, nil pointers are `none`. A uint64 is a natural
-- number; the code never adds to one without the guard that is modelled, or the wrap-around is written
-- out. An int64, a time.Duration and an int are integers, with `i64` where a product or a sum may wrap.
-- An instant is its count of nanoseconds from the earliest one that Go represents. A record that the
-- code clones is a value here. Where the code iterates over a map, the model takes the order of an
-- association list.
--
-- Parameters. JSON and SHA-256 are the fields of `Codec` and `WaitHashes` and the identity of an
-- activity's address; that a payload's digest is canonical hex (`IsHex`) is used where a theorem says
-- so, and where a theorem loads what was stored, JSON is taken to keep a valid fork, whose texts are
-- UTF-8, and the absence of a rollover and a transfer (`IsFaithful`). The clock is an argument of each
-- call, one for each reading, and the random source is the sample that it yields.
--
-- Fuel. The chain of a migration is followed on the number of registered edges and one, since each
-- round leaves another source; the loop of execute on the calls that the step limit admits and one.
-- Every other loop of the modelled code runs over a list, or over the attempts left.
--
-- The run loop reads its context and its sink at fixed points. A `Round` holds what it finds at each:
-- for the context, the first of the tests for a handoff, a lost lease and any other end that holds.
-- Reducers, routers, middlewares and validators are functions, and so are nodes, with the counts of
-- the budgets before and after the call (UseBudget): a node that blocks or panics is outside the
-- model. `interrupted` says which errors are a cancellation or a deadline, and `quote` is fmt's %q.
--
-- The handoff runs over any checkpointer that keeps the laws of `IsCheckpointer`, which flowy.go leaves
-- to its implementations: a save moves on by one revision and is what the next load finds, and a save
-- that fails leaves the store. Nobody else writes the thread between two saves of the machine, as
-- under a single leader.
--
-- Not modelled: the sessions of the durable runner with their goroutines and host callbacks, what the
-- in-process runner saves after its loop and how a run is started and resumed, the composition of
-- graphs, the sessions of child groups, the transactional handoff, fork, import, rollover and
-- retention, the adapters to SQL and Redis, and the observers.
pub mod Prelude
pub mod Base
pub mod Activity
pub mod Execution
pub mod Graph
pub mod Runner
pub mod Checkpoint
pub mod Handoff
pub mod Child
pub mod Store
pub mod Lease
pub mod Wait
