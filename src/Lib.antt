-- ===== src/Lib.antt =====
-- Verification of the run life cycle of OpenSLT (Python, backend/app). A test run executes the steps of
-- a workflow on locked resources. Requests (backend/app/api/routes/runs.py) change the status of a run
-- and enqueue durable tasks; workers (backend/app/services/durable_tasks.py) claim the tasks and call
-- the engine (backend/app/services/orchestration.py), which acquires locks, starts and completes steps
-- and moves the run by the transition tables of backend/app/services/run_state.py.
--
-- Prelude    shared names, Boolean tests and lists over native numbers, lemmas on rows of a table
-- Status, Errors, Domain
--            statuses, exceptions as values, and the rows of backend/app/models/domain.py
-- RunState   run_state.py: the tables, transition_run, transition_step and the history
-- Locks      orchestration.py: acquire_locks, release_locks, renew_run_locks, reclaim_expired_locks
-- Tasks      durable_tasks.py: enqueue_task; Tasks.Claim claiming and leases; Tasks.Recovery
--            recover_abandoned_tasks; Tasks.Execution the end of execute_claimed_task
-- Analysis   services/statistics_execution.py: reservation, failed end and freshness of analyses
-- Relations  services/resource_relations.py: reading and synchronising ordered relations;
--            Relations.Drift services/relation_consistency.py
-- Statistics builtin_statistics.py: which values of a file are counted; Statistics.Output build_output
-- Session    what a service function works on: a run, the tables and queues beside it, the instant
-- Workflow   orchestration.py: begin_workflow_step and advance_workflow; Workflow.Completion
--            complete_workflow_step; Workflow.Execution start_workflow_run with its exception handler;
--            Workflow.Legacy continue_after_wiring and start_run, the older fixed sequence of steps;
--            Workflow.Control cancel_run and the body of expire_timed_out_runs; Workflow.Alignment how the
--            statuses of the steps fit the status of their run; Session.Ends how actions end
-- Routes     api/routes/runs.py: start, confirm wiring, pause, resume, cancel, start and retry;
--            Routes.Steps complete, confirm and retry of a step; Routes.Sequences requests and tasks in
--            any order
-- Versions   services/workflow_core.py and workflow_publishing.py: versions of a workflow, their numbers,
--            drafts, structure and publishing; Versions.Requests api/routes/workflows.py
-- Comparison services/run_comparisons.py: the comparison of two runs and the recommended baseline
-- Examples   a run, tables and files to which the theorems are applied
--
-- Conventions. A timestamp is a number of seconds, a task's worker and a log's text are numbers or
-- named events. The instant is an argument of a service function and does not change during one call.
-- An exception is a value: an action returns its result or error with the state it leaves. A request
-- that raises gives the state back as it was, and so does a task that raises or is cancelled, whose
-- session is closed. A table is the list of its rows; the condition of a query is a Boolean function of
-- a row. All functions are structural recursions: there is no fuel.
--
-- Parameters stand for what other systems do: the node handlers and what is found in the database
-- (`Externals`), what is committed to a run meanwhile and the sample file (`LegacyServices`), the
-- fetching of an artifact over SSH (`collect`), the writing of an immutable artifact (`archive`), the
-- work of a task (`execute_payload`), the floating-point metrics (`build_metrics`), the check of
-- configurations before publishing (`check`), the comparison of two floats (`assess`).
--
-- Not modelled: what other requests commit to a run while a node's handler works (each call ends before
-- the next one begins, but for the older sequence of steps); the refusal of rows by the database, but
-- for what `are_unique` states; the heartbeat loop; the requests on order actions, terminals, new
-- analyses and verdicts; the checks of single nodes and files of a workflow; SSH and terminals, reports,
-- chat, knowledge bases, language models, authentication, migrations and the frontend.
pub mod Prelude
pub mod Status
pub mod Errors
pub mod Domain
pub mod RunState
pub mod Locks
pub mod Tasks
pub mod Analysis
pub mod Relations
pub mod Statistics
pub mod Session
pub mod Workflow
pub mod Versions
pub mod Comparison
pub mod Routes
pub mod Examples
