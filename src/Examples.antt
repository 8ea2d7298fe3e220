-- ===== src/Examples.antt =====
-- Rows to try the theorems on: a run of three steps, the tables beside it, and the theorems at them.
mod Runs
mod Steps
mod Lives
mod Editing
mod Comparing
mod Drifting
mod Legacy
mod Locking
mod Queue
mod Data
mod Latencies
use open_slt.Prelude.{ℕ, true, false, some, none, List, [], ◌∷◌, String}
use open_slt.Status.{RunStatus, StepStatus, awaiting_step_start}
use open_slt.Domain.{
  remote_engine, configured_script, NodeType, order_preparation, data_statistics, report_generation,
  Summary, StepConfig, RunStep, TestRun, TaskType, TaskStatus, Payload, start_run_key, DurableTask,
  ResourceLock, node_key,
}
use open_slt.Tasks.{TaskTable}
use open_slt.Session.{Session}

abbrev pub empty_summary : Summary
empty_summary = record {
  confirmed = none;
  confirmed_by = none;
  artifact_id = none;
  process_started = false;
  order_action_status = none;
  statistics_analyses = none;
  statistics_active_analysis_no = none;
  statistics_next_analysis_no = none;
  statistics_config_revision = none;
  statistics_latest_success_analysis_no = none;
  statistics_latest_success_revision = none;
  statistics_selection = [];
}

abbrev pub step_of : ℕ → NodeType → StepStatus → RunStep
step_of i node status = record {
  id = i;
  code = node_key i;
  node_type = node;
  config_snapshot = record {
    diagram_from_resource = false;
    interfaces_complete = true;
    max_latency_ns = none;
    engine = remote_engine;
    script = configured_script 3 4;
  };
  result_summary = empty_summary;
  position = i;
  status = status;
  progress = 0;
  retry_count = 0;
  started_at = none;
  finished_at = none;
  error_message = none;
}

abbrev pub run_of : RunStatus → List RunStep → TestRun
run_of status steps = record {
  id = 1;
  workflow_version_id = some 5;
  status = status;
  status_version = 0;
  progress = 0;
  resource_ids = 7 ∷ 8 ∷ [];
  resource_links = [];
  created_by = 3;
  started_at = none;
  finished_at = none;
  timeout_at = some 50;
  error_code = none;
  error_message = none;
  queue_reason = [];
  paused_from = none;
  steps = steps;
  status_transitions = [];
}

abbrev pub lock_of : ℕ → ℕ → ℕ → ResourceLock
lock_of resource run expires = record {
  resource_id = resource;
  run_id = run;
  lease_expires_at = expires;
  released_at = none;
  release_reason = none;
}

abbrev pub three_steps : StepStatus → List RunStep
three_steps second =
    step_of 11 order_preparation StepStatus.succeeded
    ∷ step_of 12 data_statistics second
    ∷ step_of 13 report_generation StepStatus.pending
    ∷ []

abbrev pub session_of : TestRun → Session
session_of run = record {
  run = run;
  locks = lock_of 7 1 500 ∷ lock_of 9 2 500 ∷ [];
  tasks = record { rows = []; next_id = 1 };
  logs = [];
  published = [];
  scheduled = [];
  now = 100;
}

-- A queued task that starts the run 1, and the same task while worker 4 makes the given attempt.
abbrev pub queued_task : DurableTask
queued_task = record {
  id = 1;
  task_type = TaskType.start_run;
  payload = record { run_id = some 1; step_id = none };
  run_id = some 1;
  idempotency_key = start_run_key 1 0;
  status = TaskStatus.queued;
  attempts = 0;
  max_attempts = 3;
  available_at = 10;
  lease_expires_at = none;
  locked_by = none;
  last_error = none;
  started_at = none;
  finished_at = none;
}

abbrev pub attempt_of : ℕ → DurableTask
attempt_of n = record queued_task {
  status = TaskStatus.running;
  attempts = n;
  lease_expires_at = some 40;
  locked_by = some 4;
  started_at = some 20;
}

abbrev pub table_of : DurableTask → TaskTable
table_of t = record { rows = t ∷ []; next_id = 2 }
