-- ===== src/Domain.antt =====
-- The rows of backend/app/models/domain.py that the run life cycle reads and writes: runs, their
-- steps and status history, resource locks and durable tasks. A timestamp is a number of seconds.
-- `result_summary` and `config_snapshot` are JSON objects: a key that may be absent is an `Option`.
use open_slt.Prelude.{ℕ, String, Bool, Option, List, ℕ_discrete}
use open_slt.Status.{RunStatus, StepStatus}
use open_slt.Errors.{Code, Error}

-- A row of an ordered many-to-many table: `resource_id` or `contract_file_id`, and `position`.
pub record Link : Type 0 where
  pub value : ℕ
  pub position : ℕ

pub data NodeType : Type 0 where
  legacy server_config database_config wiring_confirmation rem_startup market_startup : NodeType
  order_preparation parser_parse data_statistics report_generation : NodeType
  slnic_start_capture slnic_stop_capture slnic_merge_capture : NodeType

unfoldable pub NodeType-discrete : Discrete NodeType
NodeType-discrete = hlevel

pub data OrderActionStatus : Type 0 where
  pending dispatching unknown dispatched : OrderActionStatus

unfoldable pub OrderActionStatus-discrete : Discrete OrderActionStatus
OrderActionStatus-discrete = hlevel

pub data AnalysisStatus : Type 0 where
  running succeeded failed : AnalysisStatus

unfoldable pub AnalysisStatus-discrete : Discrete AnalysisStatus
AnalysisStatus-discrete = hlevel

-- `engine` of the configuration of a statistics node, of which the schema of the configuration admits
-- these.
pub data Engine : Type 0 where
  remote_engine ordinary_engine batch_first_engine batch_interval_engine : Engine

-- The name and the checksum of a script: those of a configuration, or `script_detail` of an engine.
pub data Script : Type 0 where
  configured_script : ℕ → ℕ → Script
  builtin_script : Engine → Script

-- An item of `statistics_analyses`. An input file is a number.
pub record AnalysisRecord : Type 0 where
  pub analysis_no : ℕ
  pub status : AnalysisStatus
  pub config_revision : ℕ
  pub inputs : List ℕ
  pub max_latency_ns : Option ℕ
  pub script : Script
  pub started_at : ℕ
  pub finished_at : Option ℕ
  pub error_code : Option Code
  pub artifact_id : Option ℕ

-- `RunStep.result_summary`.
pub record Summary : Type 0 where
  pub confirmed : Option Bool
  pub confirmed_by : Option ℕ
  pub artifact_id : Option ℕ
  pub process_started : Bool
  pub order_action_status : Option OrderActionStatus
  pub statistics_analyses : Option (List AnalysisRecord)
  pub statistics_active_analysis_no : Option ℕ
  pub statistics_next_analysis_no : Option ℕ
  pub statistics_config_revision : Option ℕ
  pub statistics_latest_success_analysis_no : Option ℕ
  pub statistics_latest_success_revision : Option ℕ
  pub statistics_selection : List ℕ

-- `RunStep.config_snapshot`: whether the wiring diagram is drawn from resources, whether the
-- stored snapshot names both interfaces, the statistics limit, and the engine and script of a statistics
-- node.
pub record StepConfig : Type 0 where
  pub diagram_from_resource : Bool
  pub interfaces_complete : Bool
  pub max_latency_ns : Option ℕ
  pub engine : Engine
  pub script : Script

-- What an `error_message` column holds: the text of an exception, or a fixed sentence.
pub data ErrorMessage : Type 0 where
  text_of : Error → ErrorMessage
  run_exceeded_deadline order_action_retried : ErrorMessage

-- `RunStep.code`: a step of the older fixed sequence, or the key of a node.
pub data StepCode : Type 0 where
  precheck wiring_confirmation capture_validation environment_start order_execution : StepCode
  collection coco_parse statistics manual_review reporting : StepCode
  node_key : ℕ → StepCode

unfoldable pub StepCode-discrete : Discrete StepCode
StepCode-discrete = hlevel ℕ_discrete

pub record RunStep : Type 0 where
  pub id : ℕ
  pub code : StepCode
  pub node_type : NodeType
  pub config_snapshot : StepConfig
  pub result_summary : Summary
  pub position : ℕ
  pub status : StepStatus
  pub progress : ℕ
  pub retry_count : ℕ
  pub started_at : Option ℕ
  pub finished_at : Option ℕ
  pub error_message : Option ErrorMessage

pub record RunStatusTransition : Type 0 where
  pub from_status : RunStatus
  pub to_status : RunStatus
  pub status_version : ℕ
  pub source : String
  pub actor_id : Option ℕ
  pub reason : Option String

pub record TestRun : Type 0 where
  pub id : ℕ
  pub workflow_version_id : Option ℕ
  pub status : RunStatus
  pub status_version : ℕ
  pub progress : ℕ
  pub resource_ids : List ℕ
  pub resource_links : List Link
  pub created_by : ℕ
  pub started_at : Option ℕ
  pub finished_at : Option ℕ
  pub timeout_at : Option ℕ
  pub error_code : Option Code
  pub error_message : Option ErrorMessage
  pub queue_reason : List ℕ
  pub paused_from : Option RunStatus
  pub steps : List RunStep
  pub status_transitions : List RunStatusTransition

pub record ResourceLock : Type 0 where
  pub resource_id : ℕ
  pub run_id : ℕ
  pub lease_expires_at : ℕ
  pub released_at : Option ℕ
  pub release_reason : Option String

pub data TaskType : Type 0 where
  start_run continue_after_wiring start_workflow_step : TaskType
  svn_sync knowledge_index smart_case_generate : TaskType
  other_type : ℕ → TaskType

unfoldable pub TaskType-discrete : Discrete TaskType
TaskType-discrete = hlevel ℕ_discrete

pub data TaskStatus : Type 0 where
  queued running succeeded failed : TaskStatus

unfoldable pub TaskStatus-discrete : Discrete TaskStatus
TaskStatus-discrete = hlevel

-- The texts that name a task once and for all, `start-run:<run>:v<version>` and so on. Two of them
-- are the same text exactly if they have the same form and the same numbers.
pub data IdempotencyKey : Type 0 where
  start_run_key resume_run_key retry_run_key : ℕ → ℕ → IdempotencyKey
  continue_wiring_key recovery_start_run_key : ℕ → ℕ → IdempotencyKey
  workflow_step_retry_key workflow_step_analysis_key : ℕ → ℕ → ℕ → IdempotencyKey
  other_key : ℕ → IdempotencyKey

unfoldable pub IdempotencyKey-discrete : Discrete IdempotencyKey
IdempotencyKey-discrete = hlevel ℕ_discrete

pub record Payload : Type 0 where
  pub run_id : Option ℕ
  pub step_id : Option ℕ

-- A worker is a number; `last_error` is the exception that the last attempt raised.
pub record DurableTask : Type 0 where
  pub id : ℕ
  pub task_type : TaskType
  pub payload : Payload
  pub run_id : Option ℕ
  pub idempotency_key : IdempotencyKey
  pub status : TaskStatus
  pub attempts : ℕ
  pub max_attempts : ℕ
  pub available_at : ℕ
  pub lease_expires_at : Option ℕ
  pub locked_by : Option ℕ
  pub last_error : Option Error
  pub started_at : Option ℕ
  pub finished_at : Option ℕ
