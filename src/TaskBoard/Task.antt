-- ===== src/TaskBoard/Task.antt =====
-- app/multiagent/task_board.py: `BoardTaskStatus`, `BoardTask`, and the task's metadata keys that
-- the board itself reads or writes. Times are milliseconds.
use mega_deepagents.Base.{ℕ, String, Bool, true, false, Option, none, List, []}

pub data BoardTaskStatus : Type 0 where
  pending claimed running produced verifying succeeded : BoardTaskStatus
  repair_required replan_required failed blocked cancelled : BoardTaskStatus

-- An entry of `metadata["error_history"]`.
pub record ErrorEntry : Type 0 where
  pub attempt : ℕ
  pub category : String
  pub message : String
  pub timestamp : ℕ

-- An entry of `metadata["manual_retries"]`.
pub record ManualRetry : Type 0 where
  pub reason : String
  pub previous_status : BoardTaskStatus
  pub previous_attempts : ℕ
  pub timestamp : ℕ

-- An entry of `metadata["replan_requests"]`.
pub record ReplanRequest : Type 0 where
  pub requested_by : String
  pub reason : String
  pub requested_at : ℕ
  pub previous_status : BoardTaskStatus

-- An absent list is the empty one, an absent counter is 0.
pub record Metadata : Type 0 where
  pub error_history : List ErrorEntry
  pub rate_limit_grace_used : ℕ
  pub manual_retries : List ManualRetry
  pub replan_requests : List ReplanRequest
  pub superseded_by_repair : Option String
  pub superseded_by_plan_revision : Option ℕ

pub record BoardTask : Type 0 where
  pub task_id : String
  pub run_id : String
  pub title : String
  pub objective : String
  pub dependencies : List String
  pub required_capabilities : List String
  pub status : BoardTaskStatus
  pub claimed_by : Option String
  pub claimed_at : Option ℕ
  pub attempts : ℕ
  pub max_attempts : ℕ
  pub last_error : Option String
  pub next_attempt_at : Option ℕ
  pub produced_artifact_ids : List String
  pub priority : ℕ
  pub created_at : ℕ
  pub updated_at : ℕ
  pub completed_at : Option ℕ
  pub metadata : Metadata

abbrev pub no_metadata : Metadata
no_metadata = record {
  error_history = [];
  rate_limit_grace_used = 0;
  manual_retries = [];
  replan_requests = [];
  superseded_by_repair = none;
  superseded_by_plan_revision = none;
}

-- The record that `create_task` builds; the fields that it does not give have their defaults.
unfoldable pub new_task :
    String → String → String → String → List String → List String → ℕ → ℕ → ℕ → BoardTask
new_task task_id run_id title objective dependencies required_capabilities priority max_attempts
      now =
    record {
      task_id = task_id;
      run_id = run_id;
      title = title;
      objective = objective;
      dependencies = dependencies;
      required_capabilities = required_capabilities;
      status = pending;
      claimed_by = none;
      claimed_at = none;
      attempts = 0;
      max_attempts = max_attempts;
      last_error = none;
      next_attempt_at = none;
      produced_artifact_ids = [];
      priority = priority;
      created_at = now;
      updated_at = now;
      completed_at = none;
      metadata = no_metadata;
    }

abbrev pub is_pending : BoardTaskStatus → Bool
is_pending pending = true
is_pending _ = false

abbrev pub is_claimed : BoardTaskStatus → Bool
is_claimed claimed = true
is_claimed _ = false

abbrev pub is_running : BoardTaskStatus → Bool
is_running running = true
is_running _ = false

abbrev pub is_produced : BoardTaskStatus → Bool
is_produced produced = true
is_produced _ = false

abbrev pub is_succeeded : BoardTaskStatus → Bool
is_succeeded succeeded = true
is_succeeded _ = false

abbrev pub is_cancelled : BoardTaskStatus → Bool
is_cancelled cancelled = true
is_cancelled _ = false

abbrev pub is_repair_required : BoardTaskStatus → Bool
is_repair_required repair_required = true
is_repair_required _ = false

abbrev pub is_blocked : BoardTaskStatus → Bool
is_blocked blocked = true
is_blocked _ = false

-- `status in (CLAIMED, RUNNING, BLOCKED)`
abbrev pub is_releasable : BoardTaskStatus → Bool
is_releasable claimed = true
is_releasable running = true
is_releasable blocked = true
is_releasable _ = false

-- `status in (PRODUCED, VERIFYING)`
abbrev pub awaits_verdict : BoardTaskStatus → Bool
awaits_verdict produced = true
awaits_verdict verifying = true
awaits_verdict _ = false

-- `status in {FAILED, REPAIR_REQUIRED, REPLAN_REQUIRED, BLOCKED}`
abbrev pub is_retryable : BoardTaskStatus → Bool
is_retryable failed = true
is_retryable repair_required = true
is_retryable replan_required = true
is_retryable blocked = true
is_retryable _ = false

-- `status in (SUCCEEDED, FAILED, CANCELLED)`
abbrev pub is_terminal : BoardTaskStatus → Bool
is_terminal succeeded = true
is_terminal failed = true
is_terminal cancelled = true
is_terminal _ = false

-- `status in (CLAIMED, RUNNING, PRODUCED, VERIFYING)`
abbrev pub is_in_flight : BoardTaskStatus → Bool
is_in_flight claimed = true
is_in_flight running = true
is_in_flight produced = true
is_in_flight verifying = true
is_in_flight _ = false
