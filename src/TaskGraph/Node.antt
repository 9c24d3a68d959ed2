-- ===== src/TaskGraph/Node.antt =====
-- app/multiagent/task_graph.py: `TaskNodeStatus` with its table of legal transitions, the budget and
-- output contract, and `TaskNode`. Times are milliseconds.
use mega_deepagents.Base.{
  ℕ, zero, suc, String, Bool, true, false, Option, List, [], ◌∷◌, if◌then◌else◌, ◌==◌, string_eq,
}

pub data TaskNodeStatus : Type 0 where
  pending ready running succeeded failed skipped cancelled : TaskNodeStatus

-- `_LEGAL_TRANSITIONS` and `is_legal_transition`.
unfoldable pub is_legal_transition : TaskNodeStatus → TaskNodeStatus → Bool
is_legal_transition pending ready = true
is_legal_transition pending running = true
is_legal_transition pending skipped = true
is_legal_transition pending cancelled = true
is_legal_transition ready running = true
is_legal_transition ready skipped = true
is_legal_transition ready cancelled = true
is_legal_transition running succeeded = true
is_legal_transition running failed = true
is_legal_transition running cancelled = true
is_legal_transition succeeded failed = true
is_legal_transition failed pending = true
is_legal_transition failed skipped = true
is_legal_transition failed cancelled = true
is_legal_transition _ _ = false

-- `CAPABILITY_TIMEOUTS.get(cap)`, in milliseconds; 0 where there is no entry.
unfoldable pub timeout_of : String → ℕ
timeout_of cap =
    if cap == "planning"
    then 1_200_000
    else (if cap == "research"
        then 600_000
        else (if cap == "coding"
            then 900_000
            else (if cap == "testing"
                then 600_000
                else (if cap == "reviewing"
                    then 300_000
                    else (if cap == "summarization" then 600_000 else 0)))))

abbrev first_positive : ℕ → ℕ → ℕ
first_positive zero rest = rest
first_positive (suc n) rest = suc n

-- The timeout of the first capability that has an entry, 0 if none has.
unfoldable pub capability_timeout : List String → ℕ
unfolding timeout_of
capability_timeout [] = 0
capability_timeout (cap ∷ caps) = first_positive (timeout_of cap) (capability_timeout caps)

pub record TaskBudget : Type 0 where
  pub max_attempts : ℕ
  pub max_tool_calls : ℕ
  pub max_seconds : ℕ
  pub max_tokens : Option ℕ

pub record OutputContract : Type 0 where
  pub artifact_type : String
  pub description : String
  pub acceptance_criteria : List String
  pub required_artifacts : List String
  pub allow_parallel : Bool

pub record ExecutionError : Type 0 where
  pub code : String
  pub message : String
  pub tool_name : Option String
  pub attempt : ℕ
  pub occurred_at : ℕ

pub record TaskNode : Type 0 where
  pub id : String
  pub title : String
  pub objective : String
  pub description : String
  pub status : TaskNodeStatus
  pub dependencies : List String
  pub required_capabilities : List String
  pub preferred_agent_profile : Option String
  pub assigned_agent_id : Option String
  pub input_artifact_ids : List String
  pub output_artifact_ids : List String
  pub output_contract : OutputContract
  pub priority : ℕ
  pub attempts : ℕ
  pub max_attempts : ℕ
  pub budget : TaskBudget
  pub error : Option ExecutionError
  pub started_at : Option ℕ
  pub completed_at : Option ℕ

-- `TaskNode.is_terminal`
abbrev pub is_terminal : TaskNodeStatus → Bool
is_terminal succeeded = true
is_terminal failed = true
is_terminal skipped = true
is_terminal cancelled = true
is_terminal _ = false

-- `TaskNode.can_be_ready`
abbrev pub can_be_ready : TaskNodeStatus → Bool
can_be_ready pending = true
can_be_ready ready = true
can_be_ready _ = false

abbrev pub is_running : TaskNodeStatus → Bool
is_running running = true
is_running _ = false

abbrev pub is_succeeded : TaskNodeStatus → Bool
is_succeeded succeeded = true
is_succeeded _ = false

-- `status in (SUCCEEDED, SKIPPED)`
abbrev pub is_resolved : TaskNodeStatus → Bool
is_resolved succeeded = true
is_resolved skipped = true
is_resolved _ = false
