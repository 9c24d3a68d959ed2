-- ===== src/Permission/Request.antt =====
-- app/multiagent/permission.py: the enums, `PermissionRequest` and `PermissionPolicy`. The parameters
-- are their canonical JSON text; `digest` stands for the SHA-256 of the three fields, which is a
-- library's.
use mega_deepagents.Base.{ℕ, String, Bool, true, false, Option, none, if◌then◌else◌}

pub data PermissionKind : Type 0 where
  file_read file_write shell network git_branch git_commit git_push : PermissionKind
  package_install environment secret external_api mcp_tool : PermissionKind
  teammate_spawn task_create destructive : PermissionKind

pub data PermissionDecision : Type 0 where
  approve_once approve_for_run deny deny_with_feedback : PermissionDecision

pub data PolicyOutcome : Type 0 where
  allow request refuse : PolicyOutcome

pub data RequestStatus : Type 0 where
  pending approved denied : RequestStatus

pub data Scope : Type 0 where
  once run : Scope

pub record PermissionRequest : Type 0 where
  pub request_id : String
  pub run_id : String
  pub agent_id : String
  pub kind : PermissionKind
  pub operation : String
  pub parameters : String
  pub reason : String
  pub fingerprint : String
  pub status : RequestStatus
  pub decision : Option PermissionDecision
  pub decided_by : Option String
  pub decision_reason : String
  pub scope : Scope
  pub created_at : ℕ
  pub decided_at : Option ℕ
  pub used_at : Option ℕ

-- The request that `authorize` and `request` build.
unfoldable pub new_request :
    (PermissionKind → String → String → String)
    → String
    → String
    → String
    → PermissionKind
    → String
    → String
    → String
    → ℕ
    → PermissionRequest
new_request digest request_id run_id agent_id kind operation parameters reason now = record {
  request_id = request_id;
  run_id = run_id;
  agent_id = agent_id;
  kind = kind;
  operation = operation;
  parameters = parameters;
  reason = reason;
  fingerprint = digest kind operation parameters;
  status = pending;
  decision = none;
  decided_by = none;
  decision_reason = "";
  scope = once;
  created_at = now;
  decided_at = none;
  used_at = none;
}

-- A set of kinds is its membership test.
pub record PermissionPolicy : Type 0 where
  pub allowed : PermissionKind → Bool
  pub denied : PermissionKind → Bool
  pub request_by_default : Bool

abbrev default_allowed : PermissionKind → Bool
default_allowed file_read = true
default_allowed file_write = true
default_allowed _ = false

abbrev default_denied : PermissionKind → Bool
default_denied secret = true
default_denied destructive = true
default_denied _ = false

abbrev pub default_policy : PermissionPolicy
default_policy = record {
  allowed = default_allowed;
  denied = default_denied;
  request_by_default = true;
}

unfoldable pub evaluate : PermissionPolicy → PermissionKind → PolicyOutcome
evaluate p kind =
    if p.denied kind
    then refuse
    else if p.allowed kind
    then allow
    else if p.request_by_default
    then request
    else refuse
