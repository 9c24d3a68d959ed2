-- ===== src/Permission/Samples.antt =====
-- app/multiagent/permission.py: an agent that asks for a shell, on which the theorems are used.
use mega_deepagents.Base.{
  ℕ, String, Bool, true, none, List, [], ◌∷◌, ◌++◌, ◌≡◌, refl, All, string_eq,
}
use mega_deepagents.Permission.Request
use mega_deepagents.Permission.Request.{
  PermissionKind, PolicyOutcome, PermissionRequest, approve_once, default_policy, evaluate,
}
use mega_deepagents.Permission.Broker
use mega_deepagents.Permission.Broker.{Verdict}
use mega_deepagents.Permission.Authority
use mega_deepagents.Permission.Authority.{Ask, PermissionCall, broker_calls, build}

-- A digest that keeps the operation and the parameters.
abbrev joined : PermissionKind → String → String → String
joined kind operation parameters = operation

abbrev ask : String → PermissionKind → Ask
ask id kind = record {
  request_id = id;
  run_id = "r";
  agent_id = "agent_1";
  kind = kind;
  operation = "ls";
  parameters = "{}";
  reason = "";
  hook = none;
}

-- The agent asks, and tries to approve itself.
abbrev ungoverned : List (ℕ × PermissionCall)
ungoverned =
    (1, PermissionCall.authorize default_policy (ask "p1" PermissionKind.shell))
    ∷ (2, PermissionCall.decide "p1" approve_once "agent_1" "please")
    ∷ []

-- The user approves once.
abbrev governed : List (ℕ × PermissionCall)
governed =
    (1, PermissionCall.authorize default_policy (ask "p1" PermissionKind.shell))
    ∷ (2, PermissionCall.decide "p1" approve_once "user" "")
    ∷ []

abbrev shell_again : PermissionRequest
shell_again = build joined 3 (ask "p2" PermissionKind.shell)

granted :
    (Broker.authorize (broker_calls joined [] governed) default_policy shell_again none 3).1
    ≡ Verdict.allowed
unfolding broker_calls Broker.authorize Broker.decide mega_deepagents.Base.Equality.string_eq
    mega_deepagents.Base.Dict.lookup Request.new_request mega_deepagents.Base.Dict.insert
granted = refl

-- The approval is used up.
granted_once :
    (Broker.authorize
      (Broker.authorize (broker_calls joined [] governed) default_policy shell_again none 3).0
      default_policy
      shell_again
      none
      4).1
    ≡ Verdict.permission_required shell_again
unfolding broker_calls Broker.authorize Broker.decide mega_deepagents.Base.Equality.string_eq
    mega_deepagents.Base.Dict.lookup Request.new_request mega_deepagents.Base.Dict.insert
granted_once = refl

unprivileged : All (λ (e : ℕ × PermissionCall). Authority.is_unprivileged e.1 ≡ true) ungoverned
unfolding Broker.is_principal mega_deepagents.Base.Equality.string_eq
unprivileged = (refl, (refl, tt))

reads :
    (Broker.authorize
      (broker_calls joined [] ungoverned)
      default_policy
      (build joined 3 (ask "p2" PermissionKind.file_read))
      none
      3).1
    ≡ Verdict.allowed
unfolding broker_calls Broker.authorize Broker.decide mega_deepagents.Base.Equality.string_eq
    Request.new_request mega_deepagents.Base.Dict.lookup mega_deepagents.Base.Dict.insert
reads = refl

authority_from_principals_example :
    evaluate default_policy PermissionKind.file_read ≡ PolicyOutcome.allow
authority_from_principals_example =
    Authority.authority_from_principals joined ungoverned default_policy
      (ask "p2" PermissionKind.file_read) 3 unprivileged reads
