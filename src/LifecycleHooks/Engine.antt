-- ===== src/LifecycleHooks/Engine.antt =====
-- app/multiagent/lifecycle_hooks.py: `LifecycleEvent`, `HookResult`, `_Hook` and the registration of
-- hooks. What a hook's handler answers is an argument of the emission; times are in milliseconds, and
-- the random identifier of a hook is an argument.
use mega_deepagents.Base.{
  ℕ, ◌+◌, String, Bool, true, false, List, [], ◌∷◌, ◌++◌, Option, none, some, Eq, if◌then◌else◌,
  ◌==◌, string_eq, ltb,
}
use mega_deepagents.Base.Dict.{Dict}

pub data LifecycleEvent : Type 0 where
  run_created run_started : LifecycleEvent
  task_created task_claimed task_started : LifecycleEvent
  before_tool_use after_tool_use permission_requested : LifecycleEvent
  task_produced task_completed task_failed : LifecycleEvent
  teammate_spawned teammate_idle teammate_stopped agent_message : LifecycleEvent
  verification_started verification_completed run_completed run_failed : LifecycleEvent

event_dec : Discrete LifecycleEvent
event_dec = hlevel

instance unfoldable pub event_eq : Eq LifecycleEvent
unfolding event_dec
event_eq = record { dec = event_dec }

pub record HookResult : Type 0 where
  pub allow : Bool
  pub block : Bool
  pub feedback : String
  pub mutate_metadata : Dict String String
  pub request_human : Bool
  pub request_replan : Bool

-- `HookResult()`
abbrev pub default_result : HookResult
default_result = record {
  allow = true;
  block = false;
  feedback = "";
  mutate_metadata = [];
  request_human = false;
  request_replan = false;
}

pub data HookScope : Type 0 where
  system user project : HookScope

pub data FailurePolicy : Type 0 where
  on_failure_block on_failure_allow : FailurePolicy

-- `negsuc n` is -1 - n.
pub data ℤ : Type 0 where
  pos negsuc : ℕ → ℤ

abbrev pub int_ltb : ℤ → ℤ → Bool
int_ltb (ℤ.pos a) (ℤ.pos b) = ltb a b
int_ltb (ℤ.pos a) (ℤ.negsuc b) = false
int_ltb (ℤ.negsuc a) (ℤ.pos b) = true
int_ltb (ℤ.negsuc a) (ℤ.negsuc b) = ltb b a

pub record Hook : Type 0 where
  pub hook_id : String
  pub event : LifecycleEvent
  pub scope : HookScope
  pub priority : ℤ
  pub timeout : ℕ
  pub failure_policy : FailurePolicy

-- The engine is the list of its hooks.
abbrev pub HookEngine : Type 0
HookEngine = List Hook

abbrev pub scope_of : String → Option HookScope
scope_of text =
    if text == "system"
    then some HookScope.system
    else if text == "user"
    then some HookScope.user
    else if text == "project"
    then some HookScope.project
    else none

abbrev pub policy_of : String → Option FailurePolicy
policy_of text =
    if text == "block"
    then some FailurePolicy.on_failure_block
    else if text == "allow"
    then some FailurePolicy.on_failure_allow
    else none

pub data Registration : Type 0 where
  registered : HookEngine → (hook_id : String) → Registration
  bad_scope bad_failure_policy : Registration

abbrev pub register_checked :
    HookEngine
    → String
    → LifecycleEvent
    → ℤ
    → ℕ
    → Option HookScope
    → Option FailurePolicy
    → Registration
register_checked hooks id event priority timeout none policy = Registration.bad_scope
register_checked hooks id event priority timeout (some scope) none = Registration.bad_failure_policy
register_checked hooks id event priority timeout (some scope) (some policy) =
    let hook : Hook = record {
      hook_id = id;
      event = event;
      scope = scope;
      priority = priority;
      timeout = timeout;
      failure_policy = policy;
    } in
    Registration.registered (hooks ++ hook ∷ []) id

-- `register`
unfoldable pub register :
    HookEngine → String → LifecycleEvent → String → ℤ → ℕ → String → Registration
register hooks id event scope priority timeout policy =
    register_checked hooks id event priority timeout (scope_of scope) (policy_of policy)

-- `register_command_hook`
unfoldable pub register_command_hook :
    HookEngine → String → LifecycleEvent → String → ℕ → Registration
unfolding register
register_command_hook hooks id event scope timeout =
    register hooks id event scope (ℤ.pos 0) (timeout + 1000) "block"

-- What the handler of a command answers, from the command's return code and output.
unfoldable pub run_command : Bool → (stdout stderr : String) → HookResult
run_command succeeded stdout stderr = record default_result {
  allow = succeeded;
  block = if succeeded then false else true;
  feedback = if stderr == "" then stdout else stderr;
}
