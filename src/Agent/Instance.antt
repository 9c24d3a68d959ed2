-- ===== src/Agent/Instance.antt =====
-- app/multiagent/agent_instance.py: `AgentStatus`, the table of legal transitions, `AgentInstance` and
-- its methods. The free-form `metadata` is left out; a method takes the clock's reading `now`, one for
-- the readings that it makes under the lock.
use mega_deepagents.Base.{ℕ, String, Bool, true, false, not, Option, some, List, if◌then◌else◌}

pub data AgentStatus : Type 0 where
  created spawning idle claiming planning waiting_plan_approval running : AgentStatus
  waiting_tool waiting_permission blocked failed stopping stopped recovering : AgentStatus

-- `_AGENT_LEGAL_TRANSITIONS`, `to_status in _AGENT_LEGAL_TRANSITIONS.get(from_status, set())`
unfoldable pub is_legal_agent_transition : AgentStatus → AgentStatus → Bool
is_legal_agent_transition created spawning = true
is_legal_agent_transition created idle = true
is_legal_agent_transition created stopped = true
is_legal_agent_transition spawning idle = true
is_legal_agent_transition spawning failed = true
is_legal_agent_transition idle claiming = true
is_legal_agent_transition idle running = true
is_legal_agent_transition idle blocked = true
is_legal_agent_transition idle failed = true
is_legal_agent_transition idle stopping = true
is_legal_agent_transition idle stopped = true
is_legal_agent_transition claiming planning = true
is_legal_agent_transition claiming running = true
is_legal_agent_transition claiming idle = true
is_legal_agent_transition claiming failed = true
is_legal_agent_transition claiming stopping = true
is_legal_agent_transition planning waiting_plan_approval = true
is_legal_agent_transition planning running = true
is_legal_agent_transition planning idle = true
is_legal_agent_transition planning failed = true
is_legal_agent_transition planning stopping = true
is_legal_agent_transition waiting_plan_approval planning = true
is_legal_agent_transition waiting_plan_approval running = true
is_legal_agent_transition waiting_plan_approval idle = true
is_legal_agent_transition waiting_plan_approval failed = true
is_legal_agent_transition waiting_plan_approval stopping = true
is_legal_agent_transition running idle = true
is_legal_agent_transition running waiting_tool = true
is_legal_agent_transition running waiting_permission = true
is_legal_agent_transition running blocked = true
is_legal_agent_transition running failed = true
is_legal_agent_transition running stopping = true
is_legal_agent_transition waiting_tool running = true
is_legal_agent_transition waiting_tool idle = true
is_legal_agent_transition waiting_tool failed = true
is_legal_agent_transition waiting_permission running = true
is_legal_agent_transition waiting_permission idle = true
is_legal_agent_transition waiting_permission failed = true
is_legal_agent_transition waiting_permission stopping = true
is_legal_agent_transition blocked running = true
is_legal_agent_transition blocked idle = true
is_legal_agent_transition blocked failed = true
is_legal_agent_transition blocked stopping = true
is_legal_agent_transition failed idle = true
is_legal_agent_transition failed stopping = true
is_legal_agent_transition failed stopped = true
is_legal_agent_transition failed recovering = true
is_legal_agent_transition stopping stopped = true
is_legal_agent_transition stopping failed = true
is_legal_agent_transition recovering idle = true
is_legal_agent_transition recovering failed = true
is_legal_agent_transition recovering stopped = true
is_legal_agent_transition _ _ = false

pub record AgentInstance : Type 0 where
  pub agent_id : String
  pub team_id : String
  pub run_id : String
  pub profile_id : String
  pub name : String
  pub role : String
  pub description : String
  pub session_id : String
  pub thread_id : String
  pub checkpoint_namespace : String
  pub status : AgentStatus
  pub current_task_id : Option String
  pub workspace_root : String
  pub worktree_path : String
  pub mailbox_cursor : ℕ
  pub last_heartbeat_at : Option ℕ
  pub capabilities : List String
  pub created_at : ℕ
  pub updated_at : ℕ
  pub stopped_at : Option ℕ
  pub max_concurrency : ℕ

-- `in (AgentStatus.STOPPED, AgentStatus.FAILED)`
unfoldable pub is_down : AgentStatus → Bool
is_down stopped = true
is_down failed = true
is_down _ = false

unfoldable pub update_status : AgentInstance → AgentStatus → ℕ → AgentInstance × Bool
update_status a new_status now =
    if is_legal_agent_transition a.status new_status
    then (
      record a {
        status = new_status;
        updated_at = now;
        stopped_at = if is_down new_status then some now else a.stopped_at;
      },
      true,
    )
    else (a, false)

unfoldable pub heartbeat : AgentInstance → ℕ → AgentInstance
heartbeat a now = record a { last_heartbeat_at = some now; updated_at = now }

unfoldable pub is_alive : AgentInstance → Bool
unfolding is_down
is_alive a = not (is_down a.status)

unfoldable pub is_idle : AgentInstance → Bool
is_idle a = elim a.status [ AgentStatus.idle ↦ true | _ ↦ false ]

unfoldable pub can_work : AgentInstance → Bool
can_work a = elim a.status [ AgentStatus.idle ↦ true | AgentStatus.running ↦ true | _ ↦ false ]
