-- ===== src/Registry/Row.antt =====
-- app/infrastructure/database/run_store.py: `upsert_agent_instance`, as the registry's `_persist` calls
-- it.
use mega_deepagents.Base.{ℕ, String, Option, none, some, List}
use mega_deepagents.Agent.Instance.{AgentInstance, AgentStatus}

-- A row of the table of agent instances; `worktree_path` and `mailbox_cursor` stand in its column
-- `metadata`. The time of the write is left out.
pub record AgentRow : Type 0 where
  pub agent_id : String
  pub team_id : String
  pub run_id : String
  pub profile_id : String
  pub name : String
  pub role : String
  pub session_id : String
  pub thread_id : String
  pub checkpoint_namespace : String
  pub status : AgentStatus
  pub current_task_id : Option String
  pub workspace_root : String
  pub last_heartbeat_at : Option ℕ
  pub capabilities : List String
  pub worktree_path : String
  pub mailbox_cursor : ℕ
  pub created_at : ℕ
  pub stopped_at : Option ℕ

-- `INSERT INTO agent_instances`: the description and the limit of tasks have no column.
abbrev pub row_of : AgentInstance → AgentRow
row_of a = record {
  agent_id = a.agent_id;
  team_id = a.team_id;
  run_id = a.run_id;
  profile_id = a.profile_id;
  name = a.name;
  role = a.role;
  session_id = a.session_id;
  thread_id = a.thread_id;
  checkpoint_namespace = a.checkpoint_namespace;
  status = a.status;
  current_task_id = a.current_task_id;
  workspace_root = a.workspace_root;
  last_heartbeat_at = a.last_heartbeat_at;
  capabilities = a.capabilities;
  worktree_path = a.worktree_path;
  mailbox_cursor = a.mailbox_cursor;
  created_at = a.created_at;
  stopped_at = a.stopped_at;
}

-- `ON CONFLICT(agent_id) DO UPDATE SET …`, which leaves the other columns as the first write set them.
abbrev pub upserted : AgentInstance → Option AgentRow → AgentRow
upserted a none = row_of a
upserted a (some row) = record row {
  status = a.status;
  current_task_id = a.current_task_id;
  last_heartbeat_at = a.last_heartbeat_at;
  capabilities = a.capabilities;
  worktree_path = a.worktree_path;
  mailbox_cursor = a.mailbox_cursor;
  stopped_at = a.stopped_at;
}
