-- ===== src/Agent/Samples.antt =====
-- app/multiagent/agent_instance.py: one agent, on which the theorems are used.
use mega_deepagents.Base.{ℕ, none, List, [], ◌∷◌, ◌≡◌, refl}
use mega_deepagents.Agent.Instance.{AgentInstance, AgentStatus}
use mega_deepagents.Agent.Lifecycle.{AgentCall, agent_calls}

abbrev fresh : AgentInstance
fresh = record {
  agent_id = "agent_1";
  team_id = "team";
  run_id = "r";
  profile_id = "coder";
  name = "Coder";
  role = "coder";
  description = "";
  session_id = "sess_1";
  thread_id = "thr_1";
  checkpoint_namespace = "ns";
  status = AgentStatus.created;
  current_task_id = none;
  workspace_root = "";
  worktree_path = "";
  mailbox_cursor = 0;
  last_heartbeat_at = none;
  capabilities = [];
  created_at = 0;
  updated_at = 0;
  stopped_at = none;
  max_concurrency = 1;
}

abbrev calls : List (ℕ × AgentCall)
calls =
    (1, AgentCall.update_status AgentStatus.idle)
    ∷ (2, AgentCall.heartbeat)
    ∷ (3, AgentCall.update_status AgentStatus.failed)
    ∷ []

abbrev halted : AgentInstance
halted = record fresh { status = AgentStatus.stopped }

-- A stopped agent leaves that state no more.
halted_stays : (agent_calls halted calls).status ≡ AgentStatus.stopped
unfolding agent_calls mega_deepagents.Agent.Instance.update_status
    mega_deepagents.Agent.Instance.is_legal_agent_transition
    mega_deepagents.Agent.Instance.heartbeat
halted_stays = refl
