-- ===== src/Agent/Lifecycle.antt =====
-- app/multiagent/agent_instance.py: histories of `update_status` and `heartbeat` calls, which the
-- instance's lock makes atomic, so that any interleaving of the threads is such a list.
use mega_deepagents.Base.{
  ℕ, ◌≤◌, true, false, List, [], ◌∷◌, ◌≡◌, ◌||◌, refl, arith, is_some, length,
}
use mega_deepagents.Agent.Instance
use mega_deepagents.Agent.Instance.{
  AgentInstance, AgentStatus, is_legal_agent_transition, is_down, is_alive, can_work,
}

pub data AgentCall : Type 0 where
  update_status : AgentStatus → AgentCall
  heartbeat : AgentCall

unfoldable pub agent_call : AgentInstance → ℕ → AgentCall → AgentInstance
agent_call a now (update_status s) = (Instance.update_status a s now).0
agent_call a now heartbeat = Instance.heartbeat a now

unfoldable pub agent_calls : AgentInstance → List (ℕ × AgentCall) → AgentInstance
unfolding agent_call
agent_calls a [] = a
agent_calls a ((now, c) ∷ cs) = agent_calls (agent_call a now c) cs

stopped-step :
    (a : AgentInstance) (now : ℕ) (c : AgentCall)
    → a.status ≡ AgentStatus.stopped
    → (agent_call a now c).status ≡ AgentStatus.stopped
unfolding agent_call Instance.update_status Instance.heartbeat is_legal_agent_transition
stopped-step a now (update_status s) h = ground arith
stopped-step a now heartbeat h = h

-- After any history of status updates and heartbeats, an agent that was STOPPED is STOPPED,
-- cannot work, and is not alive.
pub stopped_absorbs :
    (cs : List (ℕ × AgentCall)) (a : AgentInstance)
    → a.status ≡ AgentStatus.stopped
    → ((agent_calls a cs).status ≡ AgentStatus.stopped)
      × (can_work (agent_calls a cs) ≡ false)
      × (is_alive (agent_calls a cs) ≡ false)
unfolding agent_calls can_work is_alive
stopped_absorbs [] a h = (h, rw h refl, rw h refl)
stopped_absorbs ((now, c) ∷ cs) a h =
    stopped_absorbs cs (agent_call a now c) (stopped-step a now c h)

-- The agent is neither STOPPED nor FAILED, or has the time at which it went down.
unfoldable pub IsStamped : AgentInstance → Type 0
IsStamped a = (is_alive a || is_some a.stopped_at) ≡ true

IsStamped-step :
    (a : AgentInstance) (now : ℕ) (c : AgentCall) → IsStamped a → IsStamped (agent_call a now c)
unfolding IsStamped agent_call Instance.update_status Instance.heartbeat is_alive
IsStamped-step a now (update_status s) h = ground arith
IsStamped-step a now heartbeat h = h

-- Every history of status updates and heartbeats on an agent that is alive, or has stopped_at,
-- leaves one that is alive, or has stopped_at.
pub calls-IsStamped :
    (cs : List (ℕ × AgentCall)) (a : AgentInstance) → IsStamped a → IsStamped (agent_calls a cs)
unfolding agent_calls
calls-IsStamped [] a h = h
calls-IsStamped ((now, c) ∷ cs) a h =
    calls-IsStamped cs (agent_call a now c) (IsStamped-step a now c h)

-- The statuses to go through, from each status, to have the agent stopped.
abbrev shutdown : AgentStatus → List AgentStatus
shutdown AgentStatus.created = AgentStatus.stopped ∷ []
shutdown AgentStatus.spawning = AgentStatus.failed ∷ AgentStatus.stopped ∷ []
shutdown AgentStatus.idle = AgentStatus.stopped ∷ []
shutdown AgentStatus.waiting_tool = AgentStatus.failed ∷ AgentStatus.stopped ∷ []
shutdown AgentStatus.failed = AgentStatus.stopped ∷ []
shutdown AgentStatus.stopping = AgentStatus.stopped ∷ []
shutdown AgentStatus.stopped = []
shutdown AgentStatus.recovering = AgentStatus.stopped ∷ []
shutdown _ = AgentStatus.stopping ∷ AgentStatus.stopped ∷ []

abbrev pub follow : AgentInstance → ℕ → List AgentStatus → AgentInstance
follow a now [] = a
follow a now (s ∷ ss) = follow (Instance.update_status a s now).0 now ss

-- From every status of an agent there are at most two status updates that leave it STOPPED.
pub can_stop :
    (a : AgentInstance) (now : ℕ)
    → (ss : List AgentStatus) × (length ss ≤ 2) × ((follow a now ss).status ≡ AgentStatus.stopped)
unfolding Instance.update_status is_legal_agent_transition
can_stop a now = (shutdown a.status, ground arith, ground arith)
