-- ===== src/Registry/Leases.antt =====
-- app/multiagent/agent_registry.py: what the registry does with an agent after it was reserved.
use mega_deepagents.Base.{
  ℕ, ◌-◌, ◌*◌, String, Bool, true, false, not, ◌&&◌, ◌||◌, Option, none, some, List, [], ◌∷◌, ◌==◌,
  ltb, length, if◌then◌else◌, string_eq, option_eq,
}
use mega_deepagents.Base.Dict.{Dict, lookup, erase, has_key}
use mega_deepagents.Agent.Instance
use mega_deepagents.Agent.Instance.{AgentInstance, AgentStatus, update_status, is_alive}
use mega_deepagents.Registry.Pool.{Registry, save}

abbrev pub is_stopping : AgentStatus → Bool
is_stopping AgentStatus.stopping = true
is_stopping _ = false

-- `in (CLAIMING, RUNNING)`
abbrev pub is_working : AgentStatus → Bool
is_working AgentStatus.claiming = true
is_working AgentStatus.running = true
is_working _ = false

-- `in (CLAIMING, RUNNING, STOPPING)`
abbrev pub is_active : AgentStatus → Bool
is_active s = is_working s || is_stopping s

-- `task_id and agent.current_task_id != task_id`
abbrev pub other_task : Option String → Option String → Bool
other_task none current = false
other_task (some task_id) current = not (task_id == "") && not (current == some task_id)

-- The agent as `release_reservation` leaves it, if no guard refuses.
unfoldable pub release_agent : Option String → ℕ → AgentInstance → Option AgentInstance
release_agent task_id now a =
    if other_task task_id a.current_task_id
    then none
    else if not (is_active a.status)
    then none
    else let target = if is_stopping a.status then AgentStatus.stopped else AgentStatus.idle in
      let a' = (update_status a target now).0 in
      some (Instance.heartbeat (record a' { current_task_id = none }) now)

-- A method on one agent: nothing and False if it is not there or a guard refuses, else the agent as
-- the method leaves it, and True.
abbrev pub answered : Registry → String → Option AgentInstance → Registry × Bool
answered r agent_id none = (r, false)
answered r agent_id (some a) = (save agent_id a r, true)

abbrev pub on_found :
    Registry
    → String
    → (AgentInstance → Option AgentInstance)
    → Option AgentInstance
    → Registry × Bool
on_found r agent_id change none = (r, false)
on_found r agent_id change (some a) = answered r agent_id (change a)

unfoldable pub on_agent :
    Registry → String → (AgentInstance → Option AgentInstance) → Registry × Bool
unfolding save
on_agent r agent_id change = on_found r agent_id change (lookup agent_id r.agents)

unfoldable pub release_reservation : Registry → String → Option String → ℕ → Registry × Bool
unfolding release_agent on_agent
release_reservation r agent_id task_id now = on_agent r agent_id (release_agent task_id now)

abbrev pub if_changed : AgentInstance × Bool → Option AgentInstance
if_changed (a, changed) = if changed then some a else none

unfoldable pub transition : Registry → String → AgentStatus → ℕ → Registry × Bool
unfolding on_agent
transition r agent_id status now =
    on_agent r agent_id (λ a. if_changed (update_status a status now))

unfoldable pub heartbeat : Registry → String → ℕ → Registry × Bool
unfolding on_agent
heartbeat r agent_id now = on_agent r agent_id (λ a. some (Instance.heartbeat a now))

-- `idle_time > self._lease_timeout`
abbrev pub is_overdue : ℕ → ℕ → ℕ → Bool
is_overdue lease_timeout now last = ltb (lease_timeout * 1000) (now - last)

-- The body of the loop of `cleanup_expired`: the agent as it is failed, if it is.
unfoldable pub expire : ℕ → ℕ → AgentInstance → Option AgentInstance
expire lease_timeout now a = elim a.last_heartbeat_at [
  | none ↦ none
  | some last ↦
      if not (is_active a.status)
      then none
      else if is_overdue lease_timeout now last && is_alive a
      then some (update_status a AgentStatus.failed now).0
      else none
]

-- The loop of `cleanup_expired`, over the listed entries.
unfoldable pub expire_each : ℕ → Dict String AgentInstance → Registry → Registry × List String
unfolding expire save
expire_each now [] r = (r, [])
expire_each now ((agent_id, a) ∷ entries) r = elim (expire r.lease_timeout now a) [
  | none ↦ expire_each now entries r
  | some a' ↦ let (r', ids) = expire_each now entries (save agent_id a' r) in (r', agent_id ∷ ids)
]

unfoldable pub cleanup_expired : Registry → ℕ → Registry × List String
unfolding expire_each
cleanup_expired r now = expire_each now r.agents r

-- The agent as `stop` leaves it, if no guard refuses. A stop that fails half way would leave the agent
-- STOPPING, but from there STOPPED is always legal.
unfoldable pub stop_agent : ℕ → AgentInstance → Option AgentInstance
stop_agent now a = elim a.status [
  | AgentStatus.stopped ↦ none
  | _ ↦
      let (b, stopping) = update_status a AgentStatus.stopping now in
      let (c, stopped) = update_status b AgentStatus.stopped now in
      if is_working a.status
      then if stopping then some b else none
      else if stopping
      then if stopped then some c else none
      else none
]

unfoldable pub stop : Registry → String → ℕ → Registry × Bool
unfolding stop_agent on_agent
stop r agent_id now = on_agent r agent_id (stop_agent now)

unfoldable pub remove : Registry → String → Registry × Bool
remove r agent_id = (record r { agents = erase agent_id r.agents }, has_key agent_id r.agents)

-- `[aid for aid, a in self._agents.items() if a.run_id == run_id]`
unfoldable pub ids_of_run : String → Dict String AgentInstance → List String
ids_of_run run_id [] = []
ids_of_run run_id ((agent_id, a) ∷ entries) =
    let rest = ids_of_run run_id entries in if a.run_id == run_id then agent_id ∷ rest else rest

unfoldable pub erase_all : List String → Dict String AgentInstance → Dict String AgentInstance
erase_all [] agents = agents
erase_all (agent_id ∷ ids) agents = erase_all ids (erase agent_id agents)

unfoldable pub purge_run : Registry → String → Registry × ℕ
unfolding ids_of_run erase_all
purge_run r run_id =
    let ids = ids_of_run run_id r.agents in
    (record r { agents = erase_all ids r.agents }, length ids)
