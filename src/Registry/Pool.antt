-- ===== src/Registry/Pool.antt =====
-- app/multiagent/agent_registry.py: `AgentRegistry`. Times are in milliseconds, the lease in seconds.
-- An agent that a method changes is put back under its key; a random identifier is an argument. Left
-- out: the log, a failing database, the free-form metadata.
use Prim.Native.String
use mega_deepagents.Base.{
  ℕ, String, Bool, true, not, ◌&&◌, ◌||◌, Option, none, some, List, [], ◌∷◌, ◌++◌, ◌==◌, all, keep,
  ltb, contains, if◌then◌else◌, string_eq, option_eq,
}
use mega_deepagents.Base.Dict.{Dict, lookup, insert, values}
use mega_deepagents.Agent.Instance
use mega_deepagents.Agent.Instance.{
  AgentInstance, AgentStatus, update_status, is_idle, can_work, is_alive,
}
use mega_deepagents.Registry.Row.{AgentRow, upserted}

pub record Registry : Type 0 where
  pub agents : Dict String AgentInstance
  pub lease_timeout : ℕ
  -- The table of agent instances.
  pub rows : Dict String AgentRow

-- `__init__`
abbrev pub new_registry : ℕ → Registry
new_registry lease_timeout_seconds = record {
  agents = [];
  lease_timeout = lease_timeout_seconds;
  rows = [];
}

-- `_persist`, an upsert by the agent's id
unfoldable pub persist : AgentInstance → Registry → Registry
persist a r = record r { rows = insert a.agent_id (upserted a (lookup a.agent_id r.rows)) r.rows }

-- The agent as a method left it, and `_persist`.
unfoldable pub save : String → AgentInstance → Registry → Registry
unfolding persist
save key a r = persist a (record r { agents = insert key a r.agents })

unfoldable pub register_agent : Registry → AgentInstance → ℕ → Registry × AgentInstance
unfolding save
register_agent r a now = let a' = Instance.heartbeat a now in (save a'.agent_id a' r, a')

-- The arguments of `create_agent`.
pub record AgentSpec : Type 0 where
  pub profile_id : String
  pub name : String
  pub role : String
  pub team_id : String
  pub run_id : String
  pub description : String
  pub capabilities : List String
  pub checkpoint_namespace : Option String
  pub workspace_root : String
  pub agent_id_override : Option String
  pub session_id_override : Option String
  pub thread_id_override : Option String
  pub checkpoint_namespace_override : Option String
  pub created_at_override : Option ℕ
  pub max_concurrency : ℕ
  pub worktree_path : String
  pub mailbox_cursor : ℕ

-- `x or default`, where an empty text is false
abbrev pub or_else : Option String → String → String
or_else none default = default
or_else (some x) default = if x == "" then default else x

abbrev or_now : Option ℕ → ℕ → ℕ
or_now none now = now
or_now (some t) now = t

-- `create_agent`; `agent_id`, `session_id` and `thread_id` are what `make_agent_id` and
-- `make_session_id` draw.
unfoldable pub create_agent :
    Registry → AgentSpec → String → String → String → ℕ → Registry × AgentInstance
unfolding register_agent
create_agent r s agent_id session_id thread_id now =
    register_agent r
      (record {
        agent_id = or_else s.agent_id_override agent_id;
        team_id = s.team_id;
        run_id = s.run_id;
        profile_id = s.profile_id;
        name = s.name;
        role = s.role;
        description = s.description;
        session_id = or_else s.session_id_override session_id;
        thread_id = or_else s.thread_id_override thread_id;
        checkpoint_namespace = or_else s.checkpoint_namespace_override (
            or_else s.checkpoint_namespace
              (String.◌++◌ "agent:" (String.◌++◌ s.name (String.◌++◌ ":" s.run_id))));
        status = AgentStatus.idle;
        current_task_id = none;
        workspace_root = s.workspace_root;
        worktree_path = s.worktree_path;
        mailbox_cursor = s.mailbox_cursor;
        last_heartbeat_at = none;
        capabilities = s.capabilities;
        created_at = or_now s.created_at_override now;
        updated_at = now;
        stopped_at = none;
        max_concurrency = s.max_concurrency;
      })
      now

-- `get`
unfoldable pub get : Registry → String → Option AgentInstance
get r agent_id = lookup agent_id r.agents

-- `list_by_run`
unfoldable pub list_by_run : Registry → String → List AgentInstance
list_by_run r run_id = keep (λ a. a.run_id == run_id) (values r.agents)

-- `list_by_team`
unfoldable pub list_by_team : Registry → String → List AgentInstance
list_by_team r team_id = keep (λ a. a.team_id == team_id) (values r.agents)

abbrev in_run : Option String → AgentInstance → Bool
in_run none a = true
in_run (some run_id) a = a.run_id == run_id

unfoldable pub find_by_capability : Registry → String → Option String → List AgentInstance
find_by_capability r capability run_id =
    keep (λ a. contains a.capabilities capability && in_run run_id a && (is_idle a || can_work a))
      (values r.agents)

-- `set(xs).issubset(set(ys))`
abbrev pub subset : List String → List String → Bool
subset xs ys = all (contains ys) xs

abbrev first {ℓ} : {A : Type ℓ} → List A → Option A
first [] = none
first (x ∷ xs) = some x

unfoldable pub find_idle : Registry → String → List String → Option AgentInstance
find_idle r run_id capabilities = first (
    keep (λ a. a.run_id == run_id && is_idle a && subset capabilities a.capabilities)
      (values r.agents))

abbrev pub primary_caps : List String
primary_caps = "planning" ∷ "research" ∷ "coding" ∷ "testing" ∷ "reviewing" ∷ "summarization" ∷ []

-- `stripped`
unfoldable pub strip_caps : List String → List String
strip_caps required = keep (contains primary_caps) required

abbrev pub unless_same : List String → List String → List (List String)
unless_same required [] = []
unless_same required (c ∷ cs) = if subset required (c ∷ cs) then [] else (c ∷ cs) ∷ []

-- `use_caps_list`: the stripped set is a part of the required one, so it differs from it where it
-- does not contain it.
unfoldable pub use_caps_list : List String → List (List String)
unfolding strip_caps
use_caps_list required = required ∷ unless_same required (strip_caps required)

-- `agents.sort(key=lambda item: item.agent_id != preferred_agent_id)`, a stable sort
abbrev pub preferred_first : Option String → List AgentInstance → List AgentInstance
preferred_first none agents = agents
preferred_first (some p) agents =
    if p == ""
    then agents
    else keep (λ a. a.agent_id == p) agents ++ keep (λ a. not (a.agent_id == p)) agents

-- The body of the loop: the agent as it is reserved, if none of the tests passes over it.
unfoldable pub try_reserve :
    String → List String → String → ℕ → AgentInstance → Option AgentInstance
try_reserve run_id use_caps task_id now a =
    if not (a.run_id == run_id) || not (is_idle a)
    then none
    else if not (subset use_caps a.capabilities)
    then none
    else if ltb a.max_concurrency 1
    then none
    else let (a', changed) = update_status a AgentStatus.claiming now in
      if changed
      then some (Instance.heartbeat (record a' { current_task_id = some task_id }) now)
      else none

abbrev pub or_next {ℓ} : {A : Type ℓ} → Option A → Option A → Option A
or_next none next = next
or_next (some a) next = some a

-- The inner loop.
unfoldable pub reserve_among :
    String → List String → String → ℕ → List AgentInstance → Option AgentInstance
unfolding try_reserve
reserve_among run_id use_caps task_id now [] = none
reserve_among run_id use_caps task_id now (a ∷ agents) =
    or_next (try_reserve run_id use_caps task_id now a)
      (reserve_among run_id use_caps task_id now agents)

-- The outer loop.
unfoldable pub reserve_with :
    String → List (List String) → String → ℕ → List AgentInstance → Option AgentInstance
unfolding reserve_among
reserve_with run_id [] task_id now agents = none
reserve_with run_id (use_caps ∷ more) task_id now agents =
    or_next (reserve_among run_id use_caps task_id now agents)
      (reserve_with run_id more task_id now agents)

abbrev pub saved : Registry → Option AgentInstance → Registry × Option AgentInstance
saved r none = (r, none)
saved r (some a) = (save a.agent_id a r, some a)

unfoldable pub reserve_idle_agent :
    Registry → String → List String → String → Option String → ℕ → Registry × Option AgentInstance
unfolding reserve_with use_caps_list save
reserve_idle_agent r run_id required_capabilities task_id preferred now = saved r (
    reserve_with run_id (use_caps_list required_capabilities) task_id now
      (preferred_first preferred (values r.agents)))
