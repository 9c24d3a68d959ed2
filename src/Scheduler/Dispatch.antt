-- ===== src/Scheduler/Dispatch.antt =====
-- app/multiagent/parallel_scheduler.py: `_discover_dispatchable` and its helpers. A running future is
-- the id of its task; `max_concurrency` is not negative. The tasks that are selected carry the agents
-- that the hints name.
use mega_deepagents.Base.{
  ℕ, suc, String, Bool, true, false, not, ◌&&◌, ◌||◌, Option, none, some, List, [], ◌∷◌, ◌-◌, min,
  if◌then◌else◌, ltb, leb, eqb, all, any, keep, contains, length, map, string_eq,
}
use mega_deepagents.Base.Lists.{sort_by}
use mega_deepagents.Base.Dict.{Dict, lookup, insert, erase, values}
use mega_deepagents.Agent.Instance.{AgentInstance, is_idle, is_alive}
use mega_deepagents.Registry.Pool.{Registry, list_by_run, subset}
use mega_deepagents.TaskBoard.Task.{BoardTask}
use mega_deepagents.TaskBoard.Store.{Board, raw_get}
use mega_deepagents.TaskBoard.Worker.{is_done}
use mega_deepagents.TaskBoard.Query.{list_pending}
use mega_deepagents.TaskGraph.Node.{TaskNode}
use mega_deepagents.TaskGraph.Graph.{TaskGraph}
use mega_deepagents.TaskGraph.Ready.{name_lt}

-- What `_discover_dispatchable` uses of the scheduler.
pub record Scheduler : Type 0 where
  pub run_id : String
  pub max_concurrency : ℕ
  pub task_graph : Option TaskGraph
  -- `_dispatch_agent_hints`
  pub dispatch_agent_hints : Dict String String

-- `_deps_satisfied`
unfoldable pub deps_satisfied : Board → String → BoardTask → Bool
deps_satisfied b run_id t = all (λ d. is_done (raw_get b d (some run_id))) t.dependencies

abbrev pub tool_capabilities : List String
tool_capabilities =
    "file_read" ∷ "file_write" ∷ "shell_execute" ∷ "web_research" ∷ "mcp_access" ∷ "default" ∷ []

-- `required - tool_capabilities`
abbrev pub without_tools : List String → List String
without_tools required = keep (λ c. not (contains tool_capabilities c)) required

-- `bool(primary) and primary.issubset(available)`
abbrev pub covers_primary : List String → List String → Bool
covers_primary [] available = false
covers_primary (c ∷ primary) available = subset (c ∷ primary) available

-- `_agent_can_serve` of the required capabilities
abbrev pub serves : List String → List String → Bool
serves [] available = true
serves (c ∷ required) available =
    subset (c ∷ required) available || covers_primary (without_tools (c ∷ required)) available

-- `_agent_can_serve`
unfoldable pub agent_can_serve : AgentInstance → BoardTask → Bool
agent_can_serve a t = serves t.required_capabilities a.capabilities

abbrev pub node_allows_parallel : Option TaskNode → Bool
node_allows_parallel none = true
node_allows_parallel (some n) = n.output_contract.allow_parallel

abbrev pub graph_allows_parallel : Option TaskGraph → String → Bool
graph_allows_parallel none task_id = true
graph_allows_parallel (some g) task_id = node_allows_parallel (lookup task_id g.nodes)

-- `_task_allows_parallel`
unfoldable pub task_allows_parallel : Scheduler → String → Bool
task_allows_parallel s task_id = graph_allows_parallel s.task_graph task_id

-- A task with the agents that can serve it.
abbrev pub Item : Type 0
Item = BoardTask × List AgentInstance

-- The tuple `(-priority, created_at, task_id)` of `a` is below that of `b`.
abbrev pub more_urgent : BoardTask → BoardTask → Bool
more_urgent a b =
    ltb b.priority a.priority
    || (eqb a.priority b.priority
        && (ltb a.created_at b.created_at
            || (eqb a.created_at b.created_at && name_lt a.task_id b.task_id)))

-- The tuple `(len(candidates), -priority, created_at, task_id)`.
abbrev pub more_constrained : Item → Item → Bool
more_constrained x y =
    ltb (length x.1) (length y.1) || (eqb (length x.1) (length y.1) && more_urgent x.0 y.0)

-- `ready`
unfoldable pub ready_now : Board → String → ℕ → List BoardTask
unfolding list_pending deps_satisfied
ready_now b run_id now = keep (deps_satisfied b run_id) (list_pending b run_id now)

-- `idle_agents`
unfoldable pub idle_agents : Registry → String → List AgentInstance
unfolding list_by_run is_idle
idle_agents r run_id = keep is_idle (list_by_run r run_id)

-- `live_agents`
unfoldable pub live_agents : Registry → String → List AgentInstance
unfolding list_by_run is_alive
live_agents r run_id = keep is_alive (list_by_run r run_id)

-- `candidates`
unfoldable pub candidates : List AgentInstance → BoardTask → List AgentInstance
unfolding agent_can_serve
candidates agents t = keep (λ a. agent_can_serve a t) agents

abbrev pub with_candidates : BoardTask → List AgentInstance → List Item → List Item
with_candidates t [] items = items
with_candidates t (a ∷ agents) items = (t, a ∷ agents) ∷ items

unfoldable pub serviceable : List AgentInstance → List BoardTask → List Item
unfolding candidates
serviceable agents [] = []
serviceable agents (t ∷ ts) = with_candidates t (candidates agents t) (serviceable agents ts)

-- `truly_unserviceable`: no live agent serves the task, and so no idle one.
unfoldable pub truly_unserviceable : List AgentInstance → List BoardTask → List BoardTask
unfolding agent_can_serve
truly_unserviceable live ts = keep (λ t. not (any (λ a. agent_can_serve a t) live)) ts

-- `ordered`, of the tasks that are not running
unfoldable pub in_dispatch_order : List String → List Item → List Item
unfolding sort_by
in_dispatch_order running items =
    sort_by more_constrained (keep (λ x. not (contains running x.0.task_id)) items)

abbrev pub first_item : List Item → List Item
first_item [] = []
first_item (x ∷ xs) = x ∷ []

-- One exclusive task, if there is any, with its `capacity`.
unfoldable pub start_barrier : List Item → List Item → ℕ → List Item × ℕ
unfolding sort_by
start_barrier [] ordered capacity = (ordered, capacity)
start_barrier (x ∷ xs) ordered capacity =
    (first_item (sort_by (λ y z. more_urgent y.0 z.0) (x ∷ xs)), min capacity 1)

-- The barriers: what is left of `ordered`, and of `capacity`.
unfoldable pub admit : Scheduler → List String → List Item → ℕ → List Item × ℕ
unfolding task_allows_parallel start_barrier
admit s [] ordered capacity =
    start_barrier (keep (λ x. not (task_allows_parallel s x.0.task_id)) ordered) ordered capacity
admit s (id ∷ running) ordered capacity =
    if any (λ i. not (task_allows_parallel s i)) (id ∷ running)
    then ([], capacity)
    else (keep (λ x. task_allows_parallel s x.0.task_id) ordered, capacity)

-- `min(candidates, key=lambda agent: len(agent.capabilities))`, the first of the least
unfoldable pub narrowest : AgentInstance → List AgentInstance → AgentInstance
narrowest best [] = best
narrowest best (a ∷ agents) =
    narrowest (if ltb (length a.capabilities) (length best.capabilities) then a else best) agents

unfoldable pub chosen : List AgentInstance → Option AgentInstance
unfolding narrowest
chosen [] = none
chosen (a ∷ agents) = some (narrowest a agents)

-- `{agent.agent_id: agent for agent in agents}`, put into a dict
unfoldable pub put_agents :
    Dict String AgentInstance → List AgentInstance → Dict String AgentInstance
put_agents d [] = d
put_agents d (a ∷ agents) = put_agents (insert a.agent_id a d) agents

abbrev pub Assignment : Type 0
Assignment = BoardTask × AgentInstance

-- The loop over `ordered`, with `taken` tasks selected before it.
unfoldable pub assign : ℕ → ℕ → Dict String AgentInstance → List BoardTask → List Assignment
unfolding candidates chosen
assign capacity taken available [] = []
assign capacity taken available (t ∷ ts) = elim (chosen (candidates (values available) t)) [
  | none ↦ assign capacity taken available ts
  | some a ↦
      let rest = assign capacity (suc taken) (erase a.agent_id available) ts in
      (t, a) ∷ (if leb capacity (suc taken) then [] else rest)
]

abbrev pub assign_admitted : Dict String AgentInstance → List Item × ℕ → List Assignment
assign_admitted available (items, capacity) = assign capacity 0 available (map (λ x. x.0) items)

-- The selected tasks, each with the agent that its hint names.
unfoldable pub wave : Scheduler → Board → Registry → List String → ℕ → List Assignment
unfolding ready_now idle_agents serviceable in_dispatch_order admit put_agents assign
wave s b r running now =
    let idle = idle_agents r s.run_id in
    let ordered = in_dispatch_order running (serviceable idle (ready_now b s.run_id now)) in
    assign_admitted (put_agents [] idle)
      (admit s running ordered (s.max_concurrency - length running))

abbrev pub hint_each : Dict String String → List Assignment → Dict String String
hint_each hints [] = hints
hint_each hints ((t, a) ∷ rest) = hint_each (insert t.task_id a.agent_id hints) rest

-- The scheduler with its hints, the tasks that `TasksWaitingForCapability` names (it is sent if
-- there are any), and the selected tasks.
unfoldable pub discover_dispatchable :
    Scheduler → Board → Registry → List String → ℕ → Scheduler × List BoardTask × List BoardTask
unfolding wave truly_unserviceable live_agents
discover_dispatchable s b r running now =
    let found = wave s b r running now in
    (
      record s { dispatch_agent_hints = hint_each s.dispatch_agent_hints found },
      truly_unserviceable (live_agents r s.run_id) (ready_now b s.run_id now),
      map (λ p. p.0) found,
    )
