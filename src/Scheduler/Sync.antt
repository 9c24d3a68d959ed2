-- ===== src/Scheduler/Sync.antt =====
-- app/multiagent/parallel_scheduler.py: `sync_from_task_graph`, `sync_back_to_dag` and `_step_to`,
-- between the plan and the board. The clock is read once in each.
use mega_deepagents.Base.{
  ℕ, String, Bool, true, false, not, ◌&&◌, ◌||◌, Option, none, some, List, [], ◌∷◌, if◌then◌else◌,
  is_some, ◌==◌, string_eq,
}
use mega_deepagents.Base.Dict.{Dict, lookup}
use mega_deepagents.TaskBoard.Task.{BoardTask, BoardTaskStatus, new_task}
use mega_deepagents.TaskBoard.Store.{Board, add, raw_get, raw_list_by_run}
use mega_deepagents.TaskGraph.Node.{TaskNode, TaskNodeStatus}
use mega_deepagents.TaskGraph.Graph.{TaskGraph, update_status, accept_artifact}

-- `node.title or node_id`
abbrev pub title_or : String → String → String
title_or title node_id = if title == "" then node_id else title

-- `sync_from_task_graph`, over the items of `dag.nodes`
unfoldable pub sync_from_task_graph : Dict String TaskNode → Board → String → ℕ → Board
unfolding raw_get add new_task
sync_from_task_graph [] b run_id now = b
sync_from_task_graph ((node_id, n) ∷ nodes) b run_id now =
    let kept = sync_from_task_graph nodes b run_id now in
    let created =
      sync_from_task_graph nodes
        (add
          (new_task node_id run_id (title_or n.title node_id) n.objective n.dependencies
            n.required_capabilities n.priority n.max_attempts now)
          b)
        run_id now in
    if is_some (raw_get b node_id (some run_id)) then kept else created

abbrev pub status_of : Option TaskNode → Option TaskNodeStatus
status_of none = none
status_of (some n) = some n.status

-- `node.status == status` of the node as it is stored
abbrev pub is_at : TaskNodeStatus → Option TaskNodeStatus → Bool
is_at TaskNodeStatus.pending (some TaskNodeStatus.pending) = true
is_at TaskNodeStatus.ready (some TaskNodeStatus.ready) = true
is_at TaskNodeStatus.running (some TaskNodeStatus.running) = true
is_at TaskNodeStatus.succeeded (some TaskNodeStatus.succeeded) = true
is_at TaskNodeStatus.failed (some TaskNodeStatus.failed) = true
is_at TaskNodeStatus.skipped (some TaskNodeStatus.skipped) = true
is_at TaskNodeStatus.cancelled (some TaskNodeStatus.cancelled) = true
is_at _ _ = false

-- `target in (SUCCEEDED, FAILED)`
abbrev pub is_verdict : TaskNodeStatus → Bool
is_verdict TaskNodeStatus.succeeded = true
is_verdict TaskNodeStatus.failed = true
is_verdict _ = false

abbrev pub is_ready : TaskNodeStatus → Bool
is_ready TaskNodeStatus.ready = true
is_ready _ = false

-- One step: `update_status`, if the node is at `status` and the test allows it.
abbrev pub step_if : TaskGraph → String → TaskNodeStatus → Bool → TaskNodeStatus → ℕ → TaskGraph
step_if g node_id status allowed next now =
    if is_at status (status_of (lookup node_id g.nodes)) && allowed
    then (update_status g node_id next now).0
    else g

-- The three steps.
unfoldable pub three_steps : TaskGraph → String → TaskNodeStatus → ℕ → TaskGraph
unfolding update_status
three_steps g node_id target now =
    let readied = step_if g node_id TaskNodeStatus.pending true TaskNodeStatus.ready now in
    let begun =
      step_if readied node_id TaskNodeStatus.ready (not (is_ready target)) TaskNodeStatus.running
        now in
    step_if begun node_id TaskNodeStatus.running (is_verdict target) target now

-- `_step_to`
unfoldable pub step_to : TaskGraph → String → TaskNodeStatus → ℕ → TaskGraph
unfolding three_steps
step_to g node_id target now =
    if not (is_some (lookup node_id g.nodes)) || is_at target (status_of (lookup node_id g.nodes))
    then g
    else three_steps g node_id target now

-- `target`
abbrev pub node_target : BoardTaskStatus → Option TaskNodeStatus
node_target BoardTaskStatus.succeeded = some TaskNodeStatus.succeeded
node_target BoardTaskStatus.failed = some TaskNodeStatus.failed
node_target BoardTaskStatus.running = some TaskNodeStatus.running
node_target BoardTaskStatus.claimed = some TaskNodeStatus.running
node_target _ = none

-- The loop over `produced_artifact_ids`; `accept_artifact` itself passes over what is there.
unfoldable pub accept_each : TaskGraph → String → List String → ℕ → TaskGraph
unfolding accept_artifact
accept_each g node_id [] now = g
accept_each g node_id (art ∷ arts) now =
    accept_each (accept_artifact g node_id art now) node_id arts now

abbrev pub push_task : TaskGraph → BoardTask → Option TaskNodeStatus → ℕ → TaskGraph
push_task g t none now = g
push_task g t (some target) now =
    accept_each (step_to g t.task_id target now) t.task_id t.produced_artifact_ids now

-- The loop of `sync_back_to_dag`.
unfoldable pub push_back_each : TaskGraph → List BoardTask → ℕ → TaskGraph
unfolding step_to accept_each
push_back_each g [] now = g
push_back_each g (t ∷ ts) now =
    push_back_each
      (if is_some (lookup t.task_id g.nodes) then push_task g t (node_target t.status) now else g)
      ts now

-- `sync_back_to_dag`
unfoldable pub sync_back_to_dag : TaskGraph → Board → String → ℕ → TaskGraph
unfolding push_back_each raw_list_by_run
sync_back_to_dag g b run_id now = push_back_each g (raw_list_by_run b run_id) now
