-- ===== src/TaskService/Calls.antt =====
-- app/multiagent/transactional_task_service.py: histories of its operations. A mutation or a
-- registration whose reads before the transaction were made on an earlier state is a call of its
-- own, with what it read as arguments, so that the histories hold the interleavings of callers whose
-- transactions are atomic.
use mega_deepagents.Base.{ℕ, String, Bool, List, [], ◌∷◌}
use mega_deepagents.TaskBoard.Task.{BoardTask}
use mega_deepagents.TaskGraph.Node.{TaskNode}
use mega_deepagents.TaskGraph.Graph.{TaskGraph}
use mega_deepagents.TaskService.Store.{
  TaskGraphMutation, TaskGraphVersion, ServiceState, ServiceResult, success, failure,
}
use mega_deepagents.TaskService.Apply.{apply, commit_mutation}
use mega_deepagents.TaskService.Register.{register_initial_graph, write_late, reload, replace_with}

pub data ServiceCall : Type 0 where
  register : (run_id : String) (g : TaskGraph) (actor_agent_id : String) → ServiceCall
  mutate : TaskGraphMutation → ServiceCall
  mutate_late : TaskGraphMutation → ServiceCall
  register_late : (run_id : String) (g : TaskGraph) (actor_agent_id : String) → ServiceCall
  reload_late : (run_id : String) → ServiceCall
  replace_late :
      (run_id : String) (incoming : TaskGraph) (actor_agent_id : String)
      (old_tasks : List BoardTask) (version : ℕ)
      → ServiceCall

-- What raises leaves the state as it was.
abbrev pub state_after :
    ServiceState → ServiceResult (ServiceState × TaskGraphVersion) → ServiceState
state_after s (failure e) = s
state_after s (success r) = r.0

-- A call with the time and the answer of the hooks on TaskCreated.
abbrev pub TimedCall : Type 0
TimedCall = ℕ × (TaskNode → Bool) × ServiceCall

unfoldable pub service_call : ServiceState → ℕ → (TaskNode → Bool) → ServiceCall → ServiceState
service_call s now allows (ServiceCall.register run_id g actor) =
    state_after s (register_initial_graph allows s run_id g actor now)
service_call s now allows (ServiceCall.mutate m) = (apply allows s m now).0
service_call s now allows (ServiceCall.mutate_late m) = (commit_mutation allows s m now).0
service_call s now allows (ServiceCall.register_late run_id g actor) =
    state_after s (write_late allows s run_id g actor now)
service_call s now allows (ServiceCall.reload_late run_id) = reload run_id s
service_call s now allows (ServiceCall.replace_late run_id g actor old_tasks version) =
    state_after s (replace_with allows s run_id g actor now old_tasks version)

unfoldable pub service_calls : ServiceState → List TimedCall → ServiceState
unfolding service_call
service_calls s [] = s
service_calls s ((now, allows, c) ∷ cs) = service_calls (service_call s now allows c) cs
