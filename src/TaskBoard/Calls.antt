-- ===== src/TaskBoard/Calls.antt =====
-- app/multiagent/task_board.py: the board's public mutators as one type of calls, so that a history
-- of the board is a list of calls with the times at which they were made. `add` takes any task, as the
-- scheduler hands over copies that it has changed.
use mega_deepagents.Base.{ℕ, String, Bool, Option, List, [], ◌∷◌}
use mega_deepagents.TaskBoard.Task.{BoardTask, new_task}
use mega_deepagents.TaskBoard.Store
use mega_deepagents.TaskBoard.Store.{Board}
use mega_deepagents.TaskBoard.Worker
use mega_deepagents.TaskBoard.Failure
use mega_deepagents.TaskBoard.Control
use mega_deepagents.TaskBoard.Runs

pub data Call : Type 0 where
  add : BoardTask → Call
  create_task :
      (task_id run_id title objective : String) (dependencies capabilities : List String)
      (priority max_attempts : ℕ)
      → Call
  claim : (task_id agent_id : String) (run_id : Option String) → Call
  start : (task_id agent_id : String) (run_id : Option String) → Call
  release : (task_id agent_id reason : String) (run_id : Option String) → Call
  complete :
      (task_id agent_id : String) (artifact_ids : List String) (run_id : Option String) → Call
  mark_produced :
      (task_id agent_id : String) (artifact_ids : List String) (run_id : Option String) → Call
  mark_blocked : (task_id agent_id reason : String) (run_id : Option String) → Call
  mark_verifying : (task_id : String) (run_id : Option String) → Call
  mark_verified : (task_id : String) (run_id : Option String) → Call
  mark_repair_required : (task_id : String) (run_id : Option String) → Call
  supersede_with_repair : (task_id repair_task_id run_id : String) → Call
  fail :
      (task_id agent_id error : String) (run_id : Option String) (retryable : Bool) (delay : ℕ)
      (category : String)
      → Call
  retry : (task_id run_id reason : String) (reset_attempts : Bool) → Call
  cancel : (task_id reason : String) (run_id : Option String) → Call
  request_replan : (task_id reason requested_by : String) (run_id : Option String) → Call
  cancel_run : (run_id reason : String) → Call
  purge_run : (run_id : String) → Call
  restore_run : (run_id : String) → Call
  prepare_for_resume : (run_id : String) → Call

-- The board after a call; what the call returns is left out.
unfoldable pub call : Board → ℕ → Call → Board
call b now (add t) = Store.add t b
call b now (create_task id run title objective deps caps priority max) =
    Store.add (new_task id run title objective deps caps priority max now) b
call b now (claim id agent run) = (Worker.claim b id agent run now).0
call b now (start id agent run) = (Worker.start b id agent run now).0
call b now (release id agent reason run) = (Worker.release b id agent reason run now).0
call b now (complete id agent artifacts run) = (Worker.complete b id agent artifacts run now).0
call b now (mark_produced id agent artifacts run) =
    (Worker.mark_produced b id agent artifacts run now).0
call b now (mark_blocked id agent reason run) = (Worker.mark_blocked b id agent reason run now).0
call b now (mark_verifying id run) = (Control.mark_verifying b id run now).0
call b now (mark_verified id run) = (Control.mark_verified b id run now).0
call b now (mark_repair_required id run) = (Control.mark_repair_required b id run now).0
call b now (supersede_with_repair id repair run) =
    (Control.supersede_with_repair b id repair run now).0
call b now (fail id agent error run retryable delay category) =
    (Failure.fail b id agent error run retryable delay category now).0
call b now (retry id run reason reset) = (Control.retry b id run reason reset now).0
call b now (cancel id reason run) = (Control.cancel b id reason run now).0
call b now (request_replan id reason by run) = (Control.request_replan b id reason by run now).0
call b now (cancel_run run reason) = (Runs.cancel_run b run reason now).0
call b now (purge_run run) = (Runs.purge_run b run).0
call b now (restore_run run) = (Runs.restore_run b run).0
call b now (prepare_for_resume run) = (Runs.prepare_for_resume b run now).0

unfoldable pub calls : Board → List (ℕ × Call) → Board
unfolding call
calls b [] = b
calls b ((now, c) ∷ cs) = calls (call b now c) cs
