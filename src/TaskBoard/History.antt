-- ===== src/TaskBoard/History.antt =====
-- app/multiagent/task_board.py: every call keeps the board sound, and with it every history of calls
-- from an empty board.
use mega_deepagents.Base.{All, ℕ, Bool, List, [], ◌∷◌, some}
use mega_deepagents.Base.{arith, string_eq, pair_eq}
use mega_deepagents.Base.Dict.{lookup-nil}
use mega_deepagents.TaskBoard.Task.{BoardTask}
use mega_deepagents.TaskBoard.Store.{Board, empty_board}
use mega_deepagents.TaskBoard.Worker
use mega_deepagents.TaskBoard.Failure
use mega_deepagents.TaskBoard.Control
use mega_deepagents.TaskBoard.Calls.{Call, call, calls}
use mega_deepagents.TaskBoard.Invariant.{IsSound, add-IsSound, transact-IsSound, claim-IsSound}
use mega_deepagents.TaskBoard.RunInvariant.{
  cancel_run-IsSound, prepare_for_resume-IsSound, purge_run-IsSound, restore_run-IsSound,
}
use mega_deepagents.TaskBoard.Validity

-- A task that a caller of `add` made or changed is valid in its counters and stamps.
abbrev pub ValidAdd : Call → Type 0
ValidAdd (Call.add t) = Validity.IsValid t
ValidAdd _ = Unit

pub call-IsSound :
    {b : Board} (now : ℕ) (c : Call) → ValidAdd c → IsSound b → IsSound (call b now c)
unfolding call Worker.start Worker.release Worker.complete Worker.mark_produced Worker.mark_blocked
    Failure.fail Control.mark_verifying Control.mark_verified Control.mark_repair_required
    Control.supersede_with_repair Control.retry Control.cancel Control.request_replan
call-IsSound now (Call.add t) v s = add-IsSound t s v
call-IsSound now (Call.create_task id run title objective deps caps priority max) v s =
    add-IsSound _ s (Validity.new_task-IsValid id run title objective deps caps priority max now)
call-IsSound now (Call.claim id agent run) v s = claim-IsSound id agent run now s
call-IsSound now (Call.start id agent run) v s =
    transact-IsSound id run (Validity.start-Keeps agent now) s
call-IsSound now (Call.release id agent reason run) v s =
    transact-IsSound id run (Validity.release-Keeps agent reason now) s
call-IsSound now (Call.complete id agent artifacts run) v s =
    transact-IsSound id run (Validity.complete-Keeps agent artifacts now) s
call-IsSound now (Call.mark_produced id agent artifacts run) v s =
    transact-IsSound id run (Validity.mark_produced-Keeps agent artifacts now) s
call-IsSound now (Call.mark_blocked id agent reason run) v s =
    transact-IsSound id run (Validity.mark_blocked-Keeps agent reason now) s
call-IsSound now (Call.mark_verifying id run) v s =
    transact-IsSound id run (Validity.mark_verifying-Keeps now) s
call-IsSound now (Call.mark_verified id run) v s =
    transact-IsSound id run (Validity.mark_verified-Keeps now) s
call-IsSound now (Call.mark_repair_required id run) v s =
    transact-IsSound id run (Validity.mark_repair_required-Keeps now) s
call-IsSound now (Call.supersede_with_repair id repair run) v s =
    transact-IsSound id (some run) (Validity.supersede-Keeps repair now) s
call-IsSound now (Call.fail id agent error run retryable delay category) v s =
    transact-IsSound id run (Validity.fail-Keeps agent error retryable delay category now) s
call-IsSound now (Call.retry id run reason reset) v s =
    transact-IsSound id (some run) (Validity.retry-Keeps reason reset now) s
call-IsSound now (Call.cancel id reason run) v s =
    transact-IsSound id run (Validity.cancel-Keeps reason now) s
call-IsSound now (Call.request_replan id reason by run) v s =
    transact-IsSound id run (Validity.request_replan-Keeps reason by now) s
call-IsSound now (Call.cancel_run run reason) v s = cancel_run-IsSound run reason now s
call-IsSound now (Call.purge_run run) v s = purge_run-IsSound run s
call-IsSound now (Call.restore_run run) v s = restore_run-IsSound run s
call-IsSound now (Call.prepare_for_resume run) v s = prepare_for_resume-IsSound run now s

pub empty_board-IsSound : (durable : Bool) → IsSound (empty_board durable)
empty_board-IsSound durable = record {
  well_formed = record {
    keyed = tt;
    nodup = tt;
    rows_keyed = tt;
    rows_nodup = tt;
    indexed = λ k h. ground (arith, lookup-nil {V = BoardTask} k);
    in_run = tt;
    durable = λ on k t h. ground (arith, lookup-nil {V = BoardTask} k);
  };
  tasks_valid = tt;
  rows_valid = tt;
}

calls_from-IsSound :
    (cs : List (ℕ × Call)) {b : Board}
    → All (λ c. ValidAdd c.1) cs
    → IsSound b
    → IsSound (calls b cs)
unfolding calls
calls_from-IsSound [] v s = s
calls_from-IsSound ((now, c) ∷ cs) v s = calls_from-IsSound cs v.1 (call-IsSound now c v.0 s)

-- After any list of calls on an empty board, durable or not, where each task that is handed to add
-- itself is valid in its counters and stamps (one that is worked on or BLOCKED has a claimant, one
-- that is PENDING has none, one that is terminal has its time, and the histories and the grace are
-- within their limits), the board is sound: tasks and rows stand under their own run and id, each key once; the index of a run names keys of that
-- run alone, and every held task of it; on a durable board every held task equals its row; and
-- every held or stored task is valid in its counters and stamps.
pub calls-IsSound :
    (durable : Bool) (cs : List (ℕ × Call))
    → All (λ c. ValidAdd c.1) cs
    → IsSound (calls (empty_board durable) cs)
calls-IsSound durable cs v = calls_from-IsSound cs v (empty_board-IsSound durable)
