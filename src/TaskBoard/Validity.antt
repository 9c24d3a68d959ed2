-- ===== src/TaskBoard/Validity.antt =====
-- app/multiagent/task_board.py: what holds of each task on the board between two calls, and that
-- each method on one task keeps it.
use mega_deepagents.Base.{
  ℕ, ◌≤◌, ◌-◌, ◌+◌, String, Bool, true, Option, none, some, List, [], ◌∷◌, ◌++◌, ◌≡◌, arith, length,
  length-drop, is_some,
}
use mega_deepagents.TaskBoard.Task.{
  BoardTask, is_pending, is_in_flight, is_blocked, is_terminal, new_task,
}
use mega_deepagents.TaskBoard.Store.{key_of}
use mega_deepagents.TaskBoard.Worker
use mega_deepagents.TaskBoard.Failure
use mega_deepagents.TaskBoard.Failure.{append_bounded, rate_limit_grace, history_limit}
use mega_deepagents.TaskBoard.Control
use mega_deepagents.TaskBoard.Runs

pub record IsValid (t : BoardTask) : Type 0 where
  -- A pending task has no claimant, and a task that is being worked on has one.
  pub unclaimed : is_pending t.status ≡ true → t.claimed_by ≡ none
  pub owned : is_in_flight t.status ≡ true → is_some t.claimed_by ≡ true
  pub blocked_owned : is_blocked t.status ≡ true → is_some t.claimed_by ≡ true
  pub stamped : is_terminal t.status ≡ true → is_some t.completed_at ≡ true
  pub history_bounded : length t.metadata.error_history ≤ history_limit
  pub requests_bounded : length t.metadata.replan_requests ≤ history_limit
  pub grace_bounded : t.metadata.rate_limit_grace_used ≤ rate_limit_grace

-- What a method's guard and assignments do to a task: the ids stay, and validity is kept.
pub record Keeps (f : BoardTask → Option BoardTask) : Type 0 where
  pub same_key : (t t' : BoardTask) → f t ≡ some t' → key_of t' ≡ key_of t
  pub valid : (t t' : BoardTask) → IsValid t → f t ≡ some t' → IsValid t'

pub length-append_bounded {ℓ} :
    {A : Type ℓ} (xs : List A) (x : A) → length (append_bounded xs x) ≤ history_limit
unfolding append_bounded
length-append_bounded xs x =
    ground (arith, length-drop (length (xs ++ x ∷ []) - history_limit) (xs ++ x ∷ []))

pub start-Keeps : (agent : String) (now : ℕ) → Keeps (Worker.start_task agent now)
unfolding Worker.start_task
start-Keeps agent now = record {
  same_key = λ t t' e. ground arith;
  valid = λ t t' v e. ground arith;
}

pub release-Keeps : (agent reason : String) (now : ℕ) → Keeps (Worker.release_task agent reason now)
unfolding Worker.release_task
release-Keeps agent reason now = record {
  same_key = λ t t' e. ground arith;
  valid = λ t t' v e. ground (arith);
}

pub complete-Keeps :
    (agent : String) (artifacts : List String) (now : ℕ)
    → Keeps (Worker.complete_task agent artifacts now)
unfolding Worker.complete_task
complete-Keeps agent artifacts now = record {
  same_key = λ t t' e. ground arith;
  valid = λ t t' v e. ground (arith);
}

pub mark_produced-Keeps :
    (agent : String) (artifacts : List String) (now : ℕ)
    → Keeps (Worker.mark_produced_task agent artifacts now)
unfolding Worker.mark_produced_task
mark_produced-Keeps agent artifacts now = record {
  same_key = λ t t' e. ground arith;
  valid = λ t t' v e. ground (arith);
}

pub mark_blocked-Keeps :
    (agent reason : String) (now : ℕ) → Keeps (Worker.mark_blocked_task agent reason now)
unfolding Worker.mark_blocked_task
mark_blocked-Keeps agent reason now = record {
  same_key = λ t t' e. ground arith;
  valid = λ t t' v e. ground (arith);
}

pub mark_verifying-Keeps : (now : ℕ) → Keeps (Control.mark_verifying_task now)
unfolding Control.mark_verifying_task
mark_verifying-Keeps now = record {
  same_key = λ t t' e. ground arith;
  valid = λ t t' v e. ground (arith);
}

pub mark_verified-Keeps : (now : ℕ) → Keeps (Control.mark_verified_task now)
unfolding Control.mark_verified_task
mark_verified-Keeps now = record {
  same_key = λ t t' e. ground arith;
  valid = λ t t' v e. ground (arith);
}

pub mark_repair_required-Keeps : (now : ℕ) → Keeps (Control.mark_repair_required_task now)
unfolding Control.mark_repair_required_task
mark_repair_required-Keeps now = record {
  same_key = λ t t' e. ground arith;
  valid = λ t t' v e. ground (arith);
}

pub supersede-Keeps : (repair : String) (now : ℕ) → Keeps (Control.supersede_task repair now)
unfolding Control.supersede_task
supersede-Keeps repair now = record {
  same_key = λ t t' e. ground arith;
  valid = λ t t' v e. ground (arith);
}

pub retry-Keeps :
    (reason : String) (reset : Bool) (now : ℕ) → Keeps (Control.retry_task reason reset now)
unfolding Control.retry_task
retry-Keeps reason reset now = record {
  same_key = λ t t' e. ground arith;
  valid = λ t t' v e. ground (arith);
}

pub cancel-Keeps : (reason : String) (now : ℕ) → Keeps (Control.cancel_task reason now)
unfolding Control.cancel_task
cancel-Keeps reason now = record {
  same_key = λ t t' e. ground arith;
  valid = λ t t' v e. ground (arith);
}

pub request_replan-Keeps :
    (reason by : String) (now : ℕ) → Keeps (Control.request_replan_task reason by now)
unfolding Control.request_replan_task
request_replan-Keeps reason by now = record {
  same_key = λ t t' e. ground arith;
  valid = λ t t' v e. ground (
    arith,
    length-append_bounded t.metadata.replan_requests (record {
      requested_by = by;
      reason = reason;
      requested_at = now;
      previous_status = t.status;
    }),
  );
}

pub fail-Keeps :
    (agent error : String) (retryable : Bool) (delay : ℕ) (category : String) (now : ℕ)
    → Keeps (Failure.fail_task agent error retryable delay category now)
unfolding Failure.fail_task
fail-Keeps agent error retryable delay category now = record {
  same_key = λ t t' e. ground arith;
  valid = λ t t' v e. ground (
    arith,
    length-append_bounded t.metadata.error_history (record {
      attempt = t.attempts + 1;
      category = category;
      message = error;
      timestamp = now;
    }),
  );
}

pub grant-IsValid :
    (agent : String) (now : ℕ) (t : BoardTask) → IsValid t → IsValid (Worker.grant agent now t)
unfolding Worker.grant
grant-IsValid agent now t v = ground arith

pub resume_task-IsValid : (now : ℕ) (t : BoardTask) → IsValid t → IsValid (Runs.resume_task now t)
unfolding Runs.resume_task
resume_task-IsValid now t v = ground arith

pub new_task-IsValid :
    (id run title objective : String) (deps caps : List String) (priority max now : ℕ)
    → IsValid (new_task id run title objective deps caps priority max now)
unfolding new_task
new_task-IsValid id run title objective deps caps priority max now = ground arith
