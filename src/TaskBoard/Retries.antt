-- ===== src/TaskBoard/Retries.antt =====
-- app/multiagent/task_board.py: `fail` gives a task finitely many retries.
use mega_deepagents.Base.{
  ℕ, ◌+◌, ◌-◌, ◌<◌, ◌≤◌, String, Bool, Option, none, some, List, [], ◌∷◌, ◌≡◌, arith, ◌⊎◌, inl, inr,
  if◌then◌else◌, length, option_eq, string_eq,
}
use mega_deepagents.TaskBoard.Task.{BoardTask, pending, failed, is_pending}
use mega_deepagents.TaskBoard.Worker.{grant}
use mega_deepagents.TaskBoard.Failure.{fail_task, rate_limit_grace}

-- The ordinary retries and the grace retries that a task still has.
abbrev pub retries_left : BoardTask → ℕ
retries_left t =
    (t.max_attempts - t.attempts) + (rate_limit_grace - t.metadata.rate_limit_grace_used)

-- A time is set, and it is not before `now`.
abbrev pub NotBefore : ℕ → Option ℕ → Type 0
NotBefore now none = ⊥
NotBefore now (some at) = now ≤ at

-- A failure that the board accepts either leaves the task FAILED and stamped with the time, or
-- PENDING with no claimant, a time not before now at which it is due, and fewer ordinary and
-- grace retries left in sum.
pub fail_outcome :
    (agent error : String) (retryable : Bool) (delay : ℕ) (category : String) (now : ℕ)
    (t : BoardTask) {t' : BoardTask}
    → fail_task agent error retryable delay category now t ≡ some t'
    → ((t'.status ≡ failed) × (t'.completed_at ≡ some now))
      ⊎ ((t'.status ≡ pending)
          × (t'.claimed_by ≡ none)
          × NotBefore now t'.next_attempt_at
          × (retries_left t' < retries_left t))
unfolding fail_task
fail_outcome agent error retryable delay category now t e = ground arith

-- A failed attempt as the scheduler reports it.
pub record Report : Type 0 where
  pub agent : String
  pub error : String
  pub retryable : Bool
  pub delay : ℕ
  pub category : String
  pub now : ℕ

-- The task is claimed, worked on, and fails; a task that is not pending is left alone.
abbrev pub attempt : Report → BoardTask → BoardTask
attempt r t =
    elim (fail_task r.agent r.error r.retryable r.delay r.category r.now (grant r.agent r.now t)) [
      | none ↦ t
      | some t' ↦ t'
    ]

abbrev pub attempts : List Report → BoardTask → BoardTask
attempts [] t = t
attempts (r ∷ rs) t = if is_pending t.status then attempts rs (attempt r t) else t

attempt_outcome :
    (r : Report) (t : BoardTask)
    → ((attempt r t).status ≡ failed)
      ⊎ (((attempt r t).status ≡ pending) × (retries_left (attempt r t) < retries_left t))
unfolding grant fail_task
attempt_outcome r t = ground arith

attempts-failed :
    (rs : List Report) (t : BoardTask) → t.status ≡ failed → (attempts rs t).status ≡ failed
attempts-failed [] t h = h
attempts-failed (r ∷ rs) t h = ground arith

-- A PENDING task that is claimed and fails over and over, with whatever reports, is FAILED
-- once there were more attempts than its ordinary and its grace retries that were left.
pub attempts_exhaust :
    (rs : List Report) (t : BoardTask)
    → t.status ≡ pending
    → retries_left t < length rs
    → (attempts rs t).status ≡ failed
attempts_exhaust [] t p h = absurd (omega arith)
attempts_exhaust (r ∷ rs) t p h = elim (attempt_outcome r t) [
  | inl final ↦ simp p (attempts-failed rs (attempt r t) final)
  | inr (again, fewer) ↦ simp p (attempts_exhaust rs (attempt r t) again (omega arith))
]
