-- ===== src/TaskBoard/Verdicts.antt =====
-- app/multiagent/task_board.py: which calls can make a task SUCCEEDED, and what `cancel` does not
-- prevent.
use mathlib.Core.Option
use mathlib.Core.Option.{some-injective}
use mega_deepagents.Base.{
  ℕ, ◌+◌, ◌<◌, String, Bool, true, false, Option, none, some, List, ◌≡◌, refl, sym, arith, ap, ◌∙◌,
  if◌then◌else◌, Bool-cases, Option-cases, inl, inr, string_eq, pair_eq, ◌==◌, eq→path,
}
use mega_deepagents.Base.Dict.{lookup, lookup-insert}
use mega_deepagents.TaskBoard.Task.{
  BoardTask, BoardTaskStatus, produced, verifying, succeeded, pending, is_terminal, new_task,
}
use mega_deepagents.TaskBoard.Store.{Key, Board, key_of, save, add, raw_get, transact, run_keys}
use mega_deepagents.TaskBoard.Worker
use mega_deepagents.TaskBoard.Failure
use mega_deepagents.TaskBoard.Control
use mega_deepagents.TaskBoard.Runs
use mega_deepagents.TaskBoard.Calls.{Call, call}
use mega_deepagents.TaskBoard.WellFormed.{Holds, raw_get-Holds}
use mega_deepagents.TaskBoard.Validity
use mega_deepagents.TaskBoard.Validity.{Keeps, cancel-Keeps, fail-Keeps}
use mega_deepagents.TaskBoard.Invariant.{IsSound, transact-IsSound}
use mega_deepagents.TaskBoard.Claiming.{claim-success_inv, claim-refused_same}
use mega_deepagents.TaskBoard.RunInvariant.{lookup-evict}
use mega_deepagents.TaskBoard.Frame.{lookup-save_held, lookup-transact_self, applied}
use mega_deepagents.TaskBoard.Recovery.{
  lookup-cancel_run, lookup-prepare_for_resume, resumed, cancelled_by,
}

-- `status in (PRODUCED, VERIFYING, SUCCEEDED)`
abbrev pub is_vetted : BoardTaskStatus → Bool
is_vetted produced = true
is_vetted verifying = true
is_vetted succeeded = true
is_vetted _ = false

-- `status == SUCCEEDED`
abbrev is_succeeded : BoardTaskStatus → Bool
is_succeeded succeeded = true
is_succeeded _ = false

-- The calls that may bring in a success of their own: a worker's `complete`, a restart, and an `add`
-- of a task that has SUCCEEDED.
abbrev pub vouches : Call → Bool
vouches (Call.complete id agent artifacts run) = true
vouches (Call.restore_run run) = true
vouches (Call.add t) = is_succeeded t.status
vouches _ = false

-- Before the call the task was there, and vetted.
abbrev pub WasVetted : Board → Key → Type 0
WasVetted b k = (t : BoardTask) × (lookup k b.tasks ≡ some t) × (is_vetted t.status ≡ true)

abbrev Promotes : (BoardTask → Option BoardTask) → Type 0
Promotes f = (t t' : BoardTask) → f t ≡ some t' → t'.status ≡ succeeded → is_vetted t.status ≡ true

unmoved :
    (b : Board) (k : Key) (t : BoardTask)
    → lookup k b.tasks ≡ some t
    → t.status ≡ succeeded
    → WasVetted b k
unmoved b k t h done = (t, h, rw done)

module _ (c : Bool) (x u : BoardTask) (o l : Option BoardTask) (e : l ≡ (if c then some x else o))
    (h : l ≡ some u) where
  new_one : c ≡ true → u ≡ x
  new_one on = ground arith

  old_one : c ≡ false → o ≡ some u
  old_one off = ground arith

saved-WasVetted :
    (b : Board) (k : Key) (t t' u : BoardTask)
    → Holds b t
    → key_of t' ≡ key_of t
    → (t'.status ≡ succeeded → is_vetted t.status ≡ true)
    → lookup k (save t' b).tasks ≡ some u
    → u.status ≡ succeeded
    → WasVetted b k
saved-WasVetted b k t t' u held same promotes h done =
    let e = lookup-save_held b (key_of t') k t' refl in
    elim (Bool-cases (k == key_of t')) [
      | inl here ↦ (
        t,
        rw (eq→path k (key_of t') here, same) held,
        promotes (rw (new_one _ t' u (lookup k b.tasks) _ e h here) at done),
      )
      | inr other ↦ unmoved b k u (old_one _ t' u (lookup k b.tasks) _ e h other) done
    ]

transact-WasVetted :
    {b : Board} (id : String) (run : Option String) {f : BoardTask → Option BoardTask} (k : Key)
    {u : BoardTask}
    → Keeps f
    → Promotes f
    → IsSound b
    → lookup k (transact b id run f).0.tasks ≡ some u
    → u.status ≡ succeeded
    → WasVetted b k
transact-WasVetted {b} id run {f} k {u} keeps promotes s h done =
    elim (Option-cases (raw_get b id run)) [
      | inl e ↦ unmoved b k u (rw e at h) done
      | inr (t, e) ↦ elim (Option-cases (f t)) [
        | inl refused ↦ unmoved b k u (rw (e, refused) at h) done
        | inr (t', accepted) ↦
            saved-WasVetted b k t t' u (raw_get-Holds id run s.well_formed e).0
              (keeps.same_key t t' accepted) (promotes t t' accepted) (rw (e, accepted) at h) done
      ]
    ]

claim-WasVetted :
    {b : Board} (id agent : String) (run : Option String) (now : ℕ) (k : Key) (u : BoardTask)
    → IsSound b
    → lookup k (Worker.claim b id agent run now).0.tasks ≡ some u
    → u.status ≡ succeeded
    → WasVetted b k
claim-WasVetted {b} id agent run now k u s h done =
    elim (Bool-cases (Worker.claim b id agent run now).1.success) [
      | inl won ↦
          let (t, e, saved) = claim-success_inv id agent run now s won in
          saved-WasVetted b k t (Worker.grant agent now t) u
            (raw_get-Holds id run s.well_formed e).0 (unfold Worker.grant in refl)
            (unfold Worker.grant in (λ impossible. cc)) (rw saved at h) done
      | inr lost ↦ unmoved b k u (rw (claim-refused_same id agent run now s lost) at h) done
    ]

add-WasVetted :
    (b : Board) (k : Key) (t u : BoardTask)
    → is_succeeded t.status ≡ false
    → lookup k (add t b).tasks ≡ some u
    → u.status ≡ succeeded
    → WasVetted b k
unfolding add
add-WasVetted b k t u fresh h done = elim (Bool-cases (k == key_of t)) [
  | inl here ↦ cc (
      rw (← new_one _ t u (lookup k b.tasks) _ (lookup-insert k (key_of t) t b.tasks) h here, done)
        at fresh)
  | inr other ↦
      unmoved b k u
        (old_one _ t u (lookup k b.tasks) _ (lookup-insert k (key_of t) t b.tasks) h other) done
]

either_vetted :
    (c : Bool) (x t u : BoardTask)
    → (if c then some x else some t) ≡ some u
    → u.status ≡ succeeded
    → (x.status ≡ succeeded → t.status ≡ succeeded)
    → is_vetted t.status ≡ true
either_vetted true x t u p done keep =
    rw (keep (ap (λ (y : BoardTask). y.status) (some-injective x u p) ∙ done))
either_vetted false x t u p done keep =
    rw (ap (λ (y : BoardTask). y.status) (some-injective t u p) ∙ done)

neither : (c : Bool) (u : BoardTask) → (if c then none else none) ≡ some u → ⊥
neither true u p = cc
neither false u p = cc

-- A change of the run's tasks that makes none succeed.
mapped-WasVetted :
    (b : Board) (k : Key) (c : Bool) (g : BoardTask → BoardTask) (u : BoardTask)
    (l : Option BoardTask)
    → ((t : BoardTask) → (g t).status ≡ succeeded → t.status ≡ succeeded)
    → l ≡ (if c then Option.map g (lookup k b.tasks) else lookup k b.tasks)
    → l ≡ some u
    → u.status ≡ succeeded
    → WasVetted b k
mapped-WasVetted b k c g u l keeps e h done = elim (Option-cases (lookup k b.tasks)) [
  | inl absent ↦ absurd (neither c u (rw absent at (sym e ∙ h)))
  | inr (t, held) ↦ (t, held, either_vetted c (g t) t u (rw held at (sym e ∙ h)) done (keeps t))
]

resumed_keeps :
    (now : ℕ) (t : BoardTask) → (resumed now t).status ≡ succeeded → t.status ≡ succeeded
unfolding Runs.resume_task
resumed_keeps now t h = ground arith

cancelled_keeps :
    (reason : String) (now : ℕ) (t : BoardTask)
    → (cancelled_by reason now t).status ≡ succeeded
    → t.status ≡ succeeded
unfolding Control.cancel_task
cancelled_keeps reason now t h = ground arith

purge-WasVetted :
    (b : Board) (run : String) (k : Key) (u : BoardTask)
    → lookup k (Runs.purge_run b run).0.tasks ≡ some u
    → u.status ≡ succeeded
    → WasVetted b k
unfolding Runs.purge_run
purge-WasVetted b run k u h done =
    unmoved b k u (ground (arith, lookup-evict b.tasks (run_keys b run) k)) done

fresh_task :
    (id run title objective : String) (deps caps : List String) (priority max now : ℕ)
    → is_succeeded (new_task id run title objective deps caps priority max now).status ≡ false
unfolding new_task
fresh_task id run title objective deps caps priority max now = refl

-- On a sound board, if a call other than complete, restore_run and an add of a SUCCEEDED task leaves a
-- task SUCCEEDED, the board held that task before the call as PRODUCED, VERIFYING or SUCCEEDED.
pub succeeded_needs_verdict :
    {b : Board} (now : ℕ) (c : Call) (k : Key) (u : BoardTask)
    → IsSound b
    → vouches c ≡ false
    → lookup k (call b now c).tasks ≡ some u
    → u.status ≡ succeeded
    → WasVetted b k
unfolding call Worker.start Worker.release Worker.mark_produced Worker.mark_blocked Failure.fail
    Control.mark_verifying Control.mark_verified Control.mark_repair_required
    Control.supersede_with_repair Control.retry Control.cancel Control.request_replan
succeeded_needs_verdict {b} now (Call.create_task id run title objective deps caps priority max) k u
      s v h d =
    add-WasVetted b k _ u (fresh_task id run title objective deps caps priority max now) h d
succeeded_needs_verdict {b} now (Call.add t) k u s v h d = add-WasVetted b k t u v h d
succeeded_needs_verdict now (Call.claim id agent run) k u s v h d =
    claim-WasVetted id agent run now k u s h d
succeeded_needs_verdict now (Call.start id agent run) k u s v h d =
    transact-WasVetted id run k (Validity.start-Keeps agent now) (λ t t' e q. ground arith) s h d
succeeded_needs_verdict now (Call.release id agent reason run) k u s v h d =
    transact-WasVetted id run k (Validity.release-Keeps agent reason now) (λ t t' e q. ground arith)
      s h d
succeeded_needs_verdict now (Call.complete id agent artifacts run) k u s v h d = cc
succeeded_needs_verdict now (Call.mark_produced id agent artifacts run) k u s v h d =
    transact-WasVetted id run k (Validity.mark_produced-Keeps agent artifacts now)
      (λ t t' e q. ground arith) s h d
succeeded_needs_verdict now (Call.mark_blocked id agent reason run) k u s v h d =
    transact-WasVetted id run k (Validity.mark_blocked-Keeps agent reason now)
      (λ t t' e q. ground arith) s h d
succeeded_needs_verdict now (Call.mark_verifying id run) k u s v h d =
    transact-WasVetted id run k (Validity.mark_verifying-Keeps now) (λ t t' e q. ground arith) s h d
succeeded_needs_verdict now (Call.mark_verified id run) k u s v h d =
    transact-WasVetted id run k (Validity.mark_verified-Keeps now) (λ t t' e q. ground arith) s h d
succeeded_needs_verdict now (Call.mark_repair_required id run) k u s v h d =
    transact-WasVetted id run k (Validity.mark_repair_required-Keeps now) (λ t t' e q. ground arith)
      s h d
succeeded_needs_verdict now (Call.supersede_with_repair id repair run) k u s v h d =
    transact-WasVetted id (some run) k (Validity.supersede-Keeps repair now)
      (λ t t' e q. ground arith) s h d
succeeded_needs_verdict now (Call.fail id agent error run retryable delay category) k u s v h d =
    transact-WasVetted id run k (Validity.fail-Keeps agent error retryable delay category now)
      (λ t t' e q. ground arith) s h d
succeeded_needs_verdict now (Call.retry id run reason reset) k u s v h d =
    transact-WasVetted id (some run) k (Validity.retry-Keeps reason reset now)
      (λ t t' e q. ground arith) s h d
succeeded_needs_verdict now (Call.cancel id reason run) k u s v h d =
    transact-WasVetted id run k (Validity.cancel-Keeps reason now) (λ t t' e q. ground arith) s h d
succeeded_needs_verdict now (Call.request_replan id reason by run) k u s v h d =
    transact-WasVetted id run k (Validity.request_replan-Keeps reason by now)
      (λ t t' e q. ground arith) s h d
succeeded_needs_verdict {b} now (Call.cancel_run run reason) k u s v h d =
    mapped-WasVetted b k (k.0 == run) (cancelled_by reason now) u _ (cancelled_keeps reason now)
      (lookup-cancel_run run reason now k s) h d
succeeded_needs_verdict {b} now (Call.purge_run run) k u s v h d = purge-WasVetted b run k u h d
succeeded_needs_verdict now (Call.restore_run run) k u s v h d = cc
succeeded_needs_verdict {b} now (Call.prepare_for_resume run) k u s v h d =
    mapped-WasVetted b k (k.0 == run) (resumed now) u _ (resumed_keeps now)
      (lookup-prepare_for_resume run now k s) h d

revived :
    (agent reason error category : String) (delay now later : ℕ) (t : BoardTask)
    → t.claimed_by ≡ some agent
    → is_terminal t.status ≡ false
    → t.attempts + 1 < t.max_attempts
    → (applied
        (Failure.fail_task agent error true delay category later)
        (applied (Control.cancel_task reason now) t)).status
      ≡ pending
unfolding Control.cancel_task Failure.fail_task
revived agent reason error category delay now later t owner live spare = ground arith

-- On a sound board, if a task that is not terminal, is held by a claimant and has an attempt
-- to spare is cancelled, and the claimant then reports a retryable failure, the task is
-- PENDING again.
pub fail_after_cancel :
    {b : Board} (id run agent reason error category : String) (delay now later : ℕ) {t : BoardTask}
    → IsSound b
    → lookup (run, id) b.tasks ≡ some t
    → t.claimed_by ≡ some agent
    → is_terminal t.status ≡ false
    → t.attempts + 1 < t.max_attempts
    → let cancelled = (Control.cancel b id reason (some run) now).0 in
      let after = (Failure.fail cancelled id agent error (some run) true delay category later).0 in
      (u : BoardTask) × (lookup (run, id) after.tasks ≡ some u) × (u.status ≡ pending)
unfolding Control.cancel Failure.fail
fail_after_cancel {b} id run agent reason error category delay now later {t} s e owner live spare =
    let stopped = cancel-Keeps reason now in
    let failing = fail-Keeps agent error true delay category later in
    (
      applied (Failure.fail_task agent error true delay category later)
          (applied (Control.cancel_task reason now) t),
      lookup-transact_self id run failing (transact-IsSound id (some run) stopped s).well_formed
          (lookup-transact_self id run stopped s.well_formed e),
      revived agent reason error category delay now later t owner live spare,
    )
