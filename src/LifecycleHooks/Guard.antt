-- ===== src/LifecycleHooks/Guard.antt =====
-- app/multiagent/lifecycle_hooks.py and app/multiagent/transactional_task_service.py: the hooks on
-- TaskCreated stand between a caller and the plan.
use mega_deepagents.Base.{
  ℕ, String, Bool, true, false, not, ◌&&◌, none, [], ◌≡◌, refl, sym, ap, ◌∙◌, any, inl, inr,
}
use mega_deepagents.TaskGraph.Node.{TaskNode}
use mega_deepagents.TaskGraph.Graph.{TaskGraph}
use mega_deepagents.TaskService.Store.{Payload, TaskGraphMutation, ServiceState, ServiceResult}
use mega_deepagents.TaskService.Mutate.{Effects, create_task_effects, apply_mutation}
use mega_deepagents.TaskService.Apply.{apply, commit_mutation, prepare, finish}
use mega_deepagents.TaskService.Outcomes.{
  Ensures, returns, raises, then-Ensures, ensured, require-eq-success,
}
use mega_deepagents.TaskService.Plans.{apply-cases}
use mega_deepagents.LifecycleHooks.Engine.{LifecycleEvent, HookEngine}
use mega_deepagents.LifecycleHooks.Emission.{Answers, emit, is_for}
use mega_deepagents.LifecycleHooks.Asking.{refuses, hook_refuses, emit-refuses}

-- `if hook.block or not hook.allow: raise`, where the answers may depend on the task.
unfoldable pub allowed_by : HookEngine → (TaskNode → Answers) → TaskNode → Bool
unfolding emit
allowed_by engine answers n =
    not (refuses (emit engine [] LifecycleEvent.task_created none (answers n)).0)

abbrev pub creating : TaskGraphMutation → TaskNode → TaskGraphMutation
creating m n = record m { payload = Payload.create_task n }

create_task-refused :
    (allows : TaskNode → Bool) (run_id : String) (g : TaskGraph) (n : TaskNode) (now : ℕ)
    → allows n ≡ false
    → Ensures (λ e. ⊥) (create_task_effects allows run_id g n now)
unfolding create_task_effects
create_task-refused allows run_id g n now refused = then-Ensures _ _ (λ _ _.
    then-Ensures _ _ (λ _ passed. absurd (refute (sym (require-eq-success _ _ passed) ∙ refused))))
  where
    refute : true ≡ false → ⊥
    refute h = cc h

finish-refused :
    (s : ServiceState) (m : TaskGraphMutation) (o : ServiceResult Effects)
    → Ensures (λ e. ⊥) o
    → (finish s m o).0 ≡ s
finish-refused s m o (returns p) = absurd p
finish-refused s m o raises = refl

-- If a hook that is registered for TaskCreated blocks the task or does not allow it, or fails under
-- the policy to block, no CREATE_TASK mutation creates the task: apply leaves the graphs, the log
-- and the board as they are.
pub refused-not_created :
    (engine : HookEngine) (answers : TaskNode → Answers) (s : ServiceState) (m : TaskGraphMutation)
    (n : TaskNode) (now : ℕ)
    → any (λ h. is_for LifecycleEvent.task_created h && hook_refuses (answers n) h) engine ≡ true
    → (apply (allowed_by engine answers) s (creating m n) now).0 ≡ s
unfolding allowed_by commit_mutation prepare apply_mutation
refused-not_created engine answers s m n now stops =
    let refused : allowed_by engine answers n ≡ false =
      ap not (emit-refuses engine [] LifecycleEvent.task_created none (answers n) ∙ stops) in
    elim (apply-cases (allowed_by engine answers) s (creating m n) now) [
      | inl same ↦ same
      | inr e ↦
          e
          ∙ finish-refused s (creating m n) _ (
              then-Ensures _ _ (λ g _. then-Ensures _ _ (λ _ _. then-Ensures _ _ (λ e made. absurd (
                ensured e (create_task-refused (allowed_by engine answers) m.run_id g n now refused)
                  made)))))
    ]
