-- ===== src/LifecycleHooks/Samples.antt =====
-- app/multiagent/lifecycle_hooks.py: three hooks, one of which refuses.
use mathlib.Core.List.{Perm}
use mega_deepagents.Base.{
  ℕ, String, Bool, true, false, ◌&&◌, Option, none, some, List, [], ◌∷◌, ◌++◌, ◌≡◌, ◌⊎◌, refl, any,
  keep, ◌==◌, string_eq, if◌then◌else◌,
}
use mega_deepagents.TaskService.Apply.{apply}
use mega_deepagents.TaskService.Samples.{step, adding, registered}
use mega_deepagents.LifecycleHooks.Engine.{
  LifecycleEvent, event_eq, default_result, HookScope, FailurePolicy, ℤ, Hook, HookEngine,
  Registration, register,
}
use mega_deepagents.LifecycleHooks.Emission.{Answer, Answers, emit, is_for, hooks_for, HistoryEvent}
use mega_deepagents.LifecycleHooks.Sorting.{AreInOrder}
use mega_deepagents.LifecycleHooks.Asking
use mega_deepagents.LifecycleHooks.Asking.{hook_refuses, hook_rows, BlocksAtLast}
use mega_deepagents.LifecycleHooks.Guard
use mega_deepagents.LifecycleHooks.Guard.{allowed_by, creating}

abbrev hook : String → LifecycleEvent → HookScope → ℤ → Hook
hook id event scope priority = record {
  hook_id = id;
  event = event;
  scope = scope;
  priority = priority;
  timeout = 5000;
  failure_policy = FailurePolicy.on_failure_block;
}

abbrev linter : Hook
linter = hook "linter" LifecycleEvent.task_created HookScope.project (ℤ.pos 3)

abbrev quota : Hook
quota = hook "quota" LifecycleEvent.task_created HookScope.system (ℤ.negsuc 0)

abbrev engine : HookEngine
engine = linter ∷ hook "log" LifecycleEvent.run_started HookScope.user (ℤ.pos 0) ∷ quota ∷ []

-- The quota's handler raises; the others allow.
abbrev answers : Answers
answers h =
    if h.hook_id == "quota" then Answer.fails "no quota left" else Answer.gives default_result

-- The scope of the system is asked first.
asked_first : hooks_for LifecycleEvent.task_created engine ≡ quota ∷ linter ∷ []
unfolding hooks_for event_eq
asked_first = refl

bad_registration :
    register engine "h" LifecycleEvent.run_failed "team" (ℤ.pos 0) 5000 "block"
    ≡ Registration.bad_scope
unfolding register mega_deepagents.Base.Equality.string_eq
bad_registration = refl

emit-refuses_example :
    Asking.refuses (emit engine [] LifecycleEvent.task_created (some "r") answers).0
    ≡ any (λ h. is_for LifecycleEvent.task_created h && hook_refuses answers h) engine
emit-refuses_example = Asking.emit-refuses engine [] LifecycleEvent.task_created (some "r") answers

named_run : ◌==◌ {A = String} "r" "" ≡ false
unfolding mega_deepagents.Base.Equality.string_eq
named_run = refl

emit-asks_example :
    (asked : List Hook) × (unasked : List Hook) × ((emit engine [] LifecycleEvent.task_created
        (some "r")
        answers).1
      ≡ []
        ++ HistoryEvent.lifecycle "r" LifecycleEvent.task_created
          ∷ hook_rows "r" LifecycleEvent.task_created answers asked)
    × Perm (asked ++ unasked) (keep (is_for LifecycleEvent.task_created) engine)
    × AreInOrder (asked ++ unasked)
    × BlocksAtLast answers asked
    × ((unasked ≡ [])
        ⊎ ((emit engine [] LifecycleEvent.task_created (some "r") answers).0.block ≡ true))
emit-asks_example = Asking.emit-asks engine [] LifecycleEvent.task_created "r" answers named_run

quota_stops :
    any (λ h. is_for LifecycleEvent.task_created h && hook_refuses answers h) engine ≡ true
unfolding event_eq mega_deepagents.Base.Equality.string_eq
quota_stops = refl

refused-not_created_example :
    (apply (allowed_by engine (λ n. answers)) registered (creating adding (step "c" [])) 2).0
    ≡ registered
refused-not_created_example =
    Guard.refused-not_created engine (λ n. answers) registered adding (step "c" []) 2 quota_stops
