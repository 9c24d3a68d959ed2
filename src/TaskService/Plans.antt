-- ===== src/TaskService/Plans.antt =====
-- app/multiagent/transactional_task_service.py: every graph that the service stores is a plan.
use mega_deepagents.Base.{
  ℕ, max, ◌+◌, String, Bool, some, List, [], ◌∷◌, ◌≡◌, refl, arith, string_eq, ◌⊎◌, sym, subst,
  Bool-cases, inl, inr, All,
}
use mega_deepagents.Base.Dict.{
  Dict, lookup, insert, AllEntries, AllEntries-insert, AllEntries-lookup, NodupKeys,
  insert-NodupKeys,
}
use mega_deepagents.TaskBoard.Task.{BoardTask}
use mega_deepagents.TaskGraph.Node.{TaskNode}
use mega_deepagents.TaskGraph.Graph.{TaskGraph}
use mega_deepagents.TaskGraph.Search.{validate}
use mega_deepagents.TaskGraph.Order.{IsKeyed}
use mega_deepagents.TaskGraph.Ranks.{IsPlan}
use mega_deepagents.TaskService.Store.{
  TaskGraphMutation, TaskGraphVersion, ServiceState, ServiceResult, found, of_result, no_graph,
  no_service,
}
use mega_deepagents.TaskService.Mutate.{Effects}
use mega_deepagents.TaskService.Apply.{apply, commit_mutation, prepare, finish, write, publish}
use mega_deepagents.TaskService.Register.{
  register_initial_graph, register_again, register_first, write_initial, is_untouched, replace_plan,
  replace_with, write_late, revised_graph, revise_each, by_id, already_registered, renamed,
  occupied_ids,
}
use mega_deepagents.TaskService.Signature.{same_plan}
use mega_deepagents.TaskService.Calls.{
  ServiceCall, TimedCall, state_after, service_call, service_calls,
}
use mega_deepagents.TaskService.Outcomes.{
  Ensures, returns, raises, then-Ensures, ensured, found-eq-success, of_result-eq-success,
  validate-IsPlan,
}
use mega_deepagents.TaskService.PlanSteps.{apply_mutation-IsPlan}

abbrev pub IsPlanned : ServiceState → Type 0
IsPlanned s = AllEntries (λ run_id g. IsPlan g) s.snapshots

prepare-IsPlan :
    (allows : TaskNode → Bool) (s : ServiceState) (m : TaskGraphMutation) (now : ℕ)
    → IsPlanned s
    → Ensures (λ e. IsPlan e.graph) (prepare allows s m now)
unfolding prepare
prepare-IsPlan allows s m now p =
    then-Ensures (found (lookup m.run_id s.snapshots) (no_graph m.run_id)) _ (λ g there.
      then-Ensures _ _ (λ _ _. then-Ensures _ _ (λ e made. then-Ensures _ _ (λ _ _. returns (
        ensured e
          (apply_mutation-IsPlan allows s.board m.run_id g m.payload now
            (AllEntries-lookup _ m.run_id s.snapshots p (found-eq-success _ _ there)))
          made)))))

finish-IsPlanned :
    (s : ServiceState) (m : TaskGraphMutation) (o : ServiceResult Effects)
    → IsPlanned s
    → Ensures (λ e. IsPlan e.graph) o
    → IsPlanned (finish s m o).0
unfolding write publish
finish-IsPlanned s m o p (returns {a = e} plan) =
    AllEntries-insert _ m.run_id e.graph s.snapshots p plan
finish-IsPlanned s m o p raises = p

commit_mutation-IsPlanned :
    (allows : TaskNode → Bool) (s : ServiceState) (m : TaskGraphMutation) (now : ℕ)
    → IsPlanned s
    → IsPlanned (commit_mutation allows s m now).0
unfolding commit_mutation
commit_mutation-IsPlanned allows s m now p =
    finish-IsPlanned s m _ p (prepare-IsPlan allows s m now p)

-- `apply` leaves the state, or what its transaction makes of it.
pub apply-cases :
    (allows : TaskNode → Bool) (s : ServiceState) (m : TaskGraphMutation) (now : ℕ)
    → ((apply allows s m now).0 ≡ s)
      ⊎ ((apply allows s m now).0 ≡ (commit_mutation allows s m now).0)
unfolding apply
apply-cases allows s m now = ground arith

apply-IsPlanned :
    (allows : TaskNode → Bool) (s : ServiceState) (m : TaskGraphMutation) (now : ℕ)
    → IsPlanned s
    → IsPlanned (apply allows s m now).0
apply-IsPlanned allows s m now p = elim (apply-cases allows s m now) [
  | inl e ↦ subst IsPlanned (sym e) p
  | inr e ↦ subst IsPlanned (sym e) (commit_mutation-IsPlanned allows s m now p)
]

pub by_id-IsKeyed :
    (ns : List TaskNode) (made : Dict String TaskNode)
    → AllEntries (λ k n. k ≡ n.id) made
    → NodupKeys made
    → AllEntries (λ k n. k ≡ n.id) (by_id ns made) × NodupKeys (by_id ns made)
unfolding by_id
by_id-IsKeyed [] made k u = (k, u)
by_id-IsKeyed (n ∷ ns) made k u =
    by_id-IsKeyed ns (insert n.id n made) (AllEntries-insert _ n.id n made k refl)
      (insert-NodupKeys n.id n made u)

pub revised_graph-IsKeyed :
    (allows : TaskNode → Bool) (rename : String → String) (revision : ℕ) (incoming : TaskGraph)
    (now : ℕ)
    → Ensures IsKeyed (revised_graph allows rename revision incoming now)
unfolding revised_graph
revised_graph-IsKeyed allows rename revision incoming now = then-Ensures _ _ (λ _ _.
    then-Ensures _ _ (λ _ _.
      let both = by_id-IsKeyed (revise_each rename incoming.nodes) [] tt tt in
      returns (record { keyed = both.0; nodup = both.1 })))

abbrev Planned : ServiceResult (ServiceState × TaskGraphVersion) → Type 0
Planned = Ensures (λ r. IsPlanned r.0)

replace_with-IsPlanned :
    (allows : TaskNode → Bool) (s : ServiceState) (run_id : String) (incoming : TaskGraph)
    (actor : String) (now : ℕ) (old_tasks : List BoardTask) (version : ℕ)
    → IsPlanned s
    → Planned (replace_with allows s run_id incoming actor now old_tasks version)
unfolding replace_with
replace_with-IsPlanned allows s run_id incoming actor now old_tasks version p =
    then-Ensures _ _ (λ g made. then-Ensures (of_result (validate g)) _ (λ _ valid.
      then-Ensures _ _ (λ rows _. then-Ensures _ _ (λ _ _.
        let revision = max (version + 1) incoming.version in
        let keyed =
          ensured g
            (revised_graph-IsKeyed allows (renamed (occupied_ids old_tasks) revision) revision
              incoming now)
            made in
        returns (
          AllEntries-insert _ run_id g s.snapshots p
            (validate-IsPlan g keyed (of_result-eq-success _ valid)))))))

replace_plan-IsPlanned :
    (allows : TaskNode → Bool) (s : ServiceState) (run_id : String) (incoming : TaskGraph)
    (actor : String) (now : ℕ)
    → IsPlanned s
    → Planned (replace_plan allows s run_id incoming actor now)
unfolding replace_plan
replace_plan-IsPlanned allows s run_id incoming actor now p = then-Ensures _ _ (λ _ _.
    then-Ensures _ _
      (λ current _. replace_with-IsPlanned allows s run_id incoming actor now _ current.version p))

register_again-IsPlanned :
    (allows : TaskNode → Bool) (s : ServiceState) (run_id : String) (g : TaskGraph) (actor : String)
    (now : ℕ)
    → IsPlanned s
    → Planned (register_again allows s run_id g actor now)
unfolding register_again
register_again-IsPlanned allows s run_id g actor now p = then-Ensures _ _ (λ current _.
    elim (Bool-cases (same_plan current g)) [
      | inl same ↦ rw same (returns p)
      | inr other ↦ rw other (replace_plan-IsPlanned allows s run_id g actor now p)
    ])

write_initial-IsPlanned :
    (s : ServiceState) (run_id : String) (g : TaskGraph) (actor : String) (now : ℕ)
    → IsPlan g
    → IsPlanned s
    → IsPlanned (write_initial s run_id g actor now)
unfolding write_initial
write_initial-IsPlanned s run_id g actor now plan p =
    elim (Bool-cases (is_untouched s.mutations run_id)) [
      | inl new ↦ rw new (AllEntries-insert _ run_id g s.snapshots p plan)
      | inr old ↦ rw old p
    ]

register_first-IsPlanned :
    (allows : TaskNode → Bool) (s : ServiceState) (run_id : String) (g : TaskGraph) (actor : String)
    (now : ℕ)
    → IsPlan g
    → IsPlanned s
    → Planned (register_first allows s run_id g actor now)
unfolding register_first
register_first-IsPlanned allows s run_id g actor now plan p =
    then-Ensures _ _ (λ _ _. returns (write_initial-IsPlanned s run_id g actor now plan p))

write_late-IsPlanned :
    (allows : TaskNode → Bool) (s : ServiceState) (run_id : String) (g : TaskGraph) (actor : String)
    (now : ℕ)
    → IsKeyed g
    → IsPlanned s
    → Planned (write_late allows s run_id g actor now)
unfolding write_late
write_late-IsPlanned allows s run_id g actor now k p =
    then-Ensures (of_result (validate g)) _ (λ _ valid. then-Ensures _ _ (λ _ _. returns (
      write_initial-IsPlanned s run_id g actor now
        (validate-IsPlan g k (of_result-eq-success _ valid)) p)))

register-IsPlanned :
    (allows : TaskNode → Bool) (s : ServiceState) (run_id : String) (g : TaskGraph) (actor : String)
    (now : ℕ)
    → IsKeyed g
    → IsPlanned s
    → Planned (register_initial_graph allows s run_id g actor now)
unfolding register_initial_graph
register-IsPlanned allows s run_id g actor now k p =
    then-Ensures (of_result (validate g)) _ (λ _ valid.
      elim (Bool-cases (already_registered s.mutations run_id)) [
        | inl old ↦ rw old (register_again-IsPlanned allows s run_id g actor now p)
        | inr new ↦ rw new (
            register_first-IsPlanned allows s run_id g actor now
              (validate-IsPlan g k (of_result-eq-success _ valid)) p)
      ])

-- A planner hands over a graph whose nodes stand under their ids.
abbrev pub IsKeyedCall : ServiceCall → Type 0
IsKeyedCall (ServiceCall.register run_id g actor) = IsKeyed g
IsKeyedCall (ServiceCall.mutate m) = Unit
IsKeyedCall (ServiceCall.mutate_late m) = Unit
IsKeyedCall (ServiceCall.register_late run_id g actor) = IsKeyed g
IsKeyedCall (ServiceCall.reload_late run_id) = Unit
IsKeyedCall (ServiceCall.replace_late run_id g actor old_tasks version) = Unit

state_after-IsPlanned :
    (s : ServiceState) (o : ServiceResult (ServiceState × TaskGraphVersion))
    → IsPlanned s
    → Planned o
    → IsPlanned (state_after s o)
state_after-IsPlanned s o p (returns q) = q
state_after-IsPlanned s o p raises = p

pub service_call-IsPlanned :
    (s : ServiceState) (now : ℕ) (allows : TaskNode → Bool) (c : ServiceCall)
    → IsKeyedCall c
    → IsPlanned s
    → IsPlanned (service_call s now allows c)
unfolding service_call
service_call-IsPlanned s now allows (ServiceCall.register run_id g actor) k p =
    state_after-IsPlanned s _ p (register-IsPlanned allows s run_id g actor now k p)
service_call-IsPlanned s now allows (ServiceCall.mutate m) k p = apply-IsPlanned allows s m now p
service_call-IsPlanned s now allows (ServiceCall.mutate_late m) k p =
    commit_mutation-IsPlanned allows s m now p
service_call-IsPlanned s now allows (ServiceCall.register_late run_id g actor) k p =
    state_after-IsPlanned s _ p (write_late-IsPlanned allows s run_id g actor now k p)
service_call-IsPlanned s now allows (ServiceCall.reload_late run_id) k p = p
service_call-IsPlanned s now allows (ServiceCall.replace_late run_id g actor old version) k p =
    state_after-IsPlanned s _ p (replace_with-IsPlanned allows s run_id g actor now old version p)

service_calls-IsPlanned :
    (s : ServiceState) (cs : List TimedCall)
    → All (λ c. IsKeyedCall c.2) cs
    → IsPlanned s
    → IsPlanned (service_calls s cs)
unfolding service_calls
service_calls-IsPlanned s [] k p = p
service_calls-IsPlanned s ((now, allows, c) ∷ cs) k p =
    service_calls-IsPlanned (service_call s now allows c) cs k.1
      (service_call-IsPlanned s now allows c k.0 p)

-- After any history of registrations and mutations on an empty store, those whose
-- reads were made on an earlier state than their transaction included, and whatever the hooks answer, every stored graph is a plan, if each
-- registered graph has its nodes under their ids, each once: so has the stored one, its
-- dependencies exist, and has_cycle answers False.
pub stored-IsPlan :
    (persist : Bool) (cs : List TimedCall) (run_id : String) (g : TaskGraph)
    → All (λ c. IsKeyedCall c.2) cs
    → lookup run_id (service_calls (no_service persist) cs).snapshots ≡ some g
    → IsPlan g
stored-IsPlan persist cs run_id g k h =
    AllEntries-lookup (λ r g. IsPlan g) run_id (service_calls (no_service persist) cs).snapshots
      (service_calls-IsPlanned (no_service persist) cs k tt) h
