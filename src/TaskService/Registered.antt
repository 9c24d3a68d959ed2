-- ===== src/TaskService/Registered.antt =====
-- app/multiagent/transactional_task_service.py: registering and replacing a plan puts its nodes on
-- the board's table.
use mega_deepagents.Base.{
  ℕ, max, ◌+◌, String, Bool, true, some, List, [], ◌∷◌, ◌++◌, ◌≡◌, refl, sym, subst, arith,
  string_eq, pair_eq, Bool-cases, inl, inr, All, map,
}
use mega_deepagents.Base.Dict.{Dict, lookup, has_key, lookup-nil, values}
use mega_deepagents.TaskBoard.Task.{BoardTask}
use mega_deepagents.TaskGraph.Node.{TaskNode}
use mega_deepagents.TaskGraph.Graph.{TaskGraph}
use mega_deepagents.TaskGraph.Order.{IsKeyed}
use mega_deepagents.TaskService.Store.{ServiceState, TaskGraphVersion, ServiceResult, no_service}
use mega_deepagents.TaskService.Mutate.{task_of_node}
use mega_deepagents.TaskService.Apply.{update_rows}
use mega_deepagents.TaskService.Register.{
  written_initial, revised_state, register_initial_graph, register_again, register_first,
  write_initial, is_untouched, replace_plan, replace_with, write_late, already_registered, renamed,
  occupied_ids, reload, supersede_by_plan,
}
use mega_deepagents.TaskService.Signature.{same_plan}
use mega_deepagents.TaskService.Calls.{
  ServiceCall, TimedCall, state_after, service_call, service_calls,
}
use mega_deepagents.TaskService.Outcomes.{Ensures, returns, raises, then-Ensures, ensured}
use mega_deepagents.TaskService.Plans.{
  IsPlanned, IsKeyedCall, revised_graph-IsKeyed, service_call-IsPlanned,
}
use mega_deepagents.TaskService.OnBoard.{
  IsCovered, stored-IsCovered, commit_mutation-IsCovered, apply-IsCovered,
}
use mega_deepagents.TaskService.Rows.{
  update_rows-Within, add_all-Within, insert_rows-Within, restore_run-rows, insert_rows-Cover,
  insert_fresh-Cover,
}

abbrev Covered : ServiceResult (ServiceState × TaskGraphVersion) → Type 0
Covered = Ensures (λ r. IsCovered r.0)

-- Reading the run's rows again changes no row.
reload-IsCovered : (run_id : String) (s : ServiceState) → IsCovered s → IsCovered (reload run_id s)
reload-IsCovered run_id s c run g h id held =
    subst (λ (d : Dict _ BoardTask). has_key (run, id) d ≡ true)
      (sym (restore_run-rows s.board run_id)) (c run g h id held)

write_initial-IsCovered :
    (s : ServiceState) (run_id : String) (g : TaskGraph) (actor : String) (now : ℕ)
    → IsKeyed g
    → IsCovered s
    → IsCovered (write_initial s run_id g actor now)
unfolding write_initial
write_initial-IsCovered s run_id g actor now k c =
    elim (Bool-cases (is_untouched s.mutations run_id)) [
      | inl new ↦ rw new (
          stored-IsCovered s (written_initial s run_id g actor tasks) run_id g c refl
            (insert_rows-Within tasks s.board.rows)
            (insert_rows-Cover run_id now g.nodes s.board.rows k.keyed))
      | inr old ↦ rw old c
    ]
  where
    tasks : List BoardTask
    tasks = map (task_of_node run_id now) (values g.nodes)

replace_with-IsCovered :
    (allows : TaskNode → Bool) (s : ServiceState) (run_id : String) (incoming : TaskGraph)
    (actor : String) (now : ℕ) (old_tasks : List BoardTask) (version : ℕ)
    → IsCovered s
    → Covered (replace_with allows s run_id incoming actor now old_tasks version)
unfolding replace_with
replace_with-IsCovered allows s run_id incoming actor now old_tasks version c =
    then-Ensures _ _ (λ g made. then-Ensures _ _ (λ _ _. then-Ensures _ _ (λ rows filled.
      then-Ensures _ _ (λ _ _.
        let revision = max (version + 1) incoming.version in
        let keyed =
          ensured g
            (revised_graph-IsKeyed allows (renamed (occupied_ids old_tasks) revision) revision
              incoming now)
            made in
        let superseded = map (supersede_by_plan g.version now) old_tasks in
        let both =
          ensured rows
            (insert_fresh-Cover run_id now g.nodes (update_rows superseded s.board.rows)
              keyed.keyed)
            filled in
        let all = superseded ++ map (task_of_node run_id now) (values g.nodes) in
        let board = record (s.board) { rows = rows } in
        returns (
          stored-IsCovered s (revised_state s run_id actor g all rows) run_id g c refl
            (λ j h.
              add_all-Within all board j
                (both.0 j (update_rows-Within superseded s.board.rows j h)))
            (λ id h. add_all-Within all board (run_id, id) (both.1 id h)))))))

replace_plan-IsCovered :
    (allows : TaskNode → Bool) (s : ServiceState) (run_id : String) (incoming : TaskGraph)
    (actor : String) (now : ℕ)
    → IsCovered s
    → Covered (replace_plan allows s run_id incoming actor now)
unfolding replace_plan
replace_plan-IsCovered allows s run_id incoming actor now c = then-Ensures _ _ (λ _ _.
    then-Ensures _ _
      (λ current _. replace_with-IsCovered allows s run_id incoming actor now _ current.version c))

write_late-IsCovered :
    (allows : TaskNode → Bool) (s : ServiceState) (run_id : String) (g : TaskGraph) (actor : String)
    (now : ℕ)
    → IsKeyed g
    → IsCovered s
    → Covered (write_late allows s run_id g actor now)
unfolding write_late
write_late-IsCovered allows s run_id g actor now k c =
    then-Ensures _ _
      (λ _ _. then-Ensures _ _ (λ _ _. returns (write_initial-IsCovered s run_id g actor now k c)))

register-IsCovered :
    (allows : TaskNode → Bool) (s : ServiceState) (run_id : String) (g : TaskGraph) (actor : String)
    (now : ℕ)
    → IsKeyed g
    → IsCovered s
    → Covered (register_initial_graph allows s run_id g actor now)
unfolding register_initial_graph register_again register_first
register-IsCovered allows s run_id g actor now k c = then-Ensures _ _ (λ _ _.
    elim (Bool-cases (already_registered s.mutations run_id)) [
      | inl old ↦ rw old (
          then-Ensures _ _ (λ current _. elim (Bool-cases (same_plan current g)) [
            | inl same ↦ rw same (returns (reload-IsCovered run_id s c))
            | inr other ↦ rw other (replace_plan-IsCovered allows s run_id g actor now c)
          ]))
      | inr new ↦ rw new (
          then-Ensures _ _ (λ _ _. returns (
            reload-IsCovered run_id (write_initial s run_id g actor now)
              (write_initial-IsCovered s run_id g actor now k c))))
    ])

state_after-IsCovered :
    (s : ServiceState) (o : ServiceResult (ServiceState × TaskGraphVersion))
    → IsCovered s
    → Covered o
    → IsCovered (state_after s o)
state_after-IsCovered s o c (returns q) = q
state_after-IsCovered s o c raises = c

service_call-IsCovered :
    (s : ServiceState) (now : ℕ) (allows : TaskNode → Bool) (c : ServiceCall)
    → IsKeyedCall c
    → IsPlanned s
    → IsCovered s
    → IsCovered (service_call s now allows c)
unfolding service_call
service_call-IsCovered s now allows (ServiceCall.register run_id g actor) k p c =
    state_after-IsCovered s _ c (register-IsCovered allows s run_id g actor now k c)
service_call-IsCovered s now allows (ServiceCall.mutate m) k p c =
    apply-IsCovered allows s m now p c
service_call-IsCovered s now allows (ServiceCall.mutate_late m) k p c =
    commit_mutation-IsCovered allows s m now p c
service_call-IsCovered s now allows (ServiceCall.register_late run_id g actor) k p c =
    state_after-IsCovered s _ c (write_late-IsCovered allows s run_id g actor now k c)
service_call-IsCovered s now allows (ServiceCall.reload_late run_id) k p c =
    reload-IsCovered run_id s c
service_call-IsCovered s now allows (ServiceCall.replace_late run_id g actor old version) k p c =
    state_after-IsCovered s _ c (replace_with-IsCovered allows s run_id g actor now old version c)

service_calls-IsCovered :
    (s : ServiceState) (cs : List TimedCall)
    → All (λ c. IsKeyedCall c.2) cs
    → IsPlanned s
    → IsCovered s
    → IsCovered (service_calls s cs)
unfolding service_calls
service_calls-IsCovered s [] k p c = c
service_calls-IsCovered s ((now, allows, call) ∷ cs) k p c =
    service_calls-IsCovered (service_call s now allows call) cs k.1
      (service_call-IsPlanned s now allows call k.0 p)
      (service_call-IsCovered s now allows call k.0 p c)

-- After any history of registrations and mutations on an empty store, those whose
-- reads were made on an earlier state than their transaction included, and whatever the hooks answer, every node of a stored graph has a row of
-- its run in the table of the board's tasks, if each registered graph has its nodes under their
-- ids, each once.
pub stored-on-board :
    (persist : Bool) (cs : List TimedCall) (run_id : String) (g : TaskGraph) (id : String)
    → All (λ c. IsKeyedCall c.2) cs
    → lookup run_id (service_calls (no_service persist) cs).snapshots ≡ some g
    → has_key id g.nodes ≡ true
    → has_key (run_id, id) (service_calls (no_service persist) cs).board.rows ≡ true
stored-on-board persist cs run_id g id k h held =
    service_calls-IsCovered (no_service persist) cs k tt
      (λ run g' e. ground (arith, lookup-nil {V = TaskGraph} run)) run_id g h id held
