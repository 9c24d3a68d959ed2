-- ===== src/TaskService/Later.antt =====
-- app/multiagent/transactional_task_service.py: the log of mutations and the runs with a graph only grow.
use mega_deepagents.Base.{
  ℕ, String, Bool, true, false, not, some, List, [], ◌∷◌, ◌≡◌, refl, sym, subst, arith, string_eq,
  Bool-cases, inl, inr, if◌then◌else◌, eq→path,
}
use mega_deepagents.Base.Dict.{Dict, lookup, has_key, insert, lookup-insert}
use mega_deepagents.TaskBoard.Task.{BoardTask}
use mega_deepagents.TaskGraph.Node.{TaskNode}
use mega_deepagents.TaskGraph.Graph.{TaskGraph}
use mega_deepagents.TaskService.Store.{
  TaskGraphMutation, TaskGraphVersion, LoggedMutation, ServiceState, ServiceResult, success,
}
use mega_deepagents.TaskService.Mutate.{Effects}
use mega_deepagents.TaskService.Apply.{apply, commit_mutation, prepare, finish, write, publish}
use mega_deepagents.TaskService.Register.{
  register_initial_graph, register_again, register_first, write_initial, is_untouched, replace_plan,
  replace_with, write_late, already_registered, log_initial, reload,
}
use mega_deepagents.TaskService.Signature.{same_plan}
use mega_deepagents.TaskService.Calls.{
  ServiceCall, TimedCall, state_after, service_call, service_calls,
}
use mega_deepagents.TaskService.Outcomes.{
  Ensures, returns, raises, then-Ensures, require-eq-success,
}
use mega_deepagents.TaskService.Plans.{apply-cases}

abbrev Log : Type 0
Log = Dict String LoggedMutation

-- The log keeps its entries, and a run that has a graph keeps one.
pub record IsLater (s s' : ServiceState) : Type 0 where
  pub logged :
      (id : String) (l : LoggedMutation)
      → lookup id s.mutations ≡ some l
      → lookup id s'.mutations ≡ some l
  pub stored :
      (run_id : String) → has_key run_id s.snapshots ≡ true → has_key run_id s'.snapshots ≡ true

pub IsLater-refl : (s : ServiceState) → IsLater s s
IsLater-refl s = record { logged = λ id l h. h; stored = λ r h. h }

insert_absent :
    (k id : String) (new l : LoggedMutation) (d : Log)
    → has_key k d ≡ false
    → lookup id d ≡ some l
    → lookup id (insert k new d) ≡ some l
insert_absent k id new l d absent h = ground (arith, lookup-insert id k new d, eq→path id k)

pub lookup-insert_same {ℓ} :
    {V : Type ℓ} (k : String) (x : V) (d : Dict String V) → lookup k (insert k x d) ≡ some x
lookup-insert_same k x d = ground (arith, lookup-insert k k x d)

insert_graph :
    (k run : String) (g : TaskGraph) (d : Dict String TaskGraph)
    → has_key run d ≡ true
    → has_key run (insert k g d) ≡ true
insert_graph k run g d h = ground (arith, lookup-insert run k g d)

not-true : (b : Bool) → not b ≡ true → b ≡ false
not-true true h = cc
not-true false h = refl

prepare-absent :
    (allows : TaskNode → Bool) (s : ServiceState) (m : TaskGraphMutation) (now : ℕ)
    → Ensures (λ e. has_key m.mutation_id s.mutations ≡ false) (prepare allows s m now)
unfolding prepare
prepare-absent allows s m now = then-Ensures _ _ (λ g _. then-Ensures _ _ (λ _ _.
    then-Ensures _ _
      (λ e _. then-Ensures _ _ (λ u passed. returns (not-true _ (require-eq-success _ _ passed))))))

finish-IsLater :
    (s : ServiceState) (m : TaskGraphMutation) (o : ServiceResult Effects)
    → Ensures (λ e. has_key m.mutation_id s.mutations ≡ false) o
    → IsLater s (finish s m o).0
unfolding write publish
finish-IsLater s m o (returns {a = e} absent) = record {
  logged = λ id l h. insert_absent m.mutation_id id _ l s.mutations absent h;
  stored = λ r h. insert_graph m.run_id r e.graph s.snapshots h;
}
finish-IsLater s m o raises = IsLater-refl s

commit_mutation-IsLater :
    (allows : TaskNode → Bool) (s : ServiceState) (m : TaskGraphMutation) (now : ℕ)
    → IsLater s (commit_mutation allows s m now).0
unfolding commit_mutation
commit_mutation-IsLater allows s m now = finish-IsLater s m _ (prepare-absent allows s m now)

apply-IsLater :
    (allows : TaskNode → Bool) (s : ServiceState) (m : TaskGraphMutation) (now : ℕ)
    → IsLater s (apply allows s m now).0
apply-IsLater allows s m now = elim (apply-cases allows s m now) [
  | inl e ↦ subst (IsLater s) (sym e) (IsLater-refl s)
  | inr e ↦ subst (IsLater s) (sym e) (commit_mutation-IsLater allows s m now)
]

insert_first :
    (k id : String) (new l : LoggedMutation) (d : Log)
    → lookup id d ≡ some l
    → lookup id (if has_key k d then d else insert k new d) ≡ some l
insert_first k id new l d h = elim (Bool-cases (has_key k d)) [
  | inl old ↦ rw old h
  | inr absent ↦ rw absent (insert_absent k id new l d absent h)
]

log_initial-keeps :
    (run_id actor : String) (version : ℕ) (ts : List BoardTask) (log : Log) (id : String)
    (l : LoggedMutation)
    → lookup id log ≡ some l
    → lookup id (log_initial run_id actor version ts log) ≡ some l
unfolding log_initial
log_initial-keeps run_id actor version [] log id l h = h
log_initial-keeps run_id actor version (t ∷ ts) log id l h =
    log_initial-keeps run_id actor version ts _ id l (insert_first _ id _ l log h)

write_initial-IsLater :
    (s : ServiceState) (run_id : String) (g : TaskGraph) (actor : String) (now : ℕ)
    → IsLater s (write_initial s run_id g actor now)
unfolding write_initial
write_initial-IsLater s run_id g actor now = elim (Bool-cases (is_untouched s.mutations run_id)) [
  | inl fresh ↦ rw fresh (record {
    logged = λ id l h. log_initial-keeps run_id actor g.version _ s.mutations id l h;
    stored = λ r h. insert_graph run_id r g s.snapshots h;
  })
  | inr old ↦ rw old (IsLater-refl s)
]

register_first-IsLater :
    (allows : TaskNode → Bool) (s : ServiceState) (run_id : String) (g : TaskGraph) (actor : String)
    (now : ℕ)
    → Ensures (λ r. IsLater s r.0) (register_first allows s run_id g actor now)
unfolding register_first
register_first-IsLater allows s run_id g actor now = then-Ensures _ _ (λ u _. returns (record {
  logged = λ id l h. (write_initial-IsLater s run_id g actor now).logged id l h;
  stored = λ r h. (write_initial-IsLater s run_id g actor now).stored r h;
}))

replace_with-IsLater :
    (allows : TaskNode → Bool) (s : ServiceState) (run_id : String) (g : TaskGraph) (actor : String)
    (now : ℕ) (old_tasks : List BoardTask) (version : ℕ)
    → Ensures (λ r. IsLater s r.0) (replace_with allows s run_id g actor now old_tasks version)
unfolding replace_with
replace_with-IsLater allows s run_id g actor now old_tasks version = then-Ensures _ _ (λ g' _.
    then-Ensures _ _ (λ _ _. then-Ensures _ _ (λ rows _. then-Ensures _ _ (λ u new.
      returns (record {
        logged = λ id l h.
            insert_absent _ id _ l s.mutations (not-true _ (require-eq-success _ _ new)) h;
        stored = λ r h. insert_graph run_id r g' s.snapshots h;
      })))))

replace_plan-IsLater :
    (allows : TaskNode → Bool) (s : ServiceState) (run_id : String) (g : TaskGraph) (actor : String)
    (now : ℕ)
    → Ensures (λ r. IsLater s r.0) (replace_plan allows s run_id g actor now)
unfolding replace_plan
replace_plan-IsLater allows s run_id g actor now = then-Ensures _ _ (λ _ _.
    then-Ensures _ _
      (λ current _. replace_with-IsLater allows s run_id g actor now _ current.version))

write_late-IsLater :
    (allows : TaskNode → Bool) (s : ServiceState) (run_id : String) (g : TaskGraph) (actor : String)
    (now : ℕ)
    → Ensures (λ r. IsLater s r.0) (write_late allows s run_id g actor now)
unfolding write_late
write_late-IsLater allows s run_id g actor now =
    then-Ensures _ _
      (λ _ _. then-Ensures _ _ (λ _ _. returns (write_initial-IsLater s run_id g actor now)))

replace_plan-kept :
    (allows : TaskNode → Bool) (s : ServiceState) (run_id : String) (g : TaskGraph) (actor : String)
    (now : ℕ) (b : Bool) (v : TaskGraphVersion)
    → Ensures
        (λ r. IsLater s r.0)
        (if b then success (reload run_id s, v) else replace_plan allows s run_id g actor now)
replace_plan-kept allows s run_id g actor now true v =
    returns (record { logged = λ id l h. h; stored = λ r h. h })
replace_plan-kept allows s run_id g actor now false v =
    replace_plan-IsLater allows s run_id g actor now

register-IsLater :
    (allows : TaskNode → Bool) (s : ServiceState) (run_id : String) (g : TaskGraph) (actor : String)
    (now : ℕ)
    → Ensures (λ r. IsLater s r.0) (register_initial_graph allows s run_id g actor now)
unfolding register_initial_graph register_again
register-IsLater allows s run_id g actor now = then-Ensures _ _ (λ _ _.
    elim (Bool-cases (already_registered s.mutations run_id)) [
      | inl old ↦ rw old (
          then-Ensures _ _
            (λ current _. replace_plan-kept allows s run_id g actor now (same_plan current g) _))
      | inr new ↦ rw new (register_first-IsLater allows s run_id g actor now)
    ])

state_after-IsLater :
    (s : ServiceState) (o : ServiceResult (ServiceState × TaskGraphVersion))
    → Ensures (λ r. IsLater s r.0) o
    → IsLater s (state_after s o)
state_after-IsLater s o (returns later) = later
state_after-IsLater s o raises = IsLater-refl s

service_call-IsLater :
    (s : ServiceState) (now : ℕ) (allows : TaskNode → Bool) (c : ServiceCall)
    → IsLater s (service_call s now allows c)
unfolding service_call
service_call-IsLater s now allows (ServiceCall.register run_id g actor) =
    state_after-IsLater s _ (register-IsLater allows s run_id g actor now)
service_call-IsLater s now allows (ServiceCall.mutate m) = apply-IsLater allows s m now
service_call-IsLater s now allows (ServiceCall.mutate_late m) =
    commit_mutation-IsLater allows s m now
service_call-IsLater s now allows (ServiceCall.register_late run_id g actor) =
    state_after-IsLater s _ (write_late-IsLater allows s run_id g actor now)
service_call-IsLater s now allows (ServiceCall.reload_late run_id) = record {
  logged = λ id l h. h;
  stored = λ r h. h;
}
service_call-IsLater s now allows (ServiceCall.replace_late run_id g actor old version) =
    state_after-IsLater s _ (replace_with-IsLater allows s run_id g actor now old version)

pub service_calls-IsLater :
    (s : ServiceState) (cs : List TimedCall) → IsLater s (service_calls s cs)
unfolding service_calls
service_calls-IsLater s [] = IsLater-refl s
service_calls-IsLater s ((now, allows, c) ∷ cs) =
    let first = service_call-IsLater s now allows c in
    let rest = service_calls-IsLater (service_call s now allows c) cs in
    record {
      logged = λ id l h. rest.logged id l (first.logged id l h);
      stored = λ r h. rest.stored r (first.stored r h);
    }
