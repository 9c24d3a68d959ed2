-- ===== src/TaskService/AtMostOnce.antt =====
-- app/multiagent/transactional_task_service.py: a mutation is applied at most once.
use mega_deepagents.Base.{
  ℕ, Bool, true, Option, none, some, List, ◌≡◌, refl, sym, ap, string_eq, is_some,
}
use mega_deepagents.Base.Dict.{lookup, has_key}
use mega_deepagents.TaskGraph.Node.{TaskNode}
use mega_deepagents.TaskGraph.Graph.{TaskGraph}
use mega_deepagents.TaskService.Store.{
  TaskGraphMutation, TaskGraphVersion, LoggedMutation, ServiceState, ServiceResult, success,
  failure, ◌>>=◌, graph, found, no_graph,
}
use mega_deepagents.TaskService.Mutate.{Effects}
use mega_deepagents.TaskService.Apply.{
  apply, commit_mutation, finish, write, publish, version_of, replay, check_then, check_version,
  apply_found, type_of,
}
use mega_deepagents.TaskService.Calls.{TimedCall, service_calls}
use mega_deepagents.TaskService.Outcomes.{success-injective}
use mega_deepagents.TaskService.Later.{IsLater, service_calls-IsLater, lookup-insert_same}

-- The mutation stands in the log with the version that was answered, and its run has a graph.
record IsApplied (m : TaskGraphMutation) (v : TaskGraphVersion) (s : ServiceState) : Type 0 where
  entry : LoggedMutation
  logged : lookup m.mutation_id s.mutations ≡ some entry
  version : entry.result_version ≡ v.version
  stored : has_key m.run_id s.snapshots ≡ true

IsApplied-later :
    (m : TaskGraphMutation) (v : TaskGraphVersion) (s s' : ServiceState)
    → IsLater s s'
    → IsApplied m v s
    → IsApplied m v s'
IsApplied-later m v s s' later a = record {
  entry = a.entry;
  logged = later.logged _ _ a.logged;
  version = a.version;
  stored = later.stored _ a.stored;
}

replay-IsApplied :
    (s : ServiceState) (m : TaskGraphMutation) (l : LoggedMutation) (v : TaskGraphVersion)
    (o : Option TaskGraph)
    → lookup m.mutation_id s.mutations ≡ some l
    → lookup m.run_id s.snapshots ≡ o
    → replay m l.result_version (found o (no_graph m.run_id)) ≡ success v
    → IsApplied m v s
replay-IsApplied s m l v none h e r = cc
replay-IsApplied s m l v (some g) h e r = record {
  entry = l;
  logged = h;
  version = ap (λ v. v.version) (success-injective _ v r);
  stored = ap is_some e;
}

finish-IsApplied :
    (s : ServiceState) (m : TaskGraphMutation) (v : TaskGraphVersion) (o : ServiceResult Effects)
    → (finish s m o).1 ≡ success v
    → IsApplied m v (finish s m o).0
unfolding write publish
finish-IsApplied s m v (failure e) r = cc
finish-IsApplied s m v (success e) r = record {
  entry = record {
    run_id = m.run_id;
    actor_agent_id = m.actor_agent_id;
    mutation_type = type_of m.payload;
    result_version = e.graph.version;
  };
  logged = lookup-insert_same m.mutation_id _ s.mutations;
  version = ap (λ v. v.version) (success-injective _ v r);
  stored = ap is_some (lookup-insert_same m.run_id e.graph s.snapshots);
}

checked-IsApplied :
    (s : ServiceState) (m : TaskGraphMutation) (v : TaskGraphVersion) (o : ServiceResult (Unit {0}))
    (rest : ServiceState × ServiceResult TaskGraphVersion)
    → (rest.1 ≡ success v → IsApplied m v rest.0)
    → (check_then s o rest).1 ≡ success v
    → IsApplied m v (check_then s o rest).0
checked-IsApplied s m v (failure e) rest f r = cc
checked-IsApplied s m v (success u) rest f r = f r

apply_found-IsApplied :
    (allows : TaskNode → Bool) (s : ServiceState) (m : TaskGraphMutation) (now : ℕ)
    (v : TaskGraphVersion) (o : Option LoggedMutation)
    → lookup m.mutation_id s.mutations ≡ o
    → (apply_found allows s m now o).1 ≡ success v
    → IsApplied m v (apply_found allows s m now o).0
unfolding graph commit_mutation
apply_found-IsApplied allows s m now v (some l) e r =
    replay-IsApplied s m l v (lookup m.run_id s.snapshots) e refl r
apply_found-IsApplied allows s m now v none e r =
    checked-IsApplied s m v (graph s m.run_id >>= λ g. check_version m.expected_version g.version) _
      (finish-IsApplied s m v _) r

again :
    (allows : TaskNode → Bool) (s : ServiceState) (m : TaskGraphMutation) (now : ℕ)
    (v : TaskGraphVersion) (o : Option TaskGraph)
    → IsApplied m v s
    → o ≡ lookup m.run_id s.snapshots
    → (g : TaskGraph) × (lookup m.run_id s.snapshots ≡ some g)
      × (apply allows s m now ≡ (s, success (version_of m v.version g)))
unfolding apply graph
again allows s m now v none a e = cc (rw (sym e) at a.stored)
again allows s m now v (some g) a e =
    (g, sym e, rw a.logged (rw (sym e) (ap (λ n. (s, success (version_of m n g))) a.version)))

-- If a mutation was applied and its caller was answered, then after any further history of
-- registrations and mutations, those whose reads were made on an earlier state than their transaction
-- included, where each update sets a value of its field's type, its run still has a graph, and to
-- apply the mutation again, at any time and whatever the hooks answer then, changes nothing and
-- answers the version of the first time with the graph that the run has now.
pub apply_once :
    (allows allows' : TaskNode → Bool) (s : ServiceState) (m : TaskGraphMutation) (now now' : ℕ)
    (v : TaskGraphVersion) (cs : List TimedCall)
    → (apply allows s m now).1 ≡ success v
    → let later = service_calls (apply allows s m now).0 cs in
      (g : TaskGraph) × (lookup m.run_id later.snapshots ≡ some g)
      × (apply allows' later m now' ≡ (later, success (version_of m v.version g)))
unfolding apply
apply_once allows allows' s m now now' v cs r =
    again allows' _ m now' v _
      (IsApplied-later m v _ _ (service_calls-IsLater _ cs)
        (apply_found-IsApplied allows s m now v _ refl r))
      refl
