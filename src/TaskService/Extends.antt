-- ===== src/TaskService/Extends.antt =====
-- app/multiagent/transactional_task_service.py: a mutation keeps the nodes of the graph, and comes
-- with a task of the board for the node that it adds.
use Prim.Native.String.{◌++◌ as join}
use mega_deepagents.Base.{
  ℕ, String, Bool, true, some, ◌≡◌, ◌∙◌, refl, sym, subst, arith, string_eq, pair_eq, Bool-cases,
  inl, inr, ◌⊎◌, contains, ◌==◌, if◌then◌else◌, eq→path,
}
use mega_deepagents.Base.Dict.{Dict, lookup, has_key, insert, lookup-insert}
use mega_deepagents.TaskBoard.Task.{BoardTask}
use mega_deepagents.TaskBoard.Store.{Board, key_of}
use mega_deepagents.TaskGraph.Node.{TaskNode}
use mega_deepagents.TaskGraph.Graph
use mega_deepagents.TaskGraph.Graph.{TaskGraph}
use mega_deepagents.TaskGraph.Repair.{or_names}
use mega_deepagents.TaskGraph.Ranks.{IsPlan}
use mega_deepagents.TaskGraph.RepairPlan
use mega_deepagents.TaskService.Store.{Payload, found, of_result, unknown_task}
use mega_deepagents.TaskService.Mutate.{
  Effects, task_of_node, create_task_effects, add_dependency_effects, update_task_effects,
  repair_task_effects, apply_mutation, depend, fail_running, or_text,
}
use mega_deepagents.TaskService.Outcomes.{
  Ensures, returns, raises, then-Ensures, found-eq-success, of_result-eq-success,
}
use mega_deepagents.TaskService.PlanSteps.{add_node-put, IsReshaped-IsPlan, fail_running-IsReshaped}

pub has_key-insert {ℓ} :
    {V : Type ℓ} (j k : String) (v : V) (d : Dict String V)
    → has_key j (insert k v d) ≡ (if j == k then true else has_key j d)
has_key-insert j k v d = ground (arith, lookup-insert j k v d)

pub record IsExtended (run_id : String) (g : TaskGraph) (e : Effects) : Type 0 where
  pub keeps : (id : String) → has_key id g.nodes ≡ true → has_key id e.graph.nodes ≡ true
  pub covers :
      (id : String)
      → has_key id e.graph.nodes ≡ true
      → (has_key id g.nodes ≡ true)
        ⊎ ((t : BoardTask) × (e.board_task ≡ some t) × (key_of t ≡ (run_id, id)))

key_of-task :
    (run_id : String) (now : ℕ) (n : TaskNode) → key_of (task_of_node run_id now n) ≡ (run_id, n.id)
unfolding task_of_node
key_of-task run_id now n = refl

-- A graph whose keys are those of the old one and perhaps one more, for which there is a task.
with_task :
    (run_id id : String) (g : TaskGraph) (e : Effects) (t : BoardTask)
    → ((v : String) → has_key v e.graph.nodes ≡ (if v == id then true else has_key v g.nodes))
    → e.board_task ≡ some t
    → key_of t ≡ (run_id, id)
    → IsExtended run_id g e
with_task run_id id g e t keys made named = record {
  keeps = λ v h. ground (arith, keys v);
  covers = λ v h. elim (Bool-cases (v == id)) [
    | inl new ↦ inr (t, made, rw (eq→path v id new) named)
    | inr old ↦ inl (ground (arith, keys v))
  ];
}

same_nodes :
    (run_id : String) (g : TaskGraph) (e : Effects)
    → ((v : String) → has_key v e.graph.nodes ≡ has_key v g.nodes)
    → IsExtended run_id g e
same_nodes run_id g e keys = record {
  keeps = λ v h. keys v ∙ h;
  covers = λ v h. inl (sym (keys v) ∙ h);
}

add_node-keys :
    (g g' : TaskGraph) (n : TaskNode) (now : ℕ)
    → Graph.add_node g n now ≡ Graph.ok g'
    → (v : String) → has_key v g'.nodes ≡ (if v == n.id then true else has_key v g.nodes)
add_node-keys g g' n now h v =
    subst (λ (x : TaskGraph). has_key v x.nodes ≡ (if v == n.id then true else has_key v g.nodes))
      (add_node-put g g' n now h) (has_key-insert v n.id n g.nodes)

put_found-keys :
    (g : TaskGraph) (id : String) (n n' : TaskNode)
    → lookup id g.nodes ≡ some n
    → (v : String) → has_key v (insert id n' g.nodes) ≡ has_key v g.nodes
put_found-keys g id n n' h v = ground (arith, lookup-insert v id n' g.nodes, eq→path v id)

depend-keys :
    (g : TaskGraph) (task dependency : String) (n : TaskNode) (now : ℕ)
    → lookup task g.nodes ≡ some n
    → (v : String) → has_key v (depend g task dependency n now).nodes ≡ has_key v g.nodes
unfolding depend
depend-keys g task dependency n now h v = elim (Bool-cases (contains n.dependencies dependency)) [
  | inl old ↦ rw old refl
  | inr new ↦ rw new (put_found-keys g task n _ h v)
]

-- A mutation of a plan that does not raise keeps its nodes, and has a task for what it adds.
pub apply_mutation-IsExtended :
    (allows : TaskNode → Bool) (b : Board) (run_id : String) (g : TaskGraph) (payload : Payload)
    (now : ℕ)
    → IsPlan g
    → Ensures (IsExtended run_id g) (apply_mutation allows b run_id g payload now)
unfolding apply_mutation create_task_effects add_dependency_effects update_task_effects
    repair_task_effects
apply_mutation-IsExtended allows b run_id g (Payload.create_task n) now p = then-Ensures _ _ (λ _ _.
    then-Ensures _ _ (λ _ _. then-Ensures (of_result (Graph.add_node g n now)) _ (λ g' made.
      then-Ensures _ _ (λ _ _. returns (
        with_task run_id n.id g _ (task_of_node run_id now n)
          (add_node-keys g g' n now (of_result-eq-success _ made)) refl
          (key_of-task run_id now n))))))
apply_mutation-IsExtended allows b run_id g (Payload.add_dependency task dependency) now p =
    then-Ensures (found (lookup task g.nodes) (unknown_task task)) _ (λ n there.
      then-Ensures _ _ (λ _ _. then-Ensures _ _ (λ _ _. returns (
        same_nodes run_id g _ (depend-keys g task dependency n now (found-eq-success _ _ there))))))
apply_mutation-IsExtended allows b run_id g (Payload.update_task task changes) now p =
    then-Ensures (found (lookup task g.nodes) (unknown_task task)) _ (λ n there.
      then-Ensures _ _ (λ n' _.
        returns (same_nodes run_id g _ (put_found-keys g task n n' (found-eq-success _ _ there)))))
apply_mutation-IsExtended allows b run_id g (Payload.repair_task target objective caps) now p =
    then-Ensures _ _ (λ t _. then-Ensures _ _ (λ made returned.
      let start = fail_running g target t now in
      let shape = fail_running-IsReshaped g target t now in
      let done =
        RepairPlan.add_repair_task-returned start target
          (or_text objective (join "repair " t.objective)) (or_names caps t.required_capabilities)
          now made (IsReshaped-IsPlan shape p) (of_result-eq-success _ returned) in
      returns (
        with_task run_id made.1.id g _ (task_of_node run_id now made.1)
          (λ v. done.keys v ∙ rw (shape.same_keys v) refl) refl (key_of-task run_id now made.1))))
apply_mutation-IsExtended allows b run_id g Payload.plan_revision now p = raises
