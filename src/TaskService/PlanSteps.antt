-- ===== src/TaskService/PlanSteps.antt =====
-- app/multiagent/transactional_task_service.py: what each mutation leaves of a plan is a plan.
use Prim.Native.String.{◌++◌ as join}
use mega_deepagents.Base.{
  ℕ, String, Bool, some, List, [], ◌∷◌, ◌≡◌, ◌∙◌, refl, ap, subst, string_eq, Bool-cases, inl, inr,
  contains,
}
use mega_deepagents.Base.Dict.{
  lookup, has_key, AllEntries-insert, insert-NodupKeys, AllEntries-lookup,
}
use mega_deepagents.TaskBoard.Store.{Board}
use mega_deepagents.TaskGraph.Node
use mega_deepagents.TaskGraph.Node.{TaskNode, is_running}
use mega_deepagents.TaskGraph.Graph
use mega_deepagents.TaskGraph.Graph.{TaskGraph, put_node, update_status}
use mega_deepagents.TaskGraph.Search.{validate}
use mega_deepagents.TaskGraph.Repair.{or_names}
use mega_deepagents.TaskGraph.Order.{IsKeyed}
use mega_deepagents.TaskGraph.Ranks.{IsPlan, IsPlan-IsRanked, IsRanked-IsPlan}
use mega_deepagents.TaskGraph.Shape.{
  IsReshaped, IsReshaped-refl, IsReshaped-IsRanked, put_node-IsReshaped, update_status-IsReshaped,
}
use mega_deepagents.TaskGraph.RepairPlan
use mega_deepagents.TaskGraph.RepairPlan.{IsRepaired}
use mega_deepagents.TaskService.Store.{
  Change, Payload, ServiceResult, found, of_result, unknown_task,
}
use mega_deepagents.TaskService.Mutate.{
  Effects, create_task_effects, add_dependency_effects, update_task_effects, repair_task_effects,
  apply_mutation, apply_change, apply_changes, depend, fail_running, or_text,
}
use mega_deepagents.TaskService.Outcomes.{
  Ensures, returns, raises, then-Ensures, ensured, found-eq-success, of_result-eq-success,
  validate-IsPlan,
}

pub IsReshaped-IsPlan : {g g' : TaskGraph} → IsReshaped g g' → IsPlan g → IsPlan g'
IsReshaped-IsPlan {g} {g'} s p =
    IsRanked-IsPlan g' (IsReshaped-IsRanked g g' s (IsPlan-IsRanked g p))

put-IsKeyed :
    (g : TaskGraph) (now : ℕ) (id : String) (n : TaskNode)
    → IsKeyed g
    → id ≡ n.id
    → IsKeyed (put_node now id n g)
put-IsKeyed g now id n k e = record {
  keyed = AllEntries-insert (λ k n. k ≡ n.id) id n g.nodes k.keyed e;
  nodup = insert-NodupKeys id n g.nodes k.nodup;
}

-- A result that is returned satisfies the predicate.
graph_or : TaskGraph → Graph.Result TaskGraph → TaskGraph
graph_or d (Graph.ok g) = g
graph_or d (Graph.raise e) = d

-- A node that could be added stands in the new graph beside the old ones.
pub add_node-put :
    (g g' : TaskGraph) (n : TaskNode) (now : ℕ)
    → Graph.add_node g n now ≡ Graph.ok g'
    → put_node now n.id n g ≡ g'
unfolding Graph.add_node graph_or
add_node-put g g' n now h = elim (Bool-cases (has_key n.id g.nodes)) [
  | inl old ↦ cc (rw old at h)
  | inr new ↦ ap (graph_or g) (rw new at h)
]

add_node-IsKeyed :
    (g g' : TaskGraph) (n : TaskNode) (now : ℕ)
    → IsKeyed g
    → Graph.add_node g n now ≡ Graph.ok g'
    → IsKeyed g'
add_node-IsKeyed g g' n now k h =
    subst IsKeyed (add_node-put g g' n now h) (put-IsKeyed g now n.id n k refl)

abbrev LeavesPlan : ServiceResult Effects → Type 0
LeavesPlan = Ensures (λ e. IsPlan e.graph)

create_task-IsPlan :
    (allows : TaskNode → Bool) (run_id : String) (g : TaskGraph) (n : TaskNode) (now : ℕ)
    → IsPlan g
    → LeavesPlan (create_task_effects allows run_id g n now)
unfolding create_task_effects
create_task-IsPlan allows run_id g n now p = then-Ensures _ _ (λ _ _. then-Ensures _ _ (λ _ _.
    then-Ensures (of_result (Graph.add_node g n now)) _ (λ g' made.
      then-Ensures (of_result (validate g')) _ (λ u valid. returns (
        validate-IsPlan g' (add_node-IsKeyed g g' n now p.keyed (of_result-eq-success _ made))
          (of_result-eq-success _ valid))))))

depend-IsKeyed :
    (g : TaskGraph) (task dependency : String) (n : TaskNode) (now : ℕ)
    → IsKeyed g
    → lookup task g.nodes ≡ some n
    → IsKeyed (depend g task dependency n now)
unfolding depend
depend-IsKeyed g task dependency n now k h =
    elim (Bool-cases (contains n.dependencies dependency)) [
      | inl old ↦ rw old k
      | inr new ↦
          rw new (
            put-IsKeyed g now task _ k (AllEntries-lookup (λ k n. k ≡ n.id) task g.nodes k.keyed h))
    ]

add_dependency-IsPlan :
    (g : TaskGraph) (task dependency : String) (now : ℕ)
    → IsPlan g
    → LeavesPlan (add_dependency_effects g task dependency now)
unfolding add_dependency_effects
add_dependency-IsPlan g task dependency now p =
    then-Ensures (found (lookup task g.nodes) (unknown_task task)) _ (λ n there.
      then-Ensures _ _ (λ _ _.
        then-Ensures (of_result (validate (depend g task dependency n now))) _ (λ u valid. returns (
          validate-IsPlan (depend g task dependency n now)
            (depend-IsKeyed g task dependency n now p.keyed (found-eq-success _ _ there))
            (of_result-eq-success _ valid)))))

-- The changes of an update keep the node's id and dependencies.
abbrev KeepsShape : TaskNode → TaskNode → Type 0
KeepsShape n n' = (n'.id ≡ n.id) × (n'.dependencies ≡ n.dependencies)

apply_change-KeepsShape : (c : Change) (n : TaskNode) → Ensures (KeepsShape n) (apply_change c n)
apply_change-KeepsShape (Change.set_title x) n = returns (refl, refl)
apply_change-KeepsShape (Change.set_objective x) n = returns (refl, refl)
apply_change-KeepsShape (Change.set_description x) n = returns (refl, refl)
apply_change-KeepsShape (Change.set_priority x) n = returns (refl, refl)
apply_change-KeepsShape Change.set_metadata n = returns (refl, refl)
apply_change-KeepsShape (Change.set_other x) n = raises

apply_changes-KeepsShape :
    (cs : List Change) (n₀ n : TaskNode)
    → KeepsShape n₀ n
    → Ensures (KeepsShape n₀) (apply_changes cs n)
unfolding apply_changes
apply_changes-KeepsShape [] n₀ n k = returns k
apply_changes-KeepsShape (c ∷ cs) n₀ n k = then-Ensures (apply_change c n) _ (λ n' made.
    let step = ensured n' (apply_change-KeepsShape c n) made in
    apply_changes-KeepsShape cs n₀ n' (step.0 ∙ k.0, step.1 ∙ k.1))

update_task-IsPlan :
    (g : TaskGraph) (task : String) (changes : List Change) (now : ℕ)
    → IsPlan g
    → LeavesPlan (update_task_effects g task changes now)
unfolding update_task_effects
update_task-IsPlan g task changes now p =
    then-Ensures (found (lookup task g.nodes) (unknown_task task)) _ (λ n there.
      then-Ensures (apply_changes changes n) _ (λ n' made.
        let kept = ensured n' (apply_changes-KeepsShape changes n n (refl, refl)) made in
        returns (
          IsReshaped-IsPlan
            (put_node-IsReshaped g now task n n' (found-eq-success _ _ there) kept.0 kept.1) p)))

pub fail_running-IsReshaped :
    (g : TaskGraph) (target : String) (t : TaskNode) (now : ℕ)
    → IsReshaped g (fail_running g target t now)
fail_running-IsReshaped g target t now = elim (Bool-cases (is_running t.status)) [
  | inl on ↦ rw on (update_status-IsReshaped g target Node.failed now)
  | inr off ↦ rw off (IsReshaped-refl g)
]

repair_task-IsPlan :
    (b : Board) (run_id : String) (g : TaskGraph) (target objective : String) (caps : List String)
    (now : ℕ)
    → IsPlan g
    → LeavesPlan (repair_task_effects b run_id g target objective caps now)
unfolding repair_task_effects
repair_task-IsPlan b run_id g target objective caps now p =
    then-Ensures (found (lookup target g.nodes) (unknown_task target)) _ (λ t there.
      then-Ensures _ _ (λ made returned.
        let start = fail_running g target t now in
        let done =
          RepairPlan.add_repair_task-returned start target
            (or_text objective (join "repair " t.objective)) (or_names caps t.required_capabilities)
            now made (IsReshaped-IsPlan (fail_running-IsReshaped g target t now) p)
            (of_result-eq-success _ returned) in
        returns done.plan))

-- A mutation of a plan that does not raise leaves a plan.
pub apply_mutation-IsPlan :
    (allows : TaskNode → Bool) (b : Board) (run_id : String) (g : TaskGraph) (payload : Payload)
    (now : ℕ)
    → IsPlan g
    → LeavesPlan (apply_mutation allows b run_id g payload now)
unfolding apply_mutation
apply_mutation-IsPlan allows b run_id g (Payload.create_task n) now p =
    create_task-IsPlan allows run_id g n now p
apply_mutation-IsPlan allows b run_id g (Payload.add_dependency task dependency) now p =
    add_dependency-IsPlan g task dependency now p
apply_mutation-IsPlan allows b run_id g (Payload.update_task task changes) now p =
    update_task-IsPlan g task changes now p
apply_mutation-IsPlan allows b run_id g (Payload.repair_task target objective caps) now p =
    repair_task-IsPlan b run_id g target objective caps now p
apply_mutation-IsPlan allows b run_id g Payload.plan_revision now p = raises
