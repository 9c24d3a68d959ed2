-- ===== src/TaskGraph/RepairPlan.antt =====
-- app/multiagent/task_graph.py: what `add_repair_task` does to a plan.
use mega_deepagents.Base.{
  ℕ, ◌≤◌, ◌<◌, String, Bool, true, false, none, some, List, ◌≡◌, ◌∙◌, sym, subst, ap, refl, arith,
  leb, leb→le, contains, string_eq, if◌then◌else◌, eq_self, eq→path, ◌==◌, Bool-cases, Option-cases,
  inl, inr, ◌⊎◌,
}
use mega_deepagents.Base.Dict.{lookup, insert, has_key}
use mega_deepagents.TaskGraph.Node.{TaskNode, is_succeeded}
use mega_deepagents.TaskGraph.Graph.{TaskGraph, Result, ok, raise, invalid_node, touch, add_node}
use mega_deepagents.TaskGraph.Repair.{
  redirect, retire, repair_node, is_constructible, add_repair_task, insert_repair,
}
use mega_deepagents.TaskGraph.Order.{dependencies_of}
use mega_deepagents.TaskGraph.Ranks.{
  IsPlan, IsRanked, IsPlan-IsRanked, IsRanked-IsPlan, dependencies_of-found,
}
use mega_deepagents.TaskGraph.Repairing
use mega_deepagents.TaskGraph.Repairing.{with_repair}
use mega_deepagents.TaskGraph.Shape.{IsReshaped-IsRanked}
use mega_deepagents.TaskGraph.RepairBudget.{repair_attempts-le, repair_calls-le}
use mega_deepagents.TaskGraph.Substitution.{
  substituted, retire-IsReshaped, lookup-retire_other, redirect-dependencies, redirect_absent,
}
use mega_deepagents.TaskGraph.FreshId.{repair_id-fresh}

-- The repair node is new and waits for what the target waits for; whoever waited for the target
-- waits for the repair node instead; all else of the plan stays, and it is still a plan.
pub record IsRepaired (g : TaskGraph) (target : String) (g' : TaskGraph) (node : TaskNode)
    : Type 0 where
  pub plan : IsPlan g'
  pub fresh : has_key node.id g.nodes ≡ false
  pub held : lookup node.id g'.nodes ≡ some node
  pub waits : node.dependencies ≡ dependencies_of g target
  pub keys : (v : String) → has_key v g'.nodes ≡ (if v == node.id then true else has_key v g.nodes)
  pub follows :
      (v : String)
      → (v == node.id) ≡ false
      → dependencies_of g' v ≡ substituted target node.id (dependencies_of g v)

ok_or {ℓ} : {A : Type ℓ} → A → Result A → A
ok_or d (ok a) = a
ok_or d (raise e) = d

ok-injective {ℓ} : {A : Type ℓ} (a b : A) → ok a ≡ ok b → a ≡ b
unfolding ok_or
ok-injective a b h = ap (ok_or a) h

module _ (g : TaskGraph) (p : IsPlan g) (target objective : String) (caps : List String) (now : ℕ)
    (t : TaskNode) (found : lookup target g.nodes ≡ some t) where
  abbrev node_of : String → TaskNode
  node_of id = repair_node id target objective caps t

  abbrev start : TaskGraph
  start = touch now g

  ranked : IsRanked g
  ranked = IsPlan-IsRanked g p

  start-IsRanked : IsRanked start
  start-IsRanked =
      IsReshaped-IsRanked g start
        (record {
          keyed = λ k. record { keyed = k.keyed; nodup = k.nodup };
          same_dependencies = λ v. refl;
          same_keys = λ v. refl;
        })
        ranked

  not_self : contains t.dependencies target ≡ false
  not_self = elim (Bool-cases (contains t.dependencies target)) [
    | inl e ↦
        absurd (
          omega (arith, ranked.rises target target (rw (dependencies_of-found g target t found) e)))
    | inr e ↦ e
  ]

  module _ (id : String) (free : has_key id g.nodes ≡ false) where
    absent : lookup id g.nodes ≡ none
    absent = ground arith

    dependencies_of-node : (node_of id).dependencies ≡ t.dependencies
    unfolding repair_node
    dependencies_of-node = refl

    id_of-node : id ≡ (node_of id).id
    unfolding repair_node
    id_of-node = refl

    placed : TaskGraph
    unfolding with_repair
    placed =
        with_repair start start-IsRanked target id t (node_of id) found absent id_of-node
          dependencies_of-node

    placed-IsRanked : IsRanked placed
    unfolding placed
    placed-IsRanked =
        Repairing.with_repair-IsRanked start start-IsRanked target id t (node_of id) found absent
          id_of-node dependencies_of-node

    other : (id == target) ≡ false
    other = elim (Bool-cases (id == target)) [
      | inl e ↦ absurd (cc (absent, found, eq→path id target e))
      | inr e ↦ e
    ]

    node_stays : redirect target id (node_of id) ≡ node_of id
    node_stays = redirect_absent target id (node_of id) (rw dependencies_of-node not_self)

    placed-lookup :
        (v : String)
        → lookup v placed.nodes
          ≡ Repairing.redirected target id (if v == id then some (node_of id) else lookup v g.nodes)
    unfolding placed
    placed-lookup v =
        Repairing.lookup-with_repair start start-IsRanked target id t (node_of id) found absent
          id_of-node dependencies_of-node v

    placed-node : lookup id placed.nodes ≡ some (node_of id)
    placed-node = placed-lookup id ∙ rw (eq_self id) (ap some node_stays)

    placed-has_key :
        (v : String) → has_key v placed.nodes ≡ (if v == id then true else has_key v g.nodes)
    placed-has_key v = ground (arith, placed-lookup v)

    placed-follows :
        (v : String)
        → (v == id) ≡ false
        → dependencies_of placed v ≡ substituted target id (dependencies_of g v)
    placed-follows v old = elim (Option-cases (lookup v g.nodes)) [
      | inl gone ↦ ground (arith, placed-lookup v)
      | inr (n, there) ↦
          dependencies_of-found placed v (redirect target id n)
            (placed-lookup v ∙ rw (old, there) refl)
          ∙ redirect-dependencies target id n
          ∙ ap (substituted target id) (sym (dependencies_of-found g v n there))
    ]

    retired : Bool → TaskGraph
    retired done = retire target done now placed

    retired-IsRepaired : (done : Bool) → IsRepaired g target (retired done) (node_of id)
    unfolding retired repair_node
    retired-IsRepaired done =
        let shape = retire-IsReshaped target done now placed in
        record {
          plan = IsRanked-IsPlan _ (IsReshaped-IsRanked placed _ shape placed-IsRanked);
          fresh = free;
          held = lookup-retire_other target id done now placed other ∙ placed-node;
          waits = sym (dependencies_of-found g target t found);
          keys = λ v. shape.same_keys v ∙ placed-has_key v;
          follows = λ v old. shape.same_dependencies v ∙ placed-follows v old;
        }

    placed-add_node :
        add_node g (node_of id) now ≡ ok (record start { nodes = insert id (node_of id) g.nodes })
    unfolding add_node repair_node
    placed-add_node = rw free refl

    new_dependency : contains t.dependencies id ≡ false
    new_dependency = elim (Bool-cases (contains t.dependencies id)) [
      | inl e ↦
          absurd (cc (free, ranked.known target id (rw (dependencies_of-found g target t found) e)))
      | inr e ↦ e
    ]

    is_constructible-node :
        t.budget.max_attempts ≤ 10
        → t.budget.max_tool_calls ≤ 200
        → is_constructible (node_of id) ≡ leb t.max_attempts 10
    unfolding is_constructible repair_node
    is_constructible-node attempts calls =
        rw (repair_calls-le t.budget.max_tool_calls calls, new_dependency)
          (ground (arith, repair_attempts-le t attempts))

    insert_repair-placed :
        is_constructible (node_of id) ≡ true
        → insert_repair g target objective caps now t (some id)
          ≡ ok (retired (is_succeeded t.status), node_of id)
    unfolding retired placed
    insert_repair-placed fits =
        rw (fits, placed-add_node) (ap (λ (n : TaskNode). done n) node_stays)
      where
        done : TaskNode → Result (TaskGraph × TaskNode)
        done n = ok (retired (is_succeeded t.status), n)

  -- On a plan whose target has a budget within the bounds of its type, if the target has at most ten
  -- attempts, add_repair_task returns a plan in which a new node has taken the target's place: it
  -- waits for what the target waits for, and whoever waited for the target waits for it. If not, the
  -- call raises.
  pub add_repair_task-IsRepaired :
      t.budget.max_attempts ≤ 10
      → t.budget.max_tool_calls ≤ 200
      → ((10 < t.max_attempts)
          × ((id : String) × (add_repair_task g target objective caps now
                ≡ raise (invalid_node id))))
        ⊎ ((t.max_attempts ≤ 10)
            × ((g' : TaskGraph) × (node : TaskNode) × (add_repair_task g target objective caps now
                  ≡ ok (g', node))
                × IsRepaired g target g' node))
  unfolding add_repair_task
  add_repair_task-IsRepaired attempts calls =
      let (id, returned, free) = repair_id-fresh g target in
      let fits = is_constructible-node id free attempts calls in
      elim (Bool-cases (leb t.max_attempts 10)) [
        | inl few ↦ inr (
          leb→le _ _ few,
          (
            retired id free (is_succeeded t.status),
            node_of id,
            rw (found, returned) (insert_repair-placed id free (fits ∙ few)),
            retired-IsRepaired id free (is_succeeded t.status),
          ),
        )
        | inr many ↦ inl (ground arith, (id, rw (found, returned, fits, many) refl))
      ]

  -- Whatever the budget, a call that returns has put the node in the target's place.
  pub returned-IsRepaired :
      {g' : TaskGraph} {node : TaskNode}
      → add_repair_task g target objective caps now ≡ ok (g', node)
      → IsRepaired g target g' node
  unfolding add_repair_task
  returned-IsRepaired {g'} {node} h =
      let (id, returned, free) = repair_id-fresh g target in
      let h' : insert_repair g target objective caps now t (some id) ≡ ok (g', node) =
        rw (found, returned) at h in
      elim (Bool-cases (is_constructible (node_of id))) [
        | inl fits ↦
            subst (λ (x : TaskGraph × TaskNode). IsRepaired g target x.0 x.1)
              (ok-injective _ _ (sym (insert_repair-placed id free fits) ∙ h'))
              (retired-IsRepaired id free (is_succeeded t.status))
        | inr tight ↦ cc (rw tight at h')
      ]

-- If `add_repair_task` returns, on a plan, it has put the node in the target's place.
pub add_repair_task-returned :
    (g : TaskGraph) (target objective : String) (caps : List String) (now : ℕ)
    (made : TaskGraph × TaskNode)
    → IsPlan g
    → add_repair_task g target objective caps now ≡ ok made
    → IsRepaired g target made.0 made.1
unfolding add_repair_task
add_repair_task-returned g target objective caps now made p h =
    elim (Option-cases (lookup target g.nodes)) [
      | inl absent ↦ cc (rw absent at h)
      | inr (t, there) ↦ returned-IsRepaired g p target objective caps now t there h
    ]
