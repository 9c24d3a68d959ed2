-- ===== src/TaskGraph/Ready.antt =====
-- app/multiagent/task_graph.py: `ready_tasks`.
use Prim.Native.String.{compare}
use mega_deepagents.Base.{
  String, Bool, true, false, none, some, List, [], ◌∷◌, Ordering, if◌then◌else◌, string_eq, ltb,
  eqb, ◌&&◌, ◌||◌,
}
use mega_deepagents.Base.Dict.{Dict, lookup, values}
use mega_deepagents.TaskGraph.Node.{TaskNode, can_be_ready, is_succeeded}
use mega_deepagents.TaskGraph.Graph.{TaskGraph, Result, ok, raise, key_error}

-- `all(self.nodes[dep].status == SUCCEEDED for dep in deps)`, which stops at the first failure.
unfoldable pub deps_ok : Dict String TaskNode → List String → Result Bool
deps_ok nodes [] = ok true
deps_ok nodes (dep ∷ deps) =
    let rest = deps_ok nodes deps in
    elim (lookup dep nodes) [
      | none ↦ raise (key_error dep)
      | some n ↦ if is_succeeded n.status then rest else ok false
    ]

abbrev pub name_lt : String → String → Bool
name_lt a b = elim (compare a b) [ Ordering.lt ↦ true | _ ↦ false ]

-- The tuple `(-n.priority, n.id)` of `a` is below that of `b`.
abbrev pub precedes : TaskNode → TaskNode → Bool
precedes a b = ltb b.priority a.priority || (eqb a.priority b.priority && name_lt a.id b.id)

unfoldable pub insert_ready : TaskNode → List TaskNode → List TaskNode
insert_ready n [] = n ∷ []
insert_ready n (m ∷ ms) =
    let rest = insert_ready n ms in if precedes m n then m ∷ rest else n ∷ m ∷ ms

-- `ready.sort(key=…)`, a stable sort.
unfoldable pub sort_ready : List TaskNode → List TaskNode
unfolding insert_ready
sort_ready [] = []
sort_ready (n ∷ ns) = insert_ready n (sort_ready ns)

abbrev pub prepend_if : TaskNode → Result Bool → Result (List TaskNode) → Result (List TaskNode)
prepend_if n (raise e) rest = raise e
prepend_if n (ok false) rest = rest
prepend_if n (ok true) (ok ns) = ok (n ∷ ns)
prepend_if n (ok true) (raise e) = raise e

-- The loop over the nodes.
unfoldable pub collect_ready : Dict String TaskNode → List TaskNode → Result (List TaskNode)
unfolding deps_ok
collect_ready nodes [] = ok []
collect_ready nodes (n ∷ ns) =
    let rest = collect_ready nodes ns in
    if can_be_ready n.status then prepend_if n (deps_ok nodes n.dependencies) rest else rest

abbrev pub sorted : Result (List TaskNode) → Result (List TaskNode)
sorted (ok ns) = ok (sort_ready ns)
sorted (raise e) = raise e

unfoldable pub ready_tasks : TaskGraph → Result (List TaskNode)
unfolding collect_ready sort_ready
ready_tasks g = sorted (collect_ready g.nodes (values g.nodes))
