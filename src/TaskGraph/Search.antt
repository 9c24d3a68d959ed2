-- ===== src/TaskGraph/Search.antt =====
-- app/multiagent/task_graph.py: `has_cycle`, `topological_order`, `validate` and `descendants`.
-- The methods build `indeg` and `adj` from the nodes' dependencies and only read `adj` afterwards:
-- both are functions of the list of edges here, a dependency before the node that has it.
use mathlib.Core.List.{reverse}
use mega_deepagents.Base.{
  ℕ, zero, suc, ◌+◌, ◌-◌, String, Bool, true, false, not, ◌&&◌, ◌||◌, Option, none, some, List, [],
  ◌∷◌, ◌++◌, if◌then◌else◌, ltb, eqb, length, keep, contains, ◌==◌, string_eq,
}
use mega_deepagents.Base.Dict.{Dict, lookup, has_key, keys, values}
use mega_deepagents.TaskGraph.Node.{TaskNode}
use mega_deepagents.TaskGraph.Graph.{
  TaskGraph, Result, ok, raise, key_error, cyclic, out_of_fuel, check_all_dependencies_exist,
}
use mega_deepagents.TaskGraph.Ready.{name_lt}

abbrev pub Edges : Type 0
Edges = List (String × String)

abbrev pub edges_into : String → List String → Edges → Edges
edges_into id [] rest = rest
edges_into id (dep ∷ deps) rest = (dep, id) ∷ edges_into id deps rest

unfoldable pub edges : List TaskNode → Edges
edges [] = []
edges (n ∷ ns) = edges_into n.id n.dependencies (edges ns)

-- `adj[nid]`, also `children[nid]`
unfoldable pub successors : Edges → String → List String
successors [] u = []
successors ((dep, id) ∷ es) u = let rest = successors es u in if dep == u then id ∷ rest else rest

-- `indeg[nid]`
unfoldable pub indegree : Edges → String → ℕ
indegree [] v = 0
indegree ((dep, id) ∷ es) v = let rest = indegree es v in if id == v then suc rest else rest

-- `local_indeg[succ] -= 1`
unfoldable pub decrement : String → (String → ℕ) → String → ℕ
decrement v ind x = if x == v then ind x - 1 else ind x

abbrev pub visit : String → Option (List String) → Option (List String)
visit u none = none
visit u (some out) = some (u ∷ out)

-- Kahn's loop; `push` puts a node into the queue.
module _ (push : String → List String → List String) (es : Edges) where
  unfoldable pub relax : List String → (String → ℕ) → List String → (String → ℕ) × List String
  unfolding decrement
  relax [] ind queue = (ind, queue)
  relax (v ∷ vs) ind queue =
      let ind' = decrement v ind in relax vs ind' (if eqb (ind' v) 0 then push v queue else queue)

  -- The nodes in the order in which they leave the queue; none if the fuel runs out.
  unfoldable pub kahn : ℕ → (String → ℕ) → List String → Option (List String)
  unfolding relax successors
  kahn fuel ind [] = some []
  kahn zero ind (u ∷ queue) = none
  kahn (suc fuel) ind (u ∷ queue) =
      let (ind', queue') = relax (successors es u) ind queue in visit u (kahn fuel ind' queue')

-- `queue.append(succ)`
unfoldable pub append_last : String → List String → List String
append_last v [] = v ∷ []
append_last v (u ∷ queue) = u ∷ append_last v queue

abbrev priority_of : Dict String TaskNode → String → ℕ
priority_of nodes id = elim (lookup id nodes) [ none ↦ 0 | some n ↦ n.priority ]

-- `(-self.nodes[a].priority, a) < (-self.nodes[b].priority, b)`
abbrev pub comes_first : Dict String TaskNode → String → String → Bool
comes_first nodes a b =
    let pa = priority_of nodes a in
    let pb = priority_of nodes b in ltb pb pa || (eqb pa pb && name_lt a b)

-- `heappush`: the heap as the list of its elements in the order in which `heappop` yields them.
unfoldable pub push_heap : Dict String TaskNode → String → List String → List String
push_heap nodes v [] = v ∷ []
push_heap nodes v (u ∷ heap) =
    let rest = push_heap nodes v heap in if comes_first nodes u v then u ∷ rest else v ∷ u ∷ heap

unfoldable pub push_each : Dict String TaskNode → List String → List String → List String
unfolding push_heap
push_each nodes [] heap = heap
push_each nodes (v ∷ vs) heap = push_each nodes vs (push_heap nodes v heap)

-- `nid for nid, d in indeg.items() if d == 0`
unfoldable pub sources : Edges → List String → List String
unfolding indegree
sources es ids = keep (λ id. eqb (indegree es id) 0) ids

-- `indeg[node.id] += 1` for each dependency: the KeyError of a node whose id is no key.
unfoldable pub check_ids : Dict String TaskNode → List TaskNode → Result (Unit {0})
check_ids nodes [] = ok tt
check_ids nodes (n ∷ ns) =
    let rest = check_ids nodes ns in
    elim n.dependencies [
      | [] ↦ rest
      | _ ∷ _ ↦ if has_key n.id nodes then rest else raise (key_error n.id)
    ]

abbrev pub then_run {ℓ κ} : {A : Type ℓ} {B : Type κ} → Result A → (A → Result B) → Result B
then_run (ok a) f = f a
then_run (raise e) f = raise e

abbrev pub counted : ℕ → Option (List String) → Result Bool
counted n none = raise out_of_fuel
counted n (some out) = ok (not (eqb (length out) n))

unfoldable pub has_cycle : TaskGraph → Result Bool
unfolding edges sources kahn append_last check_ids indegree
has_cycle g =
    let ids = keys g.nodes in
    let es = edges (values g.nodes) in
    then_run (check_ids g.nodes (values g.nodes))
      (λ _. counted (length ids) (kahn append_last es (length ids) (indegree es) (sources es ids)))

abbrev pub refuse_cycle {ℓ} : {A : Type ℓ} → Result A → Bool → Result A
refuse_cycle rest true = raise cyclic
refuse_cycle rest false = rest

abbrev pub returned : Option (List String) → Result (List String)
returned none = raise out_of_fuel
returned (some out) = ok out

-- Kahn's loop on a heap, from the sources in the order of the heap.
unfoldable pub heap_order : TaskGraph → Option (List String)
unfolding edges sources kahn push_each indegree
heap_order g =
    let ids = keys g.nodes in
    let es = edges (values g.nodes) in
    let queue = push_each g.nodes (sources es ids) [] in
    kahn (push_heap g.nodes) es (length ids) (indegree es) (push_each g.nodes queue [])

unfoldable pub topological_order : TaskGraph → Result (List String)
unfolding has_cycle heap_order
topological_order g =
    then_run (check_all_dependencies_exist g)
      (λ _. then_run (has_cycle g) (refuse_cycle (returned (heap_order g))))

unfoldable pub validate : TaskGraph → Result (Unit {0})
unfolding has_cycle
validate g =
    then_run (check_all_dependencies_exist g) (λ _. then_run (has_cycle g) (refuse_cycle (ok tt)))

-- The loop of `descendants`. The stack's top comes first, so `extend` puts the children on it last
-- to first.
unfoldable pub explore : Edges → ℕ → List String → List String → Option (List String)
unfolding successors
explore es fuel [] seen = some seen
explore es zero (u ∷ stack) seen = none
explore es (suc fuel) (u ∷ stack) seen =
    let again = explore es fuel stack seen in
    let deeper = explore es fuel (reverse (successors es u) ++ stack) (u ∷ seen) in
    if contains seen u then again else deeper

-- `descendants`; the set as a list without repetitions. Every edge is pushed at most twice.
unfoldable pub descendants : TaskGraph → String → Option (List String)
unfolding edges explore
descendants g node_id =
    let es = edges (values g.nodes) in
    if has_key node_id g.nodes
    then explore es (length es + length es) (reverse (successors es node_id)) []
    else some []
