-- ===== src/TaskGraph/Cycles.antt =====
-- app/multiagent/task_graph.py: `has_cycle` decides whether the dependencies can be ordered, and
-- `topological_order` orders them.
use mega_deepagents.Base.{
  ℕ, ◌+◌, ◌≤◌, String, Bool, true, false, not, Option, none, some, List, [], ◌∷◌, ◌≡◌, ◌∙◌, sym, ap,
  refl, arith, eqb, length, contains, string_eq, Bool-cases, inl, inr, All, is_some, eq_self,
}
use mega_deepagents.Base.Dict.{lookup, has_key, keys, values}
use mega_deepagents.TaskGraph.Node.{TaskNode}
use mega_deepagents.TaskGraph.Graph.{TaskGraph, ok, check_all_dependencies_exist}
use mega_deepagents.TaskGraph.Search.{
  Edges, edges, successors, indegree, sources, check_ids, append_last, push_heap, push_each,
  has_cycle, heap_order, topological_order,
}
use mega_deepagents.TaskGraph.Kahn
use mega_deepagents.TaskGraph.Kahn.{
  one_if, occurrences, waiting, blocked, Ends, InOrder, occurrences-contains, contains-occurrences,
}
use mega_deepagents.TaskGraph.Order
use mega_deepagents.TaskGraph.Order.{
  IsKeyed, dependencies_of, keys_once, contains-keys, targets-edges, start-Ends, has_edge,
  waiting-none, index, InOrder-index,
}
use mega_deepagents.TaskGraph.Topology.{
  append_last-pushed, append_last-grown, push_heap-pushed, push_heap-grown, push_each-pushed,
  push_each-grown, blocked-none, blocked-Violated, has_edge-edges, edges_from, ids_known,
  check_ids-ok, deps_of,
}

-- Each node of the list has its dependencies among those before it.
abbrev pub IsTopological : TaskGraph → List String → List String → Type 0
IsTopological g done [] = Unit
IsTopological g done (u ∷ out) =
    All (λ w. contains done w ≡ true) (dependencies_of g u) × IsTopological g (u ∷ done) out

All-contains :
    (deps done : List String)
    → ((w : String) → contains deps w ≡ true → contains done w ≡ true)
    → All (λ w. contains done w ≡ true) deps
All-contains [] done h = tt
All-contains (d ∷ deps) done h =
    (h d (ground (arith, eq_self d)), All-contains deps done (λ w c. h w (ground arith)))

module _ (g : TaskGraph) (k : IsKeyed g) (known : check_all_dependencies_exist g ≡ ok tt) where
  abbrev ids : List String
  ids = keys g.nodes

  abbrev es : Edges
  es = edges (values g.nodes)

  depends : (w v : String) → has_edge es w v ≡ contains (dependencies_of g v) w
  depends w v = has_edge-edges g.nodes w v k.keyed k.nodup ∙ same (lookup v g.nodes)
    where
      same :
          (o : Option _)
          → contains (deps_of o) w ≡ contains (elim o [ none ↦ [] | some n ↦ n.dependencies ]) w
      same none = refl
      same (some n) = refl

  from : (w v : String) → has_edge es w v ≡ true → contains ids w ≡ true
  unfolding check_all_dependencies_exist
  from w v e = contains-keys w g.nodes ∙ edges_from g (values g.nodes) w v known e

  -- A node with a dependency is a node of the graph.
  to_node : (w v : String) → has_edge es w v ≡ true → contains ids v ≡ true
  to_node w v e =
      contains-keys v g.nodes
      ∙ held (lookup v g.nodes) (sym (has_edge-edges g.nodes w v k.keyed k.nodup) ∙ e)
    where
      held : (o : Option _) → contains (deps_of o) w ≡ true → is_some o ≡ true
      held none h = cc h
      held (some n) h = refl

  targets : (u : String) → All (λ v. contains ids v ≡ true) (successors es u)
  targets u = targets-edges ids u (values g.nodes) (ids_known g.nodes g.nodes k.keyed (λ v h. h))

  fifo : Ends append_last ids es (length ids) (indegree es) (sources es ids) []
  fifo =
      start-Ends es ids (keys_once g.nodes k.nodup) targets append_last append_last-pushed
        append_last-grown (sources es ids) (λ v. refl) refl

  abbrev start : List String
  start = push_each g.nodes (push_each g.nodes (sources es ids) []) []

  heap : Ends (push_heap g.nodes) ids es (length ids) (indegree es) start []
  heap =
      start-Ends es ids (keys_once g.nodes k.nodup) targets (push_heap g.nodes)
        (push_heap-pushed g.nodes) (push_heap-grown g.nodes) start
        (λ v. omega (
          arith,
          push_each-pushed g.nodes v (push_each g.nodes (sources es ids) []) [],
          push_each-pushed g.nodes v (sources es ids) [],
        ))
        (omega (
          arith,
          push_each-grown g.nodes (push_each g.nodes (sources es ids) []) [],
          push_each-grown g.nodes (sources es ids) [],
        ))

  ids-ok : check_ids g.nodes (values g.nodes) ≡ ok tt
  ids-ok =
      check_ids-ok g.nodes (values g.nodes)
        (has_keys (values g.nodes) (ids_known g.nodes g.nodes k.keyed (λ v h. h)))
    where
      has_keys :
          (ns : List TaskNode)
          → All (λ n. contains ids n.id ≡ true) ns
          → All (λ n. has_key n.id g.nodes ≡ true) ns
      has_keys [] h = tt
      has_keys (n ∷ ns) h = (sym (contains-keys n.id g.nodes) ∙ h.0, has_keys ns h.1)

  has_cycle-counted : has_cycle g ≡ ok (not (eqb (length fifo.out) (length ids)))
  unfolding has_cycle
  has_cycle-counted = rw (ids-ok, fifo.returns) refl

  pub has_cycle-decided : (b : Bool) × (has_cycle g ≡ ok b)
  has_cycle-decided = (not (eqb (length fifo.out) (length ids)), has_cycle-counted)

  -- Nothing waits at the end of the loop exactly when it visited every node.
  visited_all : length fifo.out + blocked ids fifo.left ≡ length ids
  visited_all = fifo.measured ∙ sizes
    where
      sizes : length (sources es ids) + blocked ids (indegree es) ≡ length ids
      sizes = Order.length-sources es ids

  cyclic-blocked : has_cycle g ≡ ok true → 1 ≤ blocked ids fifo.left
  cyclic-blocked h = ground (arith, visited_all, sym has_cycle-counted ∙ h)

  acyclic-blocked : has_cycle g ≡ ok false → blocked ids fifo.left ≡ 0
  acyclic-blocked h = ground (arith, visited_all, sym has_cycle-counted ∙ h)

  -- If every node stands under its own id, no key stands twice, every dependency exists and
  -- has_cycle answers True, then however the nodes are numbered, some node has a dependency
  -- whose number is not below its own.
  pub has_cycle-Violated :
      has_cycle g ≡ ok true
      → (rank : String → ℕ)
      → (v : String) × (w : String) × (contains (dependencies_of g v) w ≡ true) × (rank v ≤ rank w)
  has_cycle-Violated h rank =
      let (v, w, edge, le) =
        blocked-Violated es ids from fifo.left fifo.last fifo.state rank (cyclic-blocked h) in
      (v, w, sym (depends w v) ∙ edge, le)

  -- A loop that left nothing waiting has taken every node once.
  taken_once :
      (left : String → ℕ) (last : List String)
      → Kahn.State ids es left [] last
      → blocked ids left ≡ 0
      → (v : String) → occurrences v last ≡ one_if (contains ids v)
  taken_once left last st none_left v = elim (Bool-cases (contains ids v)) [
    | inl node ↦ ground (arith, st.settled v, blocked-none ids left v none_left node)
    | inr other ↦ ground (arith, st.settled v)
  ]

  fifo-all :
      has_cycle g ≡ ok false → (v : String) → contains ids v ≡ true → contains fifo.out v ≡ true
  fifo-all h v node = there (
      omega (
        arith,
        fifo.gathered v,
        taken_once fifo.left fifo.last fifo.state (acyclic-blocked h) v,
        ap one_if node,
      ))
    where
      there : occurrences v fifo.out ≡ 1 → contains fifo.out v ≡ true
      there one = elim (Bool-cases (contains fifo.out v)) [
        | inl e ↦ e
        | inr e ↦ absurd (omega (arith, one, occurrences-contains v fifo.out e))
      ]

  heap-none : has_cycle g ≡ ok false → blocked ids heap.left ≡ 0
  heap-none h = elim (Bool-cases (eqb (blocked ids heap.left) 0)) [
    | inl e ↦ ground arith
    | inr e ↦
        let (v, w, edge, le) =
          blocked-Violated es ids from heap.left heap.last heap.state (index fifo.out)
            (ground arith) in
        let all = fifo-all h v (to_node w v edge) in
        elim (InOrder-index es [] fifo.out w v fifo.ordered all edge) [
          | inl c ↦ cc c
          | inr lt ↦ absurd (omega (arith, lt, le))
        ]
  ]

  in_order : (done out : List String) → InOrder es done out → IsTopological g done out
  in_order done [] o = tt
  in_order done (u ∷ out) o = (
    All-contains (dependencies_of g u) done (λ w c. waiting-none es done u w o.0 (depends w u ∙ c)),
    in_order (u ∷ done) out o.1,
  )

  -- If every node stands under its own id, no key stands twice, every dependency exists and
  -- has_cycle answers False, topological_order returns a list in which each node of the graph
  -- stands exactly once, after all of its dependencies.
  pub topological_order-sorts :
      has_cycle g ≡ ok false
      → (out : List String) × (topological_order g ≡ ok out)
        × IsTopological g [] out
        × ((v : String) → occurrences v out ≡ one_if (has_key v g.nodes))
  unfolding topological_order heap_order
  topological_order-sorts h = (
    heap.out,
    rw (known, h, heap.returns) refl,
    in_order [] heap.out heap.ordered,
    λ v. omega (
      arith,
      heap.gathered v,
      taken_once heap.left heap.last heap.state (heap-none h) v,
      ap one_if (contains-keys v g.nodes),
    ),
  )
