-- ===== src/TaskGraph/Readiness.antt =====
-- app/multiagent/task_graph.py: `ready_tasks` never raises on a graph whose dependencies exist, and
-- returns the runnable nodes, each as often as it stands, the highest priority first.
use mathlib.Core.List.Perm
use mathlib.Core.List.{Perm}
use mega_deepagents.Base.{
  ℕ, ◌≤◌, String, Bool, true, false, none, some, List, [], ◌∷◌, ◌≡◌, refl, arith, ap, Bool-cases,
  Option-cases, inl, inr, string_eq, All, all, keep, ◌&&◌,
}
use mega_deepagents.Base.Dict.{Dict, lookup, values}
use mega_deepagents.TaskGraph.Node.{TaskNode, can_be_ready, is_succeeded}
use mega_deepagents.TaskGraph.Graph.{
  TaskGraph, ok, check_all_dependencies_exist, check_nodes, first_missing,
}
use mega_deepagents.TaskGraph.Ready.{
  deps_ok, precedes, insert_ready, sort_ready, collect_ready, ready_tasks, sorted,
}

abbrev succeeded_in : Dict String TaskNode → String → Bool
succeeded_in nodes dep = elim (lookup dep nodes) [ none ↦ false | some n ↦ is_succeeded n.status ]

-- Not ended and not started, with every dependency SUCCEEDED.
abbrev pub is_runnable : Dict String TaskNode → TaskNode → Bool
is_runnable nodes n = can_be_ready n.status && all (succeeded_in nodes) n.dependencies

first_missing-deps_ok :
    (g : TaskGraph) (deps : List String)
    → first_missing g deps ≡ none
    → deps_ok g.nodes deps ≡ ok (all (succeeded_in g.nodes) deps)
unfolding deps_ok
first_missing-deps_ok g [] h = refl
first_missing-deps_ok g (dep ∷ deps) h = ground (arith, first_missing-deps_ok g deps)

collect_ready-keep :
    (g : TaskGraph) (ns : List TaskNode)
    → check_nodes g ns ≡ ok tt
    → collect_ready g.nodes ns ≡ ok (keep (is_runnable g.nodes) ns)
unfolding collect_ready
collect_ready-keep g [] h = refl
collect_ready-keep g (n ∷ ns) h = elim (Option-cases (first_missing g n.dependencies)) [
  | inl e ↦ ground (arith, first_missing-deps_ok g n.dependencies e, collect_ready-keep g ns)
  | inr (d, e) ↦ ground arith
]

insert_ready-perm : (n : TaskNode) (ms : List TaskNode) → Perm (insert_ready n ms) (n ∷ ms)
unfolding insert_ready
insert_ready-perm n [] = Perm.rfl
insert_ready-perm n (m ∷ ms) = elim (Bool-cases (precedes m n)) [
  | inl e ↦ rw e (Perm.trans (Perm.cons m (insert_ready-perm n ms)) (Perm.swap n m ms))
  | inr e ↦ rw e Perm.rfl
]

pub sort_ready-perm : (ns : List TaskNode) → Perm (sort_ready ns) ns
unfolding sort_ready
sort_ready-perm [] = Perm.rfl
sort_ready-perm (n ∷ ns) =
    Perm.trans (insert_ready-perm n (sort_ready ns)) (Perm.cons n (sort_ready-perm ns))

-- Priorities do not rise along the list.
abbrev pub IsByPriority : List TaskNode → Type 0
IsByPriority [] = Unit
IsByPriority (n ∷ ns) = All (λ m. m.priority ≤ n.priority) ns × IsByPriority ns

insert_ready-All :
    (P : TaskNode → Type 0) (n : TaskNode) (ms : List TaskNode)
    → P n
    → All P ms
    → All P (insert_ready n ms)
unfolding insert_ready
insert_ready-All P n [] p h = (p, tt)
insert_ready-All P n (m ∷ ms) p h = elim (Bool-cases (precedes m n)) [
  | inl e ↦ rw e (h.0, insert_ready-All P n ms p h.1)
  | inr e ↦ rw e (p, h)
]

precedes-le : (m n : TaskNode) → precedes m n ≡ true → n.priority ≤ m.priority
precedes-le m n h = ground arith

not-precedes-le : (m n : TaskNode) → precedes m n ≡ false → m.priority ≤ n.priority
not-precedes-le m n h = ground arith

All-le_trans :
    (a b : ℕ) (ms : List TaskNode)
    → a ≤ b
    → All (λ m. m.priority ≤ a) ms
    → All (λ m. m.priority ≤ b) ms
All-le_trans a b [] le h = tt
All-le_trans a b (m ∷ ms) le h = (omega arith, All-le_trans a b ms le h.1)

insert_ready-IsByPriority :
    (n : TaskNode) (ms : List TaskNode) → IsByPriority ms → IsByPriority (insert_ready n ms)
unfolding insert_ready
insert_ready-IsByPriority n [] h = (tt, tt)
insert_ready-IsByPriority n (m ∷ ms) h = elim (Bool-cases (precedes m n)) [
  | inl e ↦ rw e (
    insert_ready-All (λ x. x.priority ≤ m.priority) n ms (precedes-le m n e) h.0,
    insert_ready-IsByPriority n ms h.1,
  )
  | inr e ↦ rw e (
    (not-precedes-le m n e, All-le_trans m.priority n.priority ms (not-precedes-le m n e) h.0),
    h,
  )
]

sort_ready-IsByPriority : (ns : List TaskNode) → IsByPriority (sort_ready ns)
unfolding sort_ready
sort_ready-IsByPriority [] = tt
sort_ready-IsByPriority (n ∷ ns) =
    insert_ready-IsByPriority n (sort_ready ns) (sort_ready-IsByPriority ns)

-- If every dependency of the graph exists, ready_tasks returns a list: the nodes that are
-- PENDING or READY with every dependency SUCCEEDED, each as often as it stands, with
-- priorities that do not rise.
pub ready_tasks-exact :
    (g : TaskGraph)
    → check_all_dependencies_exist g ≡ ok tt
    → (ns : List TaskNode) × (ready_tasks g ≡ ok ns)
      × Perm ns (keep (is_runnable g.nodes) (values g.nodes))
      × IsByPriority ns
unfolding ready_tasks check_all_dependencies_exist
ready_tasks-exact g h =
    let ns = keep (is_runnable g.nodes) (values g.nodes) in
    (
      sort_ready ns,
      ap sorted (collect_ready-keep g (values g.nodes) h),
      sort_ready-perm ns,
      sort_ready-IsByPriority ns,
    )
