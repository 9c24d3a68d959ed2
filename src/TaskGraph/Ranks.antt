-- ===== src/TaskGraph/Ranks.antt =====
-- app/multiagent/task_graph.py: a plan that can be carried out. Its dependencies exist and have no
-- cycle, which is so exactly when the nodes can be numbered with every dependency below.
use mega_deepagents.Base.{
  ℕ, ◌<◌, String, true, false, Option, none, some, List, [], ◌∷◌, ◌≡◌, ◌∙◌, ap, subst, refl, arith,
  contains, string_eq, Bool-cases, inl, inr, All, ◌⊎◌, eq→path, eq_self, ◌==◌,
}
use mega_deepagents.Base.Dict.{Dict, lookup, has_key, values, AllEntries, entries-lookup}
use mega_deepagents.TaskGraph.Node.{TaskNode}
use mega_deepagents.TaskGraph.Graph.{
  TaskGraph, ok, check_all_dependencies_exist, check_nodes, first_missing,
}
use mega_deepagents.TaskGraph.Search.{has_cycle, edges}
use mega_deepagents.TaskGraph.Kahn.{occurrences, one_if, occurrences-contains}
use mega_deepagents.TaskGraph.Order.{IsKeyed, dependencies_of, index, has_edge}
use mega_deepagents.TaskGraph.Topology.{edges_from, has_edge-edges, deps_of}
use mega_deepagents.TaskGraph.Cycles
use mega_deepagents.TaskGraph.Cycles.{IsTopological}

-- What `validate` asks of a graph whose nodes stand under their ids.
pub record IsPlan (g : TaskGraph) : Type 0 where
  pub keyed : IsKeyed g
  pub complete : check_all_dependencies_exist g ≡ ok tt
  pub acyclic : has_cycle g ≡ ok false

abbrev pub Needs : TaskGraph → String → String → Type 0
Needs g v w = contains (dependencies_of g v) w ≡ true

pub record IsRanked (g : TaskGraph) : Type 0 where
  pub keyed : IsKeyed g
  pub known : (v w : String) → Needs g v w → has_key w g.nodes ≡ true
  pub rank : String → ℕ
  pub rises : (v w : String) → Needs g v w → rank w < rank v

All-contains :
    (deps done : List String) (w : String)
    → All (λ x. contains done x ≡ true) deps
    → contains deps w ≡ true
    → contains done w ≡ true
All-contains [] done w h c = cc c
All-contains (d ∷ deps) done w h c = ground (arith, All-contains deps done w h.1, eq→path w d)

IsTopological-index :
    (g : TaskGraph) (done out : List String) (v w : String)
    → IsTopological g done out
    → contains out v ≡ true
    → Needs g v w
    → (contains done w ≡ true) ⊎ (index out w < index out v)
IsTopological-index g done [] v w h c n = cc c
IsTopological-index g done (u ∷ out) v w h c n = elim (Bool-cases (v == u)) [
  | inl here ↦
      let own : Needs g u w = subst (λ (x : String). Needs g x w) (eq→path v u here) n in
      inl (All-contains (dependencies_of g u) done w h.0 own)
  | inr later ↦
      let next = IsTopological-index g (u ∷ done) out v w h.1 (ground arith) n in
      ground (arith, next, eq→path w u)
]

pub dependencies_of-found :
    (g : TaskGraph) (v : String) (n : TaskNode)
    → lookup v g.nodes ≡ some n
    → dependencies_of g v ≡ n.dependencies
dependencies_of-found g v n h = ground arith

Needs-has_edge :
    (g : TaskGraph) (v w : String)
    → IsKeyed g
    → Needs g v w
    → has_edge (edges (values g.nodes)) w v ≡ true
Needs-has_edge g v w k n = has_edge-edges g.nodes w v k.keyed k.nodup ∙ same (lookup v g.nodes) ∙ n
  where
    same :
        (o : Option TaskNode)
        → contains (deps_of o) w ≡ contains (elim o [ none ↦ [] | some m ↦ m.dependencies ]) w
    same none = refl
    same (some m) = refl

occurs-contains : (v : String) (out : List String) → occurrences v out ≡ 1 → contains out v ≡ true
occurs-contains v out one = elim (Bool-cases (contains out v)) [
  | inl e ↦ e
  | inr e ↦ absurd (omega (arith, one, occurrences-contains v out e))
]

Needs-known :
    (g : TaskGraph) (v w : String)
    → IsKeyed g
    → check_all_dependencies_exist g ≡ ok tt
    → Needs g v w
    → has_key w g.nodes ≡ true
unfolding check_all_dependencies_exist
Needs-known g v w k complete n =
    edges_from g (values g.nodes) w v complete (Needs-has_edge g v w k n)

Needs-has_key : (g : TaskGraph) (v w : String) → Needs g v w → has_key v g.nodes ≡ true
Needs-has_key g v w n = ground arith

-- The nodes of a plan can be numbered with every dependency below.
pub IsPlan-IsRanked : (g : TaskGraph) → IsPlan g → IsRanked g
IsPlan-IsRanked g p =
    let (out, _, sorted, once) = Cycles.topological_order-sorts g p.keyed p.complete p.acyclic in
    record {
      keyed = p.keyed;
      known = λ v w n. Needs-known g v w p.keyed p.complete n;
      rank = index out;
      rises = λ v w n.
          elim (IsTopological-index g [] out v w sorted
            (occurs-contains v out (once v ∙ ap one_if (Needs-has_key g v w n))) n) [
              | inl c ↦ cc c
              | inr lt ↦ lt
            ];
    }

-- In a keyed graph whose dependencies exist, a numbering shows that there is no cycle.
ranked-acyclic :
    (g : TaskGraph) → IsRanked g → check_all_dependencies_exist g ≡ ok tt → has_cycle g ≡ ok false
ranked-acyclic g r complete =
    let (b, answer) = Cycles.has_cycle-decided g r.keyed complete in
    elim (Bool-cases b) [
      | inl e ↦
          let (v, w, n, le) =
            Cycles.has_cycle-Violated g r.keyed complete (answer ∙ rw e refl) r.rank in
          absurd (omega (arith, r.rises v w n, le))
      | inr e ↦ answer ∙ rw e refl
    ]

first_missing-none :
    (g : TaskGraph) (deps : List String)
    → ((w : String) → contains deps w ≡ true → has_key w g.nodes ≡ true)
    → first_missing g deps ≡ none
first_missing-none g [] h = refl
first_missing-none g (d ∷ deps) h =
    ground (arith, h d, eq_self d, first_missing-none g deps (λ w c. h w (ground arith)))

check_nodes-ok :
    (g : TaskGraph) (d : Dict String TaskNode)
    → AllEntries (λ k n. lookup k g.nodes ≡ some n) d
    → ((v w : String) → Needs g v w → has_key w g.nodes ≡ true)
    → check_nodes g (values d) ≡ ok tt
check_nodes-ok g [] h known = refl
check_nodes-ok g ((k, n) ∷ d) h known =
    rw
      (first_missing-none g n.dependencies
        (λ w c. known k w (rw (dependencies_of-found g k n h.0) c)))
      (check_nodes-ok g d h.1 known)

pub IsRanked-IsPlan : (g : TaskGraph) → IsRanked g → IsPlan g
unfolding check_all_dependencies_exist
IsRanked-IsPlan g r =
    let complete : check_all_dependencies_exist g ≡ ok tt =
      check_nodes-ok g g.nodes (entries-lookup g.nodes r.keyed.nodup) r.known in
    record { keyed = r.keyed; complete = complete; acyclic = ranked-acyclic g r complete }
