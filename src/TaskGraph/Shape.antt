-- ===== src/TaskGraph/Shape.antt =====
-- app/multiagent/task_graph.py: graphs that have the same nodes with the same dependencies.
use mega_deepagents.Base.{
  ℕ, String, true, false, some, List, ◌≡◌, ◌∙◌, sym, refl, arith, string_eq, Bool-cases,
  Option-cases, inl, inr, eq→path, ◌==◌, subst, contains,
}
use mega_deepagents.Base.Dict.{
  lookup, has_key, lookup-insert, AllEntries-insert, insert-NodupKeys, AllEntries-lookup,
}
use mega_deepagents.TaskGraph.Node.{TaskNode, TaskNodeStatus, is_legal_transition}
use mega_deepagents.TaskGraph.Graph.{TaskGraph, put_node, update_status}
use mega_deepagents.TaskGraph.Graph
use mega_deepagents.TaskGraph.Order.{IsKeyed, dependencies_of}
use mega_deepagents.TaskGraph.Ranks.{IsRanked, Needs, dependencies_of-found}

pub record IsReshaped (g g' : TaskGraph) : Type 0 where
  pub keyed : IsKeyed g → IsKeyed g'
  pub same_dependencies : (v : String) → dependencies_of g' v ≡ dependencies_of g v
  pub same_keys : (v : String) → has_key v g'.nodes ≡ has_key v g.nodes

pub IsReshaped-refl : (g : TaskGraph) → IsReshaped g g
IsReshaped-refl g = record { keyed = λ k. k; same_dependencies = λ v. refl; same_keys = λ v. refl }

pub IsReshaped-trans :
    {g g' g'' : TaskGraph} → IsReshaped g g' → IsReshaped g' g'' → IsReshaped g g''
IsReshaped-trans s s' = record {
  keyed = λ k. s'.keyed (s.keyed k);
  same_dependencies = λ v. s'.same_dependencies v ∙ s.same_dependencies v;
  same_keys = λ v. s'.same_keys v ∙ s.same_keys v;
}

pub IsReshaped-IsRanked : (g g' : TaskGraph) → IsReshaped g g' → IsRanked g → IsRanked g'
IsReshaped-IsRanked g g' s r = record {
  keyed = s.keyed r.keyed;
  known = λ v w n. s.same_keys w ∙ r.known v w (needed v w n);
  rank = r.rank;
  rises = λ v w n. r.rises v w (needed v w n);
}
  where
    needed : (v w : String) → Needs g' v w → Needs g v w
    needed v w n = subst (λ (ds : List String). contains ds w ≡ true) (s.same_dependencies v) n

-- A node is replaced by one with its id and dependencies.
module _ (g : TaskGraph) (now : ℕ) (id : String) (n n' : TaskNode)
    (found : lookup id g.nodes ≡ some n) (same_id : n'.id ≡ n.id)
    (same : n'.dependencies ≡ n.dependencies) where
  pub put_node-IsReshaped : IsReshaped g (put_node now id n' g)
  put_node-IsReshaped = record {
    keyed = λ k. record {
      keyed =
          AllEntries-insert (λ k n. k ≡ n.id) id n' g.nodes k.keyed
            (AllEntries-lookup (λ k n. k ≡ n.id) id g.nodes k.keyed found ∙ sym same_id);
      nodup = insert-NodupKeys id n' g.nodes k.nodup;
    };
    same_dependencies = λ v. elim (Bool-cases (v == id)) [
      | inl e ↦
          let here : lookup v g.nodes ≡ some n = rw (eq→path v id e) found in
          dependencies_of-found (put_node now id n' g) v n'
            (lookup-insert v id n' g.nodes ∙ rw e refl)
          ∙ same
          ∙ sym (dependencies_of-found g v n here)
      | inr e ↦ ground (arith, lookup-insert v id n' g.nodes)
    ];
    same_keys = λ v. ground (arith, lookup-insert v id n' g.nodes, eq→path v id);
  }

pub update_status-IsReshaped :
    (g : TaskGraph) (id : String) (status : TaskNodeStatus) (now : ℕ)
    → IsReshaped g (update_status g id status now).0
unfolding update_status Graph.with_status
update_status-IsReshaped g id status now = elim (Option-cases (lookup id g.nodes)) [
  | inl absent ↦ rw absent (IsReshaped-refl g)
  | inr (n, found) ↦ elim (Bool-cases (is_legal_transition n.status status)) [
    | inl legal ↦ rw (found, legal) (put_node-IsReshaped g now id n _ found refl refl)
    | inr illegal ↦ rw (found, illegal) (IsReshaped-refl g)
  ]
]

pub lookup-update_status_other :
    (g : TaskGraph) (id k : String) (status : TaskNodeStatus) (now : ℕ)
    → (k == id) ≡ false
    → lookup k (update_status g id status now).0.nodes ≡ lookup k g.nodes
unfolding update_status
lookup-update_status_other g id k status now other = elim (Option-cases (lookup id g.nodes)) [
  | inl absent ↦ rw absent refl
  | inr (n, found) ↦ elim (Bool-cases (is_legal_transition n.status status)) [
    | inl legal ↦ rw (found, legal) (lookup-insert k id _ g.nodes ∙ rw other refl)
    | inr illegal ↦ rw (found, illegal) refl
  ]
]
