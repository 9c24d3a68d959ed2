-- ===== src/TaskGraph/Order.antt =====
-- app/multiagent/task_graph.py: what Kahn's loop decides about the dependencies of a graph.
use mega_deepagents.Base.{
  ℕ, suc, ◌+◌, ◌≤◌, ◌<◌, String, Bool, true, false, not, ◌&&◌, ◌||◌, none, some, List, [], ◌∷◌, ◌≡◌,
  ◌∙◌, sym, ap, subst, refl, arith, if◌then◌else◌, eqb, length, contains, keep, ◌==◌, string_eq,
  eq_self, eq→path, Bool-cases, inl, inr, All, is_some, ◌⊎◌,
}
use mega_deepagents.Base.Dict.{Dict, lookup, has_key, keys, AllEntries, NodupKeys}
use mega_deepagents.TaskGraph.Node.{TaskNode}
use mega_deepagents.TaskGraph.Graph.{TaskGraph}
use mega_deepagents.TaskGraph.Search.{Edges, edges, edges_into, successors, indegree, sources}
use mega_deepagents.TaskGraph.Kahn.{
  one_if, occurrences, waiting, blocked, Settled, State, Ends, InOrder, kahn-Ends, waiting-nil,
  occurrences-contains,
}

-- The nodes stand under their own ids, each key once.
pub record IsKeyed (g : TaskGraph) : Type 0 where
  pub keyed : AllEntries (λ k n. k ≡ n.id) g.nodes
  pub nodup : NodupKeys g.nodes

abbrev pub dependencies_of : TaskGraph → String → List String
dependencies_of g v = elim (lookup v g.nodes) [ none ↦ [] | some n ↦ n.dependencies ]

pub contains-keys : (v : String) (d : Dict String TaskNode) → contains (keys d) v ≡ has_key v d
unfolding lookup
contains-keys v [] = refl
contains-keys v ((k, n) ∷ d) = ground (arith, contains-keys v d, eq→path v k, eq→path k v)

pub keys_once :
    (d : Dict String TaskNode)
    → NodupKeys d
    → (v : String) → contains (keys d) v ≡ true
    → occurrences v (keys d) ≡ 1
unfolding lookup
keys_once [] u v h = cc h
keys_once ((k, n) ∷ d) u v h = elim (Bool-cases (v == k)) [
  | inl e ↦
      let absent : contains (keys d) v ≡ false =
        contains-keys v d
        ∙ ap (λ o. is_some o)
            (subst (λ (x : String). lookup x d ≡ none) (sym (eq→path v k e)) u.0) in
      rw (e, occurrences-contains v (keys d) absent) (omega arith)
  | inr e ↦ ground (arith, keys_once d u.1 v)
]

occurrences-keep :
    (p : String → Bool) (v : String) (xs : List String)
    → occurrences v (keep p xs) ≡ (if p v then occurrences v xs else 0)
occurrences-keep p v [] = ground arith
occurrences-keep p v (x ∷ xs) = ground (arith, occurrences-keep p v xs, eq→path v x)

sources-Settled :
    (es : Edges) (ids : List String)
    → ((v : String) → contains ids v ≡ true → occurrences v ids ≡ 1)
    → Settled ids (indegree es) (sources es ids) (λ v. 0)
unfolding sources
sources-Settled es ids once v = ground (
  arith,
  occurrences-keep (λ id. eqb (indegree es id) 0) v ids,
  once v,
  occurrences-contains v ids,
)

pub length-sources :
    (es : Edges) (ids : List String)
    → length (sources es ids) + blocked ids (indegree es) ≡ length ids
unfolding sources
length-sources es [] = refl
length-sources es (v ∷ vs) = ground (arith, length-sources es vs)

-- Every edge ends in a key.
targets-into :
    (ids : List String) (id u : String) (deps : List String) (rest : Edges)
    → contains ids id ≡ true
    → All (λ v. contains ids v ≡ true) (successors rest u)
    → All (λ v. contains ids v ≡ true) (successors (edges_into id deps rest) u)
unfolding successors
targets-into ids id u [] rest h hs = hs
targets-into ids id u (dep ∷ deps) rest h hs = elim (Bool-cases (dep == u)) [
  | inl e ↦ rw e (h, targets-into ids id u deps rest h hs)
  | inr e ↦ rw e (targets-into ids id u deps rest h hs)
]

pub targets-edges :
    (ids : List String) (u : String) (ns : List TaskNode)
    → All (λ n. contains ids n.id ≡ true) ns
    → All (λ v. contains ids v ≡ true) (successors (edges ns) u)
unfolding edges successors
targets-edges ids u [] h = tt
targets-edges ids u (n ∷ ns) h =
    targets-into ids n.id u n.dependencies (edges ns) h.0 (targets-edges ids u ns h.1)

module _ (es : Edges) (ids : List String)
    (once : (v : String) → contains ids v ≡ true → occurrences v ids ≡ 1)
    (targets : (u : String) → All (λ v. contains ids v ≡ true) (successors es u)) where
  start-State :
      (queue : List String)
      → ((v : String) → occurrences v queue ≡ occurrences v (sources es ids))
      → State ids es (indegree es) queue []
  start-State queue same = record {
    counted = λ v. sym (waiting-nil es v);
    settled = λ v. omega (arith, same v, sources-Settled es ids once v);
  }

  -- The loop, from a queue of the sources in any order, with a step for each node.
  pub start-Ends :
      (push : String → List String → List String)
      → ((x v : String) (xs : List String)
          → occurrences v (push x xs) ≡ one_if (v == x) + occurrences v xs)
      → ((x : String) (xs : List String) → length (push x xs) ≡ suc (length xs))
      → (queue : List String)
      → ((v : String) → occurrences v queue ≡ occurrences v (sources es ids))
      → length queue ≡ length (sources es ids)
      → Ends push ids es (length ids) (indegree es) queue []
  start-Ends push pushed grown queue same size =
      kahn-Ends push pushed grown ids once es targets (length ids) (indegree es) queue []
        (start-State queue same) (omega (arith, size, length-sources es ids))

-- The edge stands in the list.
abbrev pub has_edge : Edges → String → String → Bool
has_edge [] w v = false
has_edge ((u, x) ∷ es) w v = u == w && x == v || has_edge es w v

-- What still waits has a dependency that is not done.
abbrev pub Pending : Edges → List String → String → Type 0
Pending es done v = (w : String) × (has_edge es w v ≡ true) × (contains done w ≡ false)

pub waiting-Pending :
    (es : Edges) (done : List String) (v : String) → 1 ≤ waiting es done v → Pending es done v
waiting-Pending [] done v h = absurd (omega (arith, h))
waiting-Pending ((u, x) ∷ es) done v h = elim (Bool-cases (x == v && not (contains done u))) [
  | inl e ↦ (u, ground (arith, eq_self u), ground arith)
  | inr e ↦
      let (w, edge, free) = waiting-Pending es done v (omega (arith, rw e at h)) in
      (w, ground arith, free)
]

-- What waits for nothing has all its dependencies done.
pub waiting-none :
    (es : Edges) (done : List String) (v w : String)
    → waiting es done v ≡ 0
    → has_edge es w v ≡ true
    → contains done w ≡ true
waiting-none [] done v w h e = cc e
waiting-none ((u, x) ∷ es) done v w h e = ground (arith, waiting-none es done v w, eq→path u w)

-- The place of a node in the list.
abbrev pub index : List String → String → ℕ
index [] v = 0
index (u ∷ out) v = if v == u then 0 else suc (index out v)

-- In an order of the loop a dependency comes before the node that has it.
pub InOrder-index :
    (es : Edges) (done out : List String) (w v : String)
    → InOrder es done out
    → contains out v ≡ true
    → has_edge es w v ≡ true
    → (contains done w ≡ true) ⊎ (index out w < index out v)
InOrder-index es done [] w v o h e = cc h
InOrder-index es done (u ∷ out) w v o h e = elim (Bool-cases (v == u)) [
  | inl here ↦ inl (waiting-none es done u w o.0 (rw (eq→path v u here) at e))
  | inr later ↦ ground (arith, InOrder-index es (u ∷ done) out w v o.1, eq→path w u, eq→path u v)
]
