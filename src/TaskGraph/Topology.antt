-- ===== src/TaskGraph/Topology.antt =====
-- app/multiagent/task_graph.py: `has_cycle` and `topological_order` on a graph whose dependencies
-- exist.
use mega_deepagents.Base.{
  ℕ, zero, suc, ◌+◌, ◌≤◌, ◌<◌, String, true, false, ◌&&◌, ◌||◌, Option, none, some, List, [], ◌∷◌,
  ◌≡◌, ◌∙◌, sym, ap, subst, refl, arith, eqb, leb, length, contains, ◌==◌, string_eq, eq_self,
  eq→path, Bool-cases, Option-cases, inl, inr, All,
}
use mega_deepagents.Base.Dict.{Dict, lookup, has_key, keys, values, AllEntries, NodupKeys}
use mega_deepagents.TaskGraph.Node.{TaskNode}
use mega_deepagents.TaskGraph.Graph.{TaskGraph, ok, check_nodes, first_missing}
use mega_deepagents.TaskGraph.Search.{
  Edges, edges, edges_into, check_ids, append_last, push_heap, push_each,
}
use mega_deepagents.TaskGraph.Kahn.{one_if, occurrences, blocked, State, occurrences-contains}
use mega_deepagents.TaskGraph.Order.{has_edge, waiting-Pending}

pub append_last-pushed :
    (x v : String) (xs : List String)
    → occurrences v (append_last x xs) ≡ one_if (v == x) + occurrences v xs
unfolding append_last
append_last-pushed x v [] = refl
append_last-pushed x v (u ∷ xs) = omega (arith, append_last-pushed x v xs)

pub append_last-grown :
    (x : String) (xs : List String) → length (append_last x xs) ≡ suc (length xs)
unfolding append_last
append_last-grown x [] = refl
append_last-grown x (u ∷ xs) = ap suc (append_last-grown x xs)

module _ (nodes : Dict String TaskNode) where
  pub push_heap-pushed :
      (x v : String) (xs : List String)
      → occurrences v (push_heap nodes x xs) ≡ one_if (v == x) + occurrences v xs
  unfolding push_heap
  push_heap-pushed x v [] = refl
  push_heap-pushed x v (u ∷ xs) = ground (arith, push_heap-pushed x v xs)

  pub push_heap-grown :
      (x : String) (xs : List String) → length (push_heap nodes x xs) ≡ suc (length xs)
  unfolding push_heap
  push_heap-grown x [] = refl
  push_heap-grown x (u ∷ xs) = ground (arith, push_heap-grown x xs)

  pub push_each-pushed :
      (v : String) (xs heap : List String)
      → occurrences v (push_each nodes xs heap) ≡ occurrences v xs + occurrences v heap
  unfolding push_each
  push_each-pushed v [] heap = omega arith
  push_each-pushed v (x ∷ xs) heap =
      omega (arith, push_each-pushed v xs (push_heap nodes x heap), push_heap-pushed x v heap)

  pub push_each-grown :
      (xs heap : List String) → length (push_each nodes xs heap) ≡ length xs + length heap
  unfolding push_each
  push_each-grown [] heap = omega arith
  push_each-grown (x ∷ xs) heap =
      omega (arith, push_each-grown xs (push_heap nodes x heap), push_heap-grown x heap)

blocked-some :
    (vs : List String) (ind : String → ℕ)
    → 1 ≤ blocked vs ind
    → (v : String) × (contains vs v ≡ true) × (1 ≤ ind v)
blocked-some [] ind h = absurd (omega (arith, h))
blocked-some (v ∷ vs) ind h = elim (Bool-cases (eqb (ind v) 0)) [
  | inl e ↦
      let (w, node, pos) = blocked-some vs ind (omega (arith, rw e at h)) in (w, ground arith, pos)
  | inr e ↦ (v, ground (arith, eq_self v), ground arith)
]

pub blocked-none :
    (vs : List String) (ind : String → ℕ) (v : String)
    → blocked vs ind ≡ 0
    → contains vs v ≡ true
    → ind v ≡ 0
blocked-none [] ind v h c = cc c
blocked-none (x ∷ vs) ind v h c = ground (arith, blocked-none vs ind v, eq→path v x)

-- An edge along which the rank does not rise.
abbrev pub Violated : Edges → (String → ℕ) → Type 0
Violated es rank = (v : String) × (w : String) × (has_edge es w v ≡ true) × (rank v ≤ rank w)

module _ (es : Edges) (ids : List String)
    (from : (w v : String) → has_edge es w v ≡ true → contains ids w ≡ true) (left : String → ℕ)
    (last : List String) (st : State ids es left [] last) where
  undone : (w : String) → contains ids w ≡ true → contains last w ≡ false → 1 ≤ left w
  undone w node free = ground (arith, st.settled w, occurrences-contains w last)

  stuck-Violated :
      (rank : String → ℕ) (n : ℕ) (v : String) → rank v < n → 1 ≤ left v → Violated es rank
  stuck-Violated rank zero v lt pos = absurd (omega (arith, lt))
  stuck-Violated rank (suc n) v lt pos =
      let (w, edge, free) = waiting-Pending es last v (omega (arith, pos, st.counted v)) in
      elim (Bool-cases (leb (rank v) (rank w))) [
        | inl e ↦ (v, w, edge, ground arith)
        | inr e ↦ stuck-Violated rank n w (ground arith) (undone w (from w v edge) free)
      ]

  pub blocked-Violated : (rank : String → ℕ) → 1 ≤ blocked ids left → Violated es rank
  blocked-Violated rank h =
      let (v, node, pos) = blocked-some ids left h in
      stuck-Violated rank (suc (rank v)) v (omega arith) pos

has_edge-into :
    (id : String) (deps : List String) (rest : Edges) (w v : String)
    → has_edge (edges_into id deps rest) w v ≡ (id == v && contains deps w || has_edge rest w v)
has_edge-into id [] rest w v = ground arith
has_edge-into id (dep ∷ deps) rest w v =
    ground (arith, has_edge-into id deps rest w v, eq→path dep w, eq→path w dep)

abbrev pub deps_of : Option TaskNode → List String
deps_of none = []
deps_of (some n) = n.dependencies

-- The edges are the dependencies of the nodes.
pub has_edge-edges :
    (d : Dict String TaskNode) (w v : String)
    → AllEntries (λ k n. k ≡ n.id) d
    → NodupKeys d
    → has_edge (edges (values d)) w v ≡ contains (deps_of (lookup v d)) w
unfolding edges lookup
has_edge-edges [] w v keyed nodup = refl
has_edge-edges ((k, n) ∷ d) w v keyed nodup = elim (Bool-cases (v == k)) [
  | inl e ↦
      let p = eq→path v k e in
      let gone : lookup v d ≡ none = subst (λ (x : String). lookup x d ≡ none) (sym p) nodup.0 in
      let rest : has_edge (edges (values d)) w v ≡ false =
        has_edge-edges d w v keyed.1 nodup.1 ∙ ap (λ o. contains (deps_of o) w) gone in
      let own : (n.id == v) ≡ true =
        subst (λ (x : String). (x == v) ≡ true) (p ∙ keyed.0) (eq_self v) in
      has_edge-into n.id n.dependencies (edges (values d)) w v ∙ rw (own, rest, e) (ground arith)
  | inr e ↦
      let other : (n.id == v) ≡ false =
        subst (λ (x : String). (x == v) ≡ false) keyed.0 (ground (arith, eq→path k v, eq_self v)) in
      has_edge-into n.id n.dependencies (edges (values d)) w v
      ∙ rw (other, e) (has_edge-edges d w v keyed.1 nodup.1)
]

first_missing-has_key :
    (g : TaskGraph) (deps : List String) (w : String)
    → first_missing g deps ≡ none
    → contains deps w ≡ true
    → has_key w g.nodes ≡ true
first_missing-has_key g [] w h c = cc c
first_missing-has_key g (dep ∷ deps) w h c =
    ground (arith, first_missing-has_key g deps w, eq→path dep w, eq→path w dep)

pub edges_from :
    (g : TaskGraph) (ns : List TaskNode) (w v : String)
    → check_nodes g ns ≡ ok tt
    → has_edge (edges ns) w v ≡ true
    → has_key w g.nodes ≡ true
unfolding edges
edges_from g [] w v h e = cc e
edges_from g (n ∷ ns) w v h e = elim (Option-cases (first_missing g n.dependencies)) [
  | inl fine ↦ ground (
    arith,
    has_edge-into n.id n.dependencies (edges ns) w v,
    first_missing-has_key g n.dependencies w fine,
    edges_from g ns w v,
  )
  | inr (d, missing) ↦ ground arith
]

pub ids_known :
    (d e : Dict String TaskNode)
    → AllEntries (λ k n. k ≡ n.id) d
    → ((v : String) → contains (keys d) v ≡ true → contains (keys e) v ≡ true)
    → All (λ n. contains (keys e) n.id ≡ true) (values d)
ids_known [] e keyed sub = tt
ids_known ((k, n) ∷ d) e keyed sub = (
  subst (λ (x : String). contains (keys e) x ≡ true) keyed.0 (sub k (ground (arith, eq_self k))),
  ids_known d e keyed.1 (λ v h. sub v (ground arith)),
)

pub check_ids-ok :
    (d : Dict String TaskNode) (ns : List TaskNode)
    → All (λ n. has_key n.id d ≡ true) ns
    → check_ids d ns ≡ ok tt
unfolding check_ids
check_ids-ok d [] h = refl
check_ids-ok d (n ∷ ns) h = ground (arith, check_ids-ok d ns h.1)
