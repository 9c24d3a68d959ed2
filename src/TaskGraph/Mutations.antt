-- ===== src/TaskGraph/Mutations.antt =====
-- app/multiagent/task_graph.py: the mutators as one type, what each leaves of the version and of the
-- other nodes, and the life of a node's status.
use mega_deepagents.Base.{
  ℕ, ◌+◌, String, Bool, true, false, Option, some, List, [], ◌∷◌, ◌≡◌, refl, sym, subst, arith, ◌∙◌,
  Bool-cases, Option-cases, ◌⊎◌, inl, inr, string_eq, ◌==◌, eq→path, contains,
}
use mega_deepagents.Base.Dict.{lookup, has_key, lookup-insert}
use mega_deepagents.TaskGraph.Node.{
  TaskNode, TaskNodeStatus, ExecutionError, is_legal_transition, skipped, cancelled,
}
use mathlib.Core.Option.{some-injective}
use mega_deepagents.TaskGraph.Graph
use mega_deepagents.TaskGraph.Graph.{TaskGraph, Result, ok, raise, put_node}

pub data Mutation : Type 0 where
  add_node : TaskNode → Mutation
  update_status : String → TaskNodeStatus → Mutation
  assign_agent : String → Option String → Mutation
  record_attempt : String → Option ExecutionError → Mutation
  accept_artifact : String → String → Mutation

abbrev kept : TaskGraph → Result TaskGraph → TaskGraph
kept g (ok g') = g'
kept g (raise e) = g

unfoldable pub mutate : TaskGraph → ℕ → Mutation → TaskGraph
mutate g now (add_node n) = kept g (Graph.add_node g n now)
mutate g now (update_status id status) = (Graph.update_status g id status now).0
mutate g now (assign_agent id agent) = Graph.assign_agent g id agent now
mutate g now (record_attempt id error) = Graph.record_attempt g id error now
mutate g now (accept_artifact id artifact) = Graph.accept_artifact g id artifact now

-- Each mutator leaves the whole graph as it is, or raises its version by one.
pub mutate-version :
    (g : TaskGraph) (now : ℕ) (m : Mutation)
    → (mutate g now m ≡ g) ⊎ ((mutate g now m).version ≡ g.version + 1)
unfolding mutate Graph.add_node Graph.update_status Graph.assign_agent Graph.record_attempt
    Graph.accept_artifact
mutate-version g now (add_node n) = ground arith
mutate-version g now (update_status id status) = ground arith
mutate-version g now (assign_agent id agent) = ground arith
mutate-version g now (record_attempt id error) = ground arith
mutate-version g now (accept_artifact id artifact) = ground arith

-- The status is the same, or has moved along the table.
abbrev pub Moves : TaskNode → TaskNode → Type 0
Moves n n' = (n'.status ≡ n.status) ⊎ (is_legal_transition n.status n'.status ≡ true)

-- The node under `k` is still there, and its status has moved legally if at all.
abbrev pub Follows : TaskGraph → TaskGraph → String → TaskNode → Type 0
Follows g g' k n = (n' : TaskNode) × (lookup k g'.nodes ≡ some n') × Moves n n'

put_node-Follows :
    (g : TaskGraph) (now : ℕ) (id k : String) (n n₁ n₂ : TaskNode)
    → lookup id g.nodes ≡ some n₁
    → Moves n₁ n₂
    → lookup k g.nodes ≡ some n
    → Follows g (put_node now id n₂ g) k n
put_node-Follows g now id k n n₁ n₂ e move h = elim (Bool-cases (k == id)) [
  | inl same ↦ (
    n₂,
    lookup-insert k id n₂ g.nodes ∙ rw same,
    subst (λ (x : TaskNode). Moves x n₂) (some-injective n₁ n (sym e ∙ rw (eq→path k id same) at h))
        move,
  )
  | inr other ↦ (n, lookup-insert k id n₂ g.nodes ∙ rw other h, inl refl)
]

stays : (g : TaskGraph) (k : String) (n : TaskNode) → lookup k g.nodes ≡ some n → Follows g g k n
stays g k n h = (n, h, inl refl)

add_node-Follows :
    (g : TaskGraph) (now : ℕ) (k : String) (n fresh : TaskNode)
    → lookup k g.nodes ≡ some n
    → Follows g (kept g (Graph.add_node g fresh now)) k n
unfolding Graph.add_node
add_node-Follows g now k n fresh h = elim (Bool-cases (has_key fresh.id g.nodes)) [
  | inl taken ↦ rw taken (stays g k n h)
  | inr free ↦ rw free (n, lookup-insert k fresh.id fresh g.nodes ∙ rw (distinct free) h, inl refl)
]
  where
    distinct : has_key fresh.id g.nodes ≡ false → (k == fresh.id) ≡ false
    distinct free = ground arith

module _ (g : TaskGraph) (now : ℕ) (id k : String) (n : TaskNode)
    (h : lookup k g.nodes ≡ some n) where
  update_status-Follows :
      (status : TaskNodeStatus) → Follows g (Graph.update_status g id status now).0 k n
  unfolding Graph.update_status Graph.with_status
  update_status-Follows status = elim (Option-cases (lookup id g.nodes)) [
    | inl e ↦ rw e (stays g k n h)
    | inr (m, e) ↦ elim (Bool-cases (is_legal_transition m.status status)) [
      | inl legal ↦ rw (e, legal) (put_node-Follows g now id k n m _ e (inr legal) h)
      | inr illegal ↦ rw (e, illegal) (stays g k n h)
    ]
  ]

  assign_agent-Follows : (agent : Option String) → Follows g (Graph.assign_agent g id agent now) k n
  unfolding Graph.assign_agent
  assign_agent-Follows agent = elim (Option-cases (lookup id g.nodes)) [
    | inl e ↦ rw e (stays g k n h)
    | inr (m, e) ↦ rw e (put_node-Follows g now id k n m _ e (inl refl) h)
  ]

  record_attempt-Follows :
      (error : Option ExecutionError) → Follows g (Graph.record_attempt g id error now) k n
  unfolding Graph.record_attempt
  record_attempt-Follows error = elim (Option-cases (lookup id g.nodes)) [
    | inl e ↦ rw e (stays g k n h)
    | inr (m, e) ↦ rw e (put_node-Follows g now id k n m _ e (inl refl) h)
  ]

  accept_artifact-Follows :
      (artifact : String) → Follows g (Graph.accept_artifact g id artifact now) k n
  unfolding Graph.accept_artifact
  accept_artifact-Follows artifact = elim (Option-cases (lookup id g.nodes)) [
    | inl e ↦ rw e (stays g k n h)
    | inr (m, e) ↦ elim (Bool-cases (contains m.output_artifact_ids artifact)) [
      | inl old ↦ rw (e, old) (stays g k n h)
      | inr new ↦ rw (e, new) (put_node-Follows g now id k n m _ e (inl refl) h)
    ]
  ]

-- A mutator keeps every node of the graph under its key, with its status unchanged or moved
-- along the table of legal transitions.
pub mutate-Follows :
    (g : TaskGraph) (now : ℕ) (m : Mutation) (k : String) (n : TaskNode)
    → lookup k g.nodes ≡ some n
    → Follows g (mutate g now m) k n
unfolding mutate
mutate-Follows g now (add_node fresh) k n h = add_node-Follows g now k n fresh h
mutate-Follows g now (update_status id status) k n h = update_status-Follows g now id k n h status
mutate-Follows g now (assign_agent id agent) k n h = assign_agent-Follows g now id k n h agent
mutate-Follows g now (record_attempt id error) k n h = record_attempt-Follows g now id k n h error
mutate-Follows g now (accept_artifact id a) k n h = accept_artifact-Follows g now id k n h a

unfoldable pub mutate_all : TaskGraph → List (ℕ × Mutation) → TaskGraph
unfolding mutate
mutate_all g [] = g
mutate_all g ((now, m) ∷ ms) = mutate_all (mutate g now m) ms

-- `status in (SKIPPED, CANCELLED)`
abbrev pub is_closed : TaskNodeStatus → Bool
is_closed skipped = true
is_closed cancelled = true
is_closed _ = false

Moves-closed : (n n' : TaskNode) → is_closed n.status ≡ true → Moves n n' → n'.status ≡ n.status
unfolding is_legal_transition
Moves-closed n n' c m = ground arith

-- A node that is SKIPPED or CANCELLED is still there, with that status, after any sequence of
-- mutations.
pub mutate_all-closed :
    (ms : List (ℕ × Mutation)) (g : TaskGraph) (k : String) (n : TaskNode)
    → lookup k g.nodes ≡ some n
    → is_closed n.status ≡ true
    → (n' : TaskNode) × (lookup k (mutate_all g ms).nodes ≡ some n') × (n'.status ≡ n.status)
unfolding mutate_all
mutate_all-closed [] g k n h c = (n, h, refl)
mutate_all-closed ((now, m) ∷ ms) g k n h c =
    let (n₁, h₁, move) = mutate-Follows g now m k n h in
    let same = Moves-closed n n₁ c move in
    let (n₂, h₂, same') = mutate_all-closed ms (mutate g now m) k n₁ h₁ (rw same c) in
    (n₂, h₂, same' ∙ same)
