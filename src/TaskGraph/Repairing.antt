-- ===== src/TaskGraph/Repairing.antt =====
-- app/multiagent/task_graph.py: `add_repair_task` keeps a plan a plan.
use mega_deepagents.Base.{
  ℕ, ◌+◌, ◌*◌, ◌<◌, String, true, false, Option, none, some, List, [], ◌∷◌, ◌≡◌, ◌∙◌, ap, subst,
  refl, arith, contains, string_eq, Bool-cases, Option-cases, inl, inr, ◌⊎◌, map, if◌then◌else◌,
  eq→path, eq_self, ◌==◌,
}
use mega_deepagents.Base.Dict.{
  Dict, lookup, has_key, insert, lookup-insert, AllEntries, NodupKeys, AllEntries-insert,
  insert-NodupKeys,
}
use mega_deepagents.TaskGraph.Node.{TaskNode}
use mega_deepagents.TaskGraph.Graph.{TaskGraph}
use mega_deepagents.TaskGraph.Repair.{redirect, redirect_all}
use mega_deepagents.TaskGraph.Ranks.{IsRanked, Needs, dependencies_of-found}

contains-substituted :
    (target repair : String) (ds : List String) (w : String)
    → contains (map (λ d. if d == target then repair else d) ds) w ≡ true
    → ((w ≡ repair) × (contains ds target ≡ true)) ⊎ (contains ds w ≡ true)
contains-substituted target repair [] w h = cc h
contains-substituted target repair (d ∷ ds) w h = ground (
  arith,
  contains-substituted target repair ds w,
  eq→path d target,
  eq→path w repair,
  eq→path w d,
  eq_self target,
)

redirect-needs :
    (target repair : String) (n : TaskNode) (w : String)
    → contains (redirect target repair n).dependencies w ≡ true
    → ((w ≡ repair) × (contains n.dependencies target ≡ true)) ⊎ (contains n.dependencies w ≡ true)
unfolding redirect
redirect-needs target repair n w h =
    ground (arith, contains-substituted target repair n.dependencies w)

abbrev pub redirected : String → String → Option TaskNode → Option TaskNode
redirected target repair none = none
redirected target repair (some n) = some (redirect target repair n)

lookup-redirect_all :
    (target repair k : String) (d : Dict String TaskNode)
    → lookup k (redirect_all target repair d) ≡ redirected target repair (lookup k d)
unfolding redirect_all lookup
lookup-redirect_all target repair k [] = refl
lookup-redirect_all target repair k ((j, n) ∷ d) =
    ground (arith, lookup-redirect_all target repair k d)

redirect_all-keyed :
    (target repair : String) (d : Dict String TaskNode)
    → AllEntries (λ k n. k ≡ n.id) d
    → AllEntries (λ k n. k ≡ n.id) (redirect_all target repair d)
unfolding redirect_all redirect
redirect_all-keyed target repair [] h = tt
redirect_all-keyed target repair ((j, n) ∷ d) h =
    (ground arith, redirect_all-keyed target repair d h.1)

redirect_all-NodupKeys :
    (target repair : String) (d : Dict String TaskNode)
    → NodupKeys d
    → NodupKeys (redirect_all target repair d)
unfolding redirect_all
redirect_all-NodupKeys target repair [] h = tt
redirect_all-NodupKeys target repair ((j, n) ∷ d) h = (
  rw (lookup-redirect_all target repair j d, h.0) refl,
  redirect_all-NodupKeys target repair d h.1,
)

-- A fresh node that has the dependencies of another, and takes its place in those of all nodes.
module _ (g : TaskGraph) (r : IsRanked g) (target repair : String) (t node : TaskNode)
    (found : lookup target g.nodes ≡ some t) (fresh : lookup repair g.nodes ≡ none)
    (named : repair ≡ node.id) (same : node.dependencies ≡ t.dependencies) where
  abbrev pub with_repair : TaskGraph
  with_repair = record g { nodes = redirect_all target repair (insert repair node g.nodes) }

  abbrev raised : String → ℕ
  raised v = if v == repair then 2 * r.rank target + 1 else 2 * r.rank v

  -- A node of the old graph is not the repair.
  old : (w : String) → has_key w g.nodes ≡ true → (w == repair) ≡ false
  old w h = elim (Bool-cases (w == repair)) [
    | inl e ↦ absurd (cc (fresh, h, ap (λ (x : String). has_key x g.nodes) (eq→path w repair e)))
    | inr e ↦ e
  ]

  -- Whose dependencies the node had before.
  abbrev origin : String → String
  origin v = if v == repair then target else v

  pub lookup-with_repair :
      (v : String)
      → lookup v with_repair.nodes
        ≡ redirected target repair (if v == repair then some node else lookup v g.nodes)
  lookup-with_repair v =
      lookup-redirect_all target repair v (insert repair node g.nodes)
      ∙ ap (redirected target repair) (lookup-insert v repair node g.nodes)

  Needs-cases :
      (v w : String)
      → Needs with_repair v w
      → ((w ≡ repair) × Needs g (origin v) target) ⊎ Needs g (origin v) w
  Needs-cases v w n = elim (Bool-cases (v == repair)) [
    | inl new ↦
        let here : lookup v with_repair.nodes ≡ some (redirect target repair node) =
          lookup-with_repair v ∙ rw new refl in
        let n' =
          subst (λ (ds : List String). contains ds w ≡ true)
            (dependencies_of-found with_repair v _ here) n in
        rw (new, dependencies_of-found g target t found, ← same)
          (redirect-needs target repair node w n')
    | inr other ↦ elim (Option-cases (lookup v g.nodes)) [
      | inl none_there ↦ ground (arith, lookup-with_repair v)
      | inr (m, there) ↦
          let here : lookup v with_repair.nodes ≡ some (redirect target repair m) =
            lookup-with_repair v ∙ rw (other, there) refl in
          let n' =
            subst (λ (ds : List String). contains ds w ≡ true)
              (dependencies_of-found with_repair v _ here) n in
          rw (other, dependencies_of-found g v m there) (redirect-needs target repair m w n')
    ]
  ]

  pub has_key-with_repair :
      (w : String) → has_key w with_repair.nodes ≡ (if w == repair then true else has_key w g.nodes)
  has_key-with_repair w = ground (arith, lookup-with_repair w)

  known_after : (v w : String) → Needs with_repair v w → has_key w with_repair.nodes ≡ true
  known_after v w n = elim (Needs-cases v w n) [
    | inl (new, _) ↦ has_key-with_repair w ∙ rw (new, eq_self repair) refl
    | inr before ↦
        let held = r.known (origin v) w before in has_key-with_repair w ∙ rw (old w held) held
  ]

  rises_after : (v w : String) → Needs with_repair v w → raised w < raised v
  rises_after v w n = elim (Needs-cases v w n) [
    | inl (new, before) ↦
        rw (new, eq_self repair) (ground (arith, r.rises (origin v) target before))
    | inr before ↦
        rw (old w (r.known (origin v) w before)) (ground (arith, r.rises (origin v) w before))
  ]

  -- The graph with the repair node in place can be numbered, too.
  pub with_repair-IsRanked : IsRanked with_repair
  with_repair-IsRanked = record {
    keyed = record {
      keyed =
          redirect_all-keyed target repair (insert repair node g.nodes)
            (AllEntries-insert _ repair node g.nodes r.keyed.keyed named);
      nodup =
          redirect_all-NodupKeys target repair (insert repair node g.nodes)
            (insert-NodupKeys repair node g.nodes r.keyed.nodup);
    };
    known = known_after;
    rank = raised;
    rises = rises_after;
  }
