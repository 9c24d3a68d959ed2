-- ===== src/TaskGraph/Substitution.antt =====
-- app/multiagent/task_graph.py: the steps of `add_repair_task` after the node was made.
use mega_deepagents.Base.{
  ℕ, String, Bool, true, false, List, [], ◌∷◌, ◌≡◌, ◌∙◌, sym, refl, arith, contains, map, string_eq,
  if◌then◌else◌, eq_self, eq→path, ◌==◌, Bool-cases, inl, inr,
}
use mega_deepagents.Base.Dict.{lookup}
use mega_deepagents.TaskGraph.Node
use mega_deepagents.TaskGraph.Node.{TaskNode}
use mega_deepagents.TaskGraph.Graph.{TaskGraph}
use mega_deepagents.TaskGraph.Repair.{redirect, retire}
use mega_deepagents.TaskGraph.Shape.{
  IsReshaped, IsReshaped-trans, update_status-IsReshaped, lookup-update_status_other,
}

abbrev pub substituted : String → String → List String → List String
substituted target repair = map (λ d. if d == target then repair else d)

pub retire-IsReshaped :
    (target : String) (done : Bool) (now : ℕ) (g : TaskGraph)
    → IsReshaped g (retire target done now g)
unfolding retire
retire-IsReshaped target true now g =
    IsReshaped-trans (update_status-IsReshaped g target Node.failed now)
      (update_status-IsReshaped _ target Node.skipped now)
retire-IsReshaped target false now g = update_status-IsReshaped g target Node.skipped now

pub lookup-retire_other :
    (target k : String) (done : Bool) (now : ℕ) (g : TaskGraph)
    → (k == target) ≡ false
    → lookup k (retire target done now g).nodes ≡ lookup k g.nodes
unfolding retire
lookup-retire_other target k true now g other =
    lookup-update_status_other _ target k Node.skipped now other
    ∙ lookup-update_status_other g target k Node.failed now other
lookup-retire_other target k false now g other =
    lookup-update_status_other g target k Node.skipped now other

substituted_absent :
    (target repair : String) (ds : List String)
    → contains ds target ≡ false
    → substituted target repair ds ≡ ds
substituted_absent target repair [] h = refl
substituted_absent target repair (d ∷ ds) h =
    ground (arith, substituted_absent target repair ds, eq→path d target, eq_self target)

pub redirect-dependencies :
    (target repair : String) (n : TaskNode)
    → (redirect target repair n).dependencies ≡ substituted target repair n.dependencies
unfolding redirect
redirect-dependencies target repair n = elim (Bool-cases (contains n.dependencies target)) [
  | inl e ↦ rw e refl
  | inr e ↦ rw e (sym (substituted_absent target repair n.dependencies e))
]

pub redirect_absent :
    (target repair : String) (n : TaskNode)
    → contains n.dependencies target ≡ false
    → redirect target repair n ≡ n
unfolding redirect
redirect_absent target repair n h = rw h refl
