-- ===== src/Scheduler/Stepping.antt =====
-- app/multiagent/parallel_scheduler.py: which nodes `_step_to` brings to their target.
use mega_deepagents.Base.{
  ℕ, String, Bool, true, false, not, ◌&&◌, some, ◌≡◌, refl, sym, ◌∙◌, arith, inl, inr, Bool-cases,
  if◌then◌else◌, string_eq, eq_self, subst, is_some,
}
use mega_deepagents.Base.Dict.{lookup, lookup-insert}
use mega_deepagents.TaskGraph.Node.{TaskNode, TaskNodeStatus, is_legal_transition}
use mega_deepagents.TaskGraph.Graph
use mega_deepagents.TaskGraph.Graph.{TaskGraph, update_status}
use mega_deepagents.Scheduler.Sync.{
  status_of, is_at, is_verdict, is_ready, step_if, three_steps, step_to,
}

-- The graph has the node, and it is at that status.
abbrev pub StandsAt : TaskGraph → String → TaskNodeStatus → Type 0
StandsAt g id s = (n : TaskNode) × (lookup id g.nodes ≡ some n) × (n.status ≡ s)

abbrev moved : TaskNodeStatus → Bool → TaskNodeStatus → TaskNodeStatus → TaskNodeStatus
moved status allowed next s =
    if is_at status (some s) && allowed then (if is_legal_transition s next then next else s) else s

update_status-StandsAt :
    (g : TaskGraph) (id : String) (next s : TaskNodeStatus) (now : ℕ)
    → StandsAt g id s
    → StandsAt (update_status g id next now).0 id (if is_legal_transition s next then next else s)
unfolding update_status Graph.with_status
update_status-StandsAt g id next s now (n, e, at) = elim (Bool-cases (is_legal_transition s next)) [
  | inl legal ↦
      rw (e, at, legal)
        (
          Graph.with_status next now n,
          lookup-insert id id (Graph.with_status next now n) g.nodes ∙ rw (eq_self id) refl,
          refl,
        )
  | inr illegal ↦ rw (e, at, illegal) (n, e, at)
]

step_if-StandsAt :
    (g : TaskGraph) (id : String) (status : TaskNodeStatus) (allowed : Bool)
    (next s : TaskNodeStatus) (now : ℕ)
    → StandsAt g id s
    → StandsAt (step_if g id status allowed next now) id (moved status allowed next s)
step_if-StandsAt g id status allowed next s now (n, e, at) =
    elim (Bool-cases (is_at status (some s) && allowed)) [
      | inl yes_at ↦ rw (e, at, yes_at) (update_status-StandsAt g id next s now (n, e, at))
      | inr no_at ↦ rw (e, at, no_at) (n, e, at)
    ]

-- The statuses that `sync_back_to_dag` aims at.
abbrev pub is_target : TaskNodeStatus → Bool
is_target TaskNodeStatus.running = true
is_target TaskNodeStatus.succeeded = true
is_target TaskNodeStatus.failed = true
is_target _ = false

-- PENDING, READY and RUNNING.
abbrev pub is_unsettled : TaskNodeStatus → Bool
is_unsettled TaskNodeStatus.pending = true
is_unsettled TaskNodeStatus.ready = true
is_unsettled TaskNodeStatus.running = true
is_unsettled _ = false

abbrev settled : TaskNodeStatus → TaskNodeStatus → TaskNodeStatus
settled target s = if is_unsettled s then target else s

three_moves :
    (target s : TaskNodeStatus)
    → is_target target ≡ true
    → moved TaskNodeStatus.running (is_verdict target) target (
        moved TaskNodeStatus.ready
          (not (is_ready target))
          TaskNodeStatus.running
          (moved TaskNodeStatus.pending true TaskNodeStatus.ready s))
      ≡ settled target s
unfolding is_legal_transition
three_moves TaskNodeStatus.running s h = ground arith
three_moves TaskNodeStatus.succeeded s h = ground arith
three_moves TaskNodeStatus.failed s h = ground arith
three_moves TaskNodeStatus.pending s h = absurd (cc h)
three_moves TaskNodeStatus.ready s h = absurd (cc h)
three_moves TaskNodeStatus.skipped s h = absurd (cc h)
three_moves TaskNodeStatus.cancelled s h = absurd (cc h)

settled_there :
    (target s : TaskNodeStatus)
    → is_target target ≡ true
    → is_at target (some s) ≡ true
    → s ≡ settled target s
settled_there TaskNodeStatus.running s h e = ground arith
settled_there TaskNodeStatus.succeeded s h e = ground arith
settled_there TaskNodeStatus.failed s h e = ground arith
settled_there TaskNodeStatus.pending s h e = absurd (cc h)
settled_there TaskNodeStatus.ready s h e = absurd (cc h)
settled_there TaskNodeStatus.skipped s h e = absurd (cc h)
settled_there TaskNodeStatus.cancelled s h e = absurd (cc h)

three_steps-StandsAt :
    (g : TaskGraph) (id : String) (target s : TaskNodeStatus) (now : ℕ)
    → StandsAt g id s
    → StandsAt (three_steps g id target now) id (
        moved TaskNodeStatus.running (is_verdict target) target (
          moved TaskNodeStatus.ready
            (not (is_ready target))
            TaskNodeStatus.running
            (moved TaskNodeStatus.pending true TaskNodeStatus.ready s)))
unfolding three_steps
three_steps-StandsAt g id target s now h =
    step_if-StandsAt _ id TaskNodeStatus.running (is_verdict target) target _ now (
      step_if-StandsAt _ id TaskNodeStatus.ready (not (is_ready target)) TaskNodeStatus.running _
        now (step_if-StandsAt g id TaskNodeStatus.pending true TaskNodeStatus.ready s now h))

step_to-there :
    (g : TaskGraph) (id : String) (target : TaskNodeStatus) (now : ℕ)
    → is_at target (status_of (lookup id g.nodes)) ≡ true
    → step_to g id target now ≡ g
unfolding step_to
step_to-there g id target now there = ground arith

step_to-away :
    (g : TaskGraph) (id : String) (target : TaskNodeStatus) (now : ℕ)
    → is_some (lookup id g.nodes) ≡ true
    → is_at target (status_of (lookup id g.nodes)) ≡ false
    → step_to g id target now ≡ three_steps g id target now
unfolding step_to
step_to-away g id target now found away = rw (found, away) refl

-- If the target is RUNNING, SUCCEEDED or FAILED: _step_to brings a node that is PENDING, READY or
-- RUNNING to the target, and leaves the status of any other node as it is.
pub step_to-settles :
    (g : TaskGraph) (id : String) (target s : TaskNodeStatus) (now : ℕ)
    → is_target target ≡ true
    → StandsAt g id s
    → StandsAt (step_to g id target now) id (if is_unsettled s then target else s)
step_to-settles g id target s now aimed (n, e, at) = elim (Bool-cases (is_at target (some s))) [
  | inl there ↦
      let same = step_to-there g id target now (rw (e, at) there) in
      subst (λ (h : TaskGraph). StandsAt h id (settled target s)) (sym same)
        (n, e, at ∙ settled_there target s aimed there)
  | inr away ↦
      let same = step_to-away g id target now (rw e refl) (rw (e, at) away) in
      subst (λ (h : TaskGraph). StandsAt h id (settled target s)) (sym same)
        (subst (StandsAt (three_steps g id target now) id) (three_moves target s aimed)
          (three_steps-StandsAt g id target s now (n, e, at)))
]
