-- ===== src/Scheduler/Wave.antt =====
-- app/multiagent/parallel_scheduler.py: which tasks `_discover_dispatchable` selects, and for which
-- agents.
use mega_deepagents.Base.{
  All-keep, ℕ, String, Bool, true, false, not, some, List, [], ◌∷◌, ◌≡◌, refl, inl, inr, arith,
  Bool-cases, All, All-map, keep, any, map, contains, ◌==◌, string_eq, both,
}
use mega_deepagents.Base.Lists.{sort_by}
use mega_deepagents.Base.Dict.{
  Dict, lookup, insert, values, AllEntries, AllEntries-insert, AllEntries-lookup, insert-NodupKeys,
  entries-lookup,
}
use mega_deepagents.Scheduler.Lists.{sort_by-All, map-All}
use mega_deepagents.Agent.Instance.{AgentInstance, is_idle}
use mega_deepagents.Registry.Pool.{Registry, list_by_run}
use mega_deepagents.Registry.Keeping.{held_values}
use mega_deepagents.Registry.Durable.{IsDurable}
use mega_deepagents.TaskBoard.Task.{BoardTask, is_pending}
use mega_deepagents.TaskBoard.Store.{Board, raw_list_by_run}
use mega_deepagents.TaskBoard.Query.{list_pending, is_due}
use mega_deepagents.TaskBoard.Invariant.{IsSound}
use mega_deepagents.TaskBoard.Listing.{OfRun, raw_list_by_run-OfRun}
use mega_deepagents.Scheduler.Dispatch.{
  Scheduler, Item, Assignment, deps_satisfied, agent_can_serve, ready_now, idle_agents, candidates,
  with_candidates, serviceable, in_dispatch_order, first_item, start_barrier, admit, put_agents,
  assign_admitted, wave, task_allows_parallel, more_urgent, more_constrained,
}
use mega_deepagents.Scheduler.Assign.{IsPool, IsMatch, AreApart, assign-IsMatch}

-- What holds for the items that are ready holds for those that the barriers admit.
module _ {κ} (P : Item → Type κ) where
  first_item-All : (items : List Item) → All P items → All P (first_item items)
  first_item-All [] h = tt
  first_item-All (x ∷ xs) h = (h.0, tt)

  start_barrier-All :
      (exclusive ordered : List Item) (capacity : ℕ)
      → All P exclusive
      → All P ordered
      → All P (start_barrier exclusive ordered capacity).0
  unfolding start_barrier
  start_barrier-All [] ordered capacity h h' = h'
  start_barrier-All (x ∷ xs) ordered capacity h h' =
      first_item-All (sort_by (λ y z. more_urgent y.0 z.0) (x ∷ xs)) (sort_by-All P _ (x ∷ xs) h)

  keep-All' : (p : Item → Bool) (items : List Item) → All P items → All P (keep p items)
  keep-All' p items h = All-map (keep p items) (λ x q. q.0) (All-keep P p items h)

  pub admit-All :
      (s : Scheduler) (running : List String) (ordered : List Item) (capacity : ℕ)
      → All P ordered
      → All P (admit s running ordered capacity).0
  unfolding admit
  admit-All s [] ordered capacity h = start_barrier-All _ ordered capacity (keep-All' _ ordered h) h
  admit-All s (id ∷ running) ordered capacity h =
      elim (Bool-cases (any (λ i. not (task_allows_parallel s i)) (id ∷ running))) [
        | inl e ↦ rw e tt
        | inr e ↦ rw e (keep-All' _ ordered h)
      ]

  pub in_dispatch_order-All :
      (running : List String) (items : List Item)
      → All P items
      → All
          (λ x. P x × (not (contains running x.0.task_id) ≡ true))
          (in_dispatch_order running items)
  unfolding in_dispatch_order
  in_dispatch_order-All running items h = sort_by-All _ more_constrained _ (All-keep P _ items h)

-- Each item is a ready task with some candidates.
abbrev pub IsItem {κ} : (BoardTask → Type κ) → List AgentInstance → Item → Type κ
IsItem P agents (t, found) =
    P t × ((a : AgentInstance) × (rest : List AgentInstance) × (candidates agents t ≡ a ∷ rest))

with_candidates-All {κ} :
    (P : BoardTask → Type κ) (agents : List AgentInstance) (t : BoardTask)
    (found : List AgentInstance) (items : List Item)
    → P t
    → candidates agents t ≡ found
    → All (IsItem P agents) items
    → All (IsItem P agents) (with_candidates t found items)
with_candidates-All P agents t [] items p e h = h
with_candidates-All P agents t (a ∷ rest) items p e h = ((p, (a, rest, e)), h)

pub serviceable-All {κ} :
    (P : BoardTask → Type κ) (agents : List AgentInstance) (ts : List BoardTask)
    → All P ts
    → All (IsItem P agents) (serviceable agents ts)
unfolding serviceable
serviceable-All P agents [] h = tt
serviceable-All P agents (t ∷ ts) h =
    with_candidates-All P agents t (candidates agents t) (serviceable agents ts) h.0 refl
      (serviceable-All P agents ts h.1)

not-true : (b : Bool) → not b ≡ true → b ≡ false
not-true b h = ground arith

pub empty-IsPool : IsPool []
empty-IsPool = record { keyed = tt; nodup = tt }

pub put_agents-IsPool :
    (d : Dict String AgentInstance) (agents : List AgentInstance)
    → IsPool d
    → IsPool (put_agents d agents)
unfolding put_agents
put_agents-IsPool d [] p = p
put_agents-IsPool d (a ∷ agents) p = put_agents-IsPool (insert a.agent_id a d) agents (record {
  keyed = AllEntries-insert (λ k a. k ≡ a.agent_id) a.agent_id a d p.keyed refl;
  nodup = insert-NodupKeys a.agent_id a d p.nodup;
})

put_agents-AllEntries {κ} :
    (P : AgentInstance → Type κ) (d : Dict String AgentInstance) (agents : List AgentInstance)
    → AllEntries (λ k a. P a) d
    → All P agents
    → AllEntries (λ k a. P a) (put_agents d agents)
unfolding put_agents
put_agents-AllEntries P d [] q h = q
put_agents-AllEntries P d (a ∷ agents) q h =
    put_agents-AllEntries P (insert a.agent_id a d) agents
      (AllEntries-insert (λ k a. P a) a.agent_id a d q h.0) h.1

-- An idle agent of the run that the registry holds.
abbrev pub Idle : Registry → String → AgentInstance → Type 0
Idle r run a =
    (lookup a.agent_id r.agents ≡ some a) × ((a.run_id == run) ≡ true) × (is_idle a ≡ true)

pub idle_agents-All :
    (r : Registry) (run : String) → IsDurable r → All (Idle r run) (idle_agents r run)
unfolding idle_agents list_by_run
idle_agents-All r run d =
    All-map (idle_agents r run) (λ a h. (h.0.0, h.0.1, h.1))
      (All-keep _ is_idle (list_by_run r run) (
        All-keep _ (λ a. a.run_id == run) (values r.agents)
          (held_values r.agents d.keyed (entries-lookup r.agents d.nodup))))

-- A task of the run that is PENDING and due, with each dependency SUCCEEDED.
abbrev pub Ready : Board → String → ℕ → BoardTask → Type 0
Ready b run now t =
    OfRun b run t
    × (is_pending t.status ≡ true)
    × (is_due now t.next_attempt_at ≡ true)
    × (deps_satisfied b run t ≡ true)

pub ready_now-All :
    {b : Board} (run : String) (now : ℕ) → IsSound b → All (Ready b run now) (ready_now b run now)
unfolding ready_now list_pending
ready_now-All {b} run now s =
    All-map (ready_now b run now)
      (λ t h. let (p, due) = both (is_pending t.status) _ h.0.1 in (h.0.0, p, due, h.1))
      (All-keep _ (deps_satisfied b run) (list_pending b run now)
        (All-keep _ _ (raw_list_by_run b run) (raw_list_by_run-OfRun run s.well_formed)))

-- It is not running either.
abbrev pub Waiting : Board → String → ℕ → List String → BoardTask → Type 0
Waiting b run now running t = Ready b run now t × (contains running t.task_id ≡ false)

items-All :
    {b : Board} (run : String) (running : List String) (now : ℕ) (agents : List AgentInstance)
    → IsSound b
    → All
        (λ (x : Item). Waiting b run now running x.0)
        (in_dispatch_order running (serviceable agents (ready_now b run now)))
items-All {b} run running now agents sound =
    All-map (in_dispatch_order running (serviceable agents (ready_now b run now)))
      (λ x h. (h.0, not-true (contains running x.0.task_id) h.1))
      (in_dispatch_order-All (λ (x : Item). Ready b run now x.0) running
        (serviceable agents (ready_now b run now))
        (All-map (serviceable agents (ready_now b run now)) (λ x h. h.0)
          (serviceable-All (Ready b run now) agents (ready_now b run now)
            (ready_now-All run now sound))))

pub admitted-IsMatch {κ} :
    (P : BoardTask → Type κ) (d : Dict String AgentInstance) (m : List Item × ℕ)
    → IsPool d
    → All (λ x. P x.0) m.0
    → IsMatch P d (assign_admitted d m)
admitted-IsMatch P d (items, capacity) p h =
    assign-IsMatch P capacity 0 d (map (λ x. x.0) items) p (map-All P (λ x. x.0) items h)

-- On a sound board, and a registry where every agent stands under its own id, once, and agrees with
-- its row in the columns that each write sets: each selected task is a PENDING task of the run that
-- is due and not running, and each of its dependencies has SUCCEEDED; its agent is held, IDLE, of
-- the run, and can serve it; and no agent is selected for two tasks.
pub wave-is_safe :
    {b : Board} (s : Scheduler) (r : Registry) (running : List String) (now : ℕ)
    → IsSound b
    → IsDurable r
    → All
        (λ (q : Assignment).
          Waiting b s.run_id now running q.0
          × Idle r s.run_id q.1
          × (agent_can_serve q.1 q.0 ≡ true))
        (wave s b r running now)
      × AreApart (wave s b r running now)
unfolding wave
wave-is_safe {b} s r running now sound durable = (
  All-map (wave s b r running now)
      (λ q h. (h.0, AllEntries-lookup _ q.1.agent_id pool idle_pool h.1.0, h.1.1)) matched.0,
  matched.1,
)
  where
    idle : List AgentInstance
    idle = idle_agents r s.run_id

    pool : Dict String AgentInstance
    pool = put_agents [] idle

    idle_pool : AllEntries (λ k a. Idle r s.run_id a) pool
    idle_pool =
        put_agents-AllEntries (Idle r s.run_id) [] idle tt (idle_agents-All r s.run_id durable)

    matched : IsMatch (Waiting b s.run_id now running) pool (wave s b r running now)
    matched =
        admitted-IsMatch (Waiting b s.run_id now running) pool _
          (put_agents-IsPool [] idle empty-IsPool)
          (admit-All (λ (x : Item). Waiting b s.run_id now running x.0) s running _ _
            (items-All s.run_id running now idle sound))
