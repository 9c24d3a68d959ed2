-- ===== src/Scheduler/Progress.antt =====
-- app/multiagent/parallel_scheduler.py: when `_discover_dispatchable` selects nothing.
use mega_deepagents.Base.{
  ℕ, String, false, not, some, List, [], ◌∷◌, ◌≡◌, ◌↔◌, refl, sym, ◌∙◌, inl, inr, arith, Bool-cases,
  All, All-map, keep, map, string_eq, ◌-◌,
}
use mega_deepagents.Base.Lists.{sort_by}
use mega_deepagents.Base.Dict.{
  Dict, lookup, insert, lookup-insert, values, AllEntries, AllEntries-lookup,
}
use mega_deepagents.Scheduler.Lists.{sort_by-nil, map-All', keep_all}
use mega_deepagents.Agent.Instance.{AgentInstance}
use mega_deepagents.Registry.Pool.{Registry}
use mega_deepagents.Registry.Durable.{IsDurable}
use mega_deepagents.TaskBoard.Task.{BoardTask}
use mega_deepagents.TaskBoard.Store.{Board}
use mega_deepagents.Scheduler.Dispatch.{
  Scheduler, Item, agent_can_serve, ready_now, idle_agents, candidates, with_candidates,
  serviceable, in_dispatch_order, first_item, start_barrier, admit, put_agents, assign_admitted,
  assign, wave, more_urgent, more_constrained, task_allows_parallel,
}
use mega_deepagents.Scheduler.Assign.{assign-nil}
use mega_deepagents.Scheduler.Wave.{
  idle_agents-All, IsItem, serviceable-All, admit-All, in_dispatch_order-All,
}

-- No agent of the list can serve the task.
abbrev NoneServes : List AgentInstance → BoardTask → Type 0
NoneServes agents t = All (λ a. agent_can_serve a t ≡ false) agents

candidates-NoneServes :
    (agents : List AgentInstance) (t : BoardTask) → candidates agents t ≡ [] → NoneServes agents t
unfolding candidates
candidates-NoneServes [] t e = tt
candidates-NoneServes (a ∷ agents) t e = elim (Bool-cases (agent_can_serve a t)) [
  | inl c ↦ absurd (cc (rw c at e))
  | inr c ↦ (c, candidates-NoneServes agents t (rw c at e))
]

NoneServes-candidates :
    (agents : List AgentInstance) (t : BoardTask) → NoneServes agents t → candidates agents t ≡ []
unfolding candidates
NoneServes-candidates [] t h = refl
NoneServes-candidates (a ∷ agents) t h = rw h.0 (NoneServes-candidates agents t h.1)

pub values-AllEntries {κ} :
    (P : AgentInstance → Type κ) (d : Dict String AgentInstance)
    → All P (values d)
    → AllEntries (λ k a. P a) d
values-AllEntries P [] h = tt
values-AllEntries P ((k, a) ∷ d) h = (h.0, values-AllEntries P d h.1)

-- Agents that a registry holds under their ids are found under them where they were put.
module _ (held : Dict String AgentInstance) where
  abbrev Held : AgentInstance → Type 0
  Held a = lookup a.agent_id held ≡ some a

  put_one-keeps :
      (d : Dict String AgentInstance) (a x : AgentInstance)
      → Held a
      → Held x
      → lookup x.agent_id d ≡ some x
      → lookup x.agent_id (insert a.agent_id a d) ≡ some x
  put_one-keeps d a x ha hx e = ground (arith, lookup-insert x.agent_id a.agent_id a d)

  put_agents-keeps :
      (d : Dict String AgentInstance) (agents : List AgentInstance) (x : AgentInstance)
      → All Held agents
      → Held x
      → lookup x.agent_id d ≡ some x
      → lookup x.agent_id (put_agents d agents) ≡ some x
  unfolding put_agents
  put_agents-keeps d [] x h hx e = e
  put_agents-keeps d (a ∷ agents) x h hx e =
      put_agents-keeps (insert a.agent_id a d) agents x h.1 hx (put_one-keeps d a x h.0 hx e)

  put_agents-found :
      (d : Dict String AgentInstance) (agents : List AgentInstance)
      → All Held agents
      → All (λ a. lookup a.agent_id (put_agents d agents) ≡ some a) agents
  unfolding put_agents
  put_agents-found d [] h = tt
  put_agents-found d (a ∷ agents) h = (
    put_agents-keeps (insert a.agent_id a d) agents a h.1 h.0
        (ground (arith, lookup-insert a.agent_id a.agent_id a d)),
    put_agents-found (insert a.agent_id a d) agents h.1,
  )

  -- Whom no agent of the dict serves, none of those that were put into it does.
  pool-NoneServes :
      (agents : List AgentInstance) (t : BoardTask)
      → All Held agents
      → candidates (values (put_agents [] agents)) t ≡ []
      → candidates agents t ≡ []
  pool-NoneServes agents t h e =
      let pool = put_agents [] agents in
      let unfit =
        values-AllEntries (λ a. agent_can_serve a t ≡ false) pool
          (candidates-NoneServes (values pool) t e) in
      NoneServes-candidates agents t (
        All-map agents (λ a f. AllEntries-lookup _ a.agent_id pool unfit f)
          (put_agents-found [] agents h))

-- A list none of whose items is left has none.
no_items {κ μ} :
    {P : Item → Type κ} {Q : Item → Type μ} (items : List Item)
    → ((x : Item) → P x → ¬ Q x)
    → All P items
    → All Q items
    → items ≡ []
no_items [] f h g = refl
no_items (x ∷ items) f h g = absurd (f x h.0 g.0)

start_barrier-nil :
    (exclusive ordered : List Item) (capacity : ℕ)
    → (start_barrier exclusive ordered capacity).0 ≡ []
    → ordered ≡ []
unfolding start_barrier
start_barrier-nil [] ordered capacity e = e
start_barrier-nil (x ∷ xs) ordered capacity e = absurd (
    first (sort_by (λ y z. more_urgent y.0 z.0) (x ∷ xs)) e
      (λ n. absurd (cc (sort_by-nil (λ y z. more_urgent y.0 z.0) (x ∷ xs) n))))
  where
    first : (items : List Item) → first_item items ≡ [] → ¬ ¬ (items ≡ [])
    first [] e n = n refl
    first (y ∷ ys) e n = cc e

in_dispatch_order-nil : (items : List Item) → in_dispatch_order [] items ≡ [] → items ≡ []
unfolding in_dispatch_order
in_dispatch_order-nil items e = sym (keep_all items) ∙ sort_by-nil more_constrained _ e

with_candidates-nil :
    (agents : List AgentInstance) (t : BoardTask) (found : List AgentInstance) (items : List Item)
    → with_candidates t found items ≡ []
    → (found ≡ []) × (items ≡ [])
with_candidates-nil agents t [] items e = (refl, e)
with_candidates-nil agents t (a ∷ rest) items e = absurd (cc e)

serviceable-nil :
    (agents : List AgentInstance) (ts : List BoardTask)
    → serviceable agents ts ≡ []
    → All (λ t. candidates agents t ≡ []) ts
unfolding serviceable
serviceable-nil agents [] e = tt
serviceable-nil agents (t ∷ ts) e =
    let (none_here, rest) = with_candidates-nil agents t (candidates agents t) _ e in
    (none_here, serviceable-nil agents ts rest)

nil-serviceable :
    (agents : List AgentInstance) (ts : List BoardTask)
    → All (λ t. candidates agents t ≡ []) ts
    → serviceable agents ts ≡ []
unfolding serviceable
nil-serviceable agents [] h = refl
nil-serviceable agents (t ∷ ts) h = rw h.0 (nil-serviceable agents ts h.1)

-- Items whose tasks have candidates are all left out only where there are none.
assign_admitted-nil :
    (r : Registry) (run : String) (m : List Item × ℕ)
    → IsDurable r
    → All (IsItem (λ t. Unit {0}) (idle_agents r run)) m.0
    → assign_admitted (put_agents [] (idle_agents r run)) m ≡ []
    → m.0 ≡ []
assign_admitted-nil r run (items, capacity) d h e =
    let idle = idle_agents r run in
    let pool = put_agents [] idle in
    let held = All-map idle (λ a q. q.0) (idle_agents-All r run d) in
    no_items {P = IsItem (λ t. Unit {0}) idle} {Q = λ x. candidates (values pool) x.0 ≡ []} items
      (λ x p q.
        let (a, rest, some_left) = p.1 in
        let none_left = pool-NoneServes r.agents idle x.0 held q in cc (some_left, none_left))
      h
      (map-All' (λ t. candidates (values pool) t ≡ []) (λ x. x.0) items
        (assign-nil capacity 0 pool (map (λ x. x.0) items) e))

all_unit : (ts : List BoardTask) → All (λ t. Unit {0}) ts
all_unit [] = tt
all_unit (t ∷ ts) = (tt, all_unit ts)

all_items :
    (run : String) (r : Registry) (b : Board) (now : ℕ)
    → All
        (IsItem (λ t. Unit {0}) (idle_agents r run))
        (in_dispatch_order [] (serviceable (idle_agents r run) (ready_now b run now)))
all_items run r b now =
    let idle = idle_agents r run in
    let ts = ready_now b run now in
    All-map (in_dispatch_order [] (serviceable idle ts)) (λ x h. h.0)
      (in_dispatch_order-All (IsItem (λ t. Unit {0}) idle) [] (serviceable idle ts)
        (serviceable-All (λ t. Unit {0}) idle ts (all_unit ts)))

nothing_in_order : in_dispatch_order [] [] ≡ []
unfolding in_dispatch_order sort_by
nothing_in_order = refl

nothing_admitted :
    (s : Scheduler) (d : Dict String AgentInstance) (capacity : ℕ)
    → assign_admitted d (admit s [] [] capacity) ≡ []
unfolding admit start_barrier assign
nothing_admitted s d capacity = refl

-- Where every agent stands under its own id, once, and agrees with its row in the columns that each
-- write sets, and no task is running: nothing is selected exactly if no IDLE agent of the run can
-- serve any PENDING task that is due and whose dependencies have SUCCEEDED, whatever the limit of
-- concurrency and the barriers.
pub wave-nil_iff :
    (s : Scheduler) (b : Board) (r : Registry) (now : ℕ)
    → IsDurable r
    → (wave s b r [] now ≡ [])
      ↔ All
          (λ t. All (λ a. agent_can_serve a t ≡ false) (idle_agents r s.run_id))
          (ready_now b s.run_id now)
unfolding wave admit
wave-nil_iff s b r now d =
    let idle = idle_agents r s.run_id in
    let ts = ready_now b s.run_id now in
    let items = in_dispatch_order [] (serviceable idle ts) in
    let capacity = s.max_concurrency - 0 in
    (
      λ e.
          All-map ts (λ t h. candidates-NoneServes idle t h)
            (serviceable-nil idle ts (
              in_dispatch_order-nil (serviceable idle ts) (
                start_barrier-nil (keep (λ x. not (task_allows_parallel s x.0.task_id)) items) items
                  capacity
                  (assign_admitted-nil r s.run_id (admit s [] items capacity) d
                    (admit-All (IsItem (λ t. Unit {0}) idle) s [] items capacity
                      (all_items s.run_id r b now))
                    e)))),
      λ h.
          let unserved =
            nil-serviceable idle ts (All-map ts (λ t g. NoneServes-candidates idle t g) h) in
          rw unserved (nothing_admitted s (put_agents [] idle) capacity),
    )
