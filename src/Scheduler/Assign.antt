-- ===== src/Scheduler/Assign.antt =====
-- app/multiagent/parallel_scheduler.py: the loop of `_discover_dispatchable` that gives agents to
-- tasks.
use mega_deepagents.Base.{
  All-keep, ℕ, suc, String, Bool, true, false, none, some, List, [], ◌∷◌, ◌≡◌, refl, sym, ◌∙◌,
  subst, ◌≤◌, ◌-◌, max, arith, inl, inr, Bool-cases, Option-cases, All, All-map, leb, ltb, length,
  if◌then◌else◌, ◌==◌, string_eq,
}
use mega_deepagents.Base.Dict.{
  Dict, lookup, erase, values, AllEntries, AllEntries-erase, NodupKeys, erase-NodupKeys,
  lookup-erase, entries-lookup,
}
use mega_deepagents.Agent.Instance.{AgentInstance}
use mega_deepagents.Registry.Keeping.{held_values}
use mega_deepagents.TaskBoard.Task.{BoardTask}
use mega_deepagents.Scheduler.Dispatch.{
  Assignment, agent_can_serve, candidates, narrowest, chosen, assign,
}

narrowest-All {κ} :
    (P : AgentInstance → Type κ) (best : AgentInstance) (agents : List AgentInstance)
    → P best
    → All P agents
    → P (narrowest best agents)
unfolding narrowest
narrowest-All P best [] p h = p
narrowest-All P best (a ∷ agents) p h =
    elim (Bool-cases (ltb (length a.capabilities) (length best.capabilities))) [
      | inl e ↦ rw e (narrowest-All P a agents h.0 h.1)
      | inr e ↦ rw e (narrowest-All P best agents p h.1)
    ]

chosen-All {κ} :
    (P : AgentInstance → Type κ) (agents : List AgentInstance) {a : AgentInstance}
    → All P agents
    → chosen agents ≡ some a
    → P a
unfolding chosen
chosen-All P [] h e = cc
chosen-All P (x ∷ xs) {a} h e =
    let same : narrowest x xs ≡ a = cc in subst P same (narrowest-All P x xs h.0 h.1)

-- The agents that are left: each stands once, under its own id.
pub record IsPool (d : Dict String AgentInstance) : Type 0 where
  pub keyed : AllEntries (λ k a. k ≡ a.agent_id) d
  pub nodup : NodupKeys d

pub erase-IsPool : {d : Dict String AgentInstance} (k : String) → IsPool d → IsPool (erase k d)
erase-IsPool {d} k p = record {
  keyed = AllEntries-erase _ k d p.keyed;
  nodup = erase-NodupKeys k d p.nodup;
}

-- The assigned agent is left in the pool and can serve the task.
abbrev pub Fits : Dict String AgentInstance → Assignment → Type 0
Fits d (t, a) = (lookup a.agent_id d ≡ some a) × (agent_can_serve a t ≡ true)

pub chosen-Fits :
    {d : Dict String AgentInstance} (t : BoardTask) {a : AgentInstance}
    → IsPool d
    → chosen (candidates (values d) t) ≡ some a
    → Fits d (t, a)
unfolding candidates
chosen-Fits {d} t {a} p e =
    chosen-All (λ a. Fits d (t, a)) (candidates (values d) t)
      (All-keep (λ a. lookup a.agent_id d ≡ some a) _ (values d)
        (held_values d p.keyed (entries-lookup d p.nodup)))
      e

-- Without candidates none is chosen, and only then.
pub chosen-none : (agents : List AgentInstance) → chosen agents ≡ none → agents ≡ []
unfolding chosen
chosen-none [] e = refl
chosen-none (a ∷ agents) e = cc

-- What is left after one was taken was there before, under another id.
left_before :
    (k : String) (d : Dict String AgentInstance) (q : Assignment)
    → Fits (erase k d) q
    → Fits d q × ((q.1.agent_id == k) ≡ false)
left_before k d q h =
    let e = sym (lookup-erase q.1.agent_id k d) ∙ h.0 in
    elim (Bool-cases (q.1.agent_id == k)) [
      | inl same ↦ absurd (cc (rw same at e))
      | inr other ↦ ((rw other at e, h.1), other)
    ]

-- No agent is assigned twice.
abbrev pub AreApart : List Assignment → Type 0
AreApart [] = Unit
AreApart (p ∷ ps) = All (λ q. (q.1.agent_id == p.1.agent_id) ≡ false) ps × AreApart ps

abbrev pub IsMatch {κ} : (BoardTask → Type κ) → Dict String AgentInstance → List Assignment → Type κ
IsMatch P d ps = All (λ q. P q.0 × Fits d q) ps × AreApart ps

stop_early-IsMatch {κ} :
    (P : BoardTask → Type κ) (d : Dict String AgentInstance) (b : Bool) (p : Assignment)
    (ps : List Assignment)
    → P p.0
    → Fits d p
    → IsMatch P (erase p.1.agent_id d) ps
    → IsMatch P d (p ∷ (if b then [] else ps))
stop_early-IsMatch P d true p ps hp h m = ((((hp, h), tt)), (tt, tt))
stop_early-IsMatch P d false p ps hp h m = (
  ((hp, h), All-map ps (λ q g. (g.0, (left_before p.1.agent_id d q g.1).0)) m.0),
  (All-map ps (λ q g. (left_before p.1.agent_id d q g.1).1) m.0, m.1),
)

pub assign-IsMatch {κ} :
    (P : BoardTask → Type κ) (capacity taken : ℕ) (d : Dict String AgentInstance)
    (ts : List BoardTask)
    → IsPool d
    → All P ts
    → IsMatch P d (assign capacity taken d ts)
unfolding assign
assign-IsMatch P capacity taken d [] p h = (tt, tt)
assign-IsMatch P capacity taken d (t ∷ ts) p h =
    elim (Option-cases (chosen (candidates (values d) t))) [
      | inl e ↦ rw (e, assign) (assign-IsMatch P capacity taken d ts p h.1)
      | inr (a, e) ↦
          rw (e, assign)
            (stop_early-IsMatch P d (leb capacity (suc taken)) (t, a) _ h.0 (chosen-Fits t p e)
              (assign-IsMatch P capacity (suc taken) (erase a.agent_id d) ts
                (erase-IsPool a.agent_id p) h.1))
    ]

stop_early-length :
    (capacity taken : ℕ) (p : Assignment) (ps : List Assignment)
    → length ps ≤ max 1 (capacity - suc taken)
    → length (p ∷ (if leb capacity (suc taken) then [] else ps)) ≤ max 1 (capacity - taken)
stop_early-length capacity taken p ps h = elim (Bool-cases (leb capacity (suc taken))) [
  | inl e ↦ rw e (omega arith)
  | inr e ↦ rw e (ground (arith, h))
]

-- One task is selected even if there is no capacity, since the loop tests it after it selects.
pub assign-length :
    (capacity taken : ℕ) (d : Dict String AgentInstance) (ts : List BoardTask)
    → length (assign capacity taken d ts) ≤ max 1 (capacity - taken)
unfolding assign
assign-length capacity taken d [] = omega arith
assign-length capacity taken d (t ∷ ts) = elim (Option-cases (chosen (candidates (values d) t))) [
  | inl e ↦ rw (e, assign) (assign-length capacity taken d ts)
  | inr (a, e) ↦
      rw (e, assign)
        (stop_early-length capacity taken (t, a) _
          (assign-length capacity (suc taken) (erase a.agent_id d) ts))
]

-- Nothing is assigned only if no agent can serve any of the tasks.
pub assign-nil :
    (capacity taken : ℕ) (d : Dict String AgentInstance) (ts : List BoardTask)
    → assign capacity taken d ts ≡ []
    → All (λ t. candidates (values d) t ≡ []) ts
unfolding assign
assign-nil capacity taken d [] e = tt
assign-nil capacity taken d (t ∷ ts) e = elim (Option-cases (chosen (candidates (values d) t))) [
  | inl none_left ↦ (
    chosen-none (candidates (values d) t) none_left,
    assign-nil capacity taken d ts (rw (none_left, assign) at e),
  )
  | inr (a, found) ↦ absurd (cc (rw (found, assign) at e))
]
