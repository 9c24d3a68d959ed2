-- ===== src/Registry/Keeping.antt =====
-- app/multiagent/agent_registry.py: what is kept by the methods that save an agent: those on one agent,
-- the reservation, and the expiry of leases.
use mega_deepagents.Base.{
  ℕ, String, Bool, Option, none, some, List, [], ◌∷◌, ◌≡◌, refl, arith, ◌==◌, string_eq, inl, inr,
  All, not, keep, All-append, ◌⊎◌, subst,
}
use mega_deepagents.Base.Dict.{Dict, lookup, AllEntries, values, entries-lookup}
use mega_deepagents.Agent.Instance.{AgentInstance}
use mega_deepagents.Registry.Pool.{
  Registry, save, try_reserve, preferred_first, use_caps_list, or_next, reserve_among, reserve_with,
  saved, reserve_idle_agent,
}
use mega_deepagents.Registry.Leases.{on_agent, on_found, answered, expire, expire_each}
use mega_deepagents.Registry.Durable.{IsDurable}

-- A property of the registry that holds before a method on one agent, and where the agent is saved.
pub on_agent-keeps {ℓ} :
    (P : Registry → Type ℓ) (r : Registry) (k : String)
    (change : AgentInstance → Option AgentInstance)
    → P r
    → ((a a' : AgentInstance) → lookup k r.agents ≡ some a → change a ≡ some a' → P (save k a' r))
    → P (on_agent r k change).0
unfolding on_agent
on_agent-keeps P r k change p step = found (lookup k r.agents) refl
  where
    ended :
        (a : AgentInstance) (o : Option AgentInstance)
        → lookup k r.agents ≡ some a
        → change a ≡ o
        → P (answered r k o).0
    ended a none e e' = p
    ended a (some a') e e' = step a a' e e'

    found : (o : Option AgentInstance) → lookup k r.agents ≡ o → P (on_found r k change o).0
    found none e = p
    found (some a) e = ended a (change a) e refl

pub or_next-cases {ℓ} :
    {A : Type ℓ} (o next : Option A) (a : A)
    → or_next o next ≡ some a
    → (o ≡ some a) ⊎ (next ≡ some a)
or_next-cases none next a e = inr e
or_next-cases (some b) next a e = inl e

module _ {ℓ} (Q : AgentInstance → Type ℓ) (run task : String) (now : ℕ) where
  -- What `reserve_idle_agent` finds, it finds among the agents.
  pub reserve_among-found :
      (caps : List String) (agents : List AgentInstance) (a' : AgentInstance)
      → All Q agents
      → reserve_among run caps task now agents ≡ some a'
      → (a : AgentInstance) × Q a × (try_reserve run caps task now a ≡ some a')
  unfolding reserve_among
  reserve_among-found caps [] a' h e = cc
  reserve_among-found caps (a ∷ agents) a' h e =
      elim (or_next-cases (try_reserve run caps task now a) _ a' e) [
        | inl here ↦ (a, h.0, here)
        | inr there ↦ reserve_among-found caps agents a' h.1 there
      ]

  pub reserve_with-found :
      (sets : List (List String)) (agents : List AgentInstance) (a' : AgentInstance)
      → All Q agents
      → reserve_with run sets task now agents ≡ some a'
      → (caps : List String) × (a : AgentInstance) × Q a
        × (try_reserve run caps task now a ≡ some a')
  unfolding reserve_with
  reserve_with-found [] agents a' h e = cc
  reserve_with-found (caps ∷ sets) agents a' h e =
      elim (or_next-cases (reserve_among run caps task now agents) _ a' e) [
        | inl here ↦ let (a, q, t) = reserve_among-found caps agents a' h here in (caps, a, q, t)
        | inr there ↦ reserve_with-found sets agents a' h there
      ]

keep-All {ℓ κ} :
    {A : Type ℓ} (Q : A → Type κ) (p : A → Bool) (xs : List A) → All Q xs → All Q (keep p xs)
keep-All Q p [] h = tt
keep-All Q p (x ∷ xs) h = ground (arith, keep-All Q p xs h.1)

pub preferred_first-All {ℓ} :
    (Q : AgentInstance → Type ℓ) (o : Option String) (agents : List AgentInstance)
    → All Q agents
    → All Q (preferred_first o agents)
preferred_first-All Q none agents h = h
preferred_first-All Q (some p) agents h = ground (
  arith,
  h,
  All-append Q (keep (λ a. a.agent_id == p) agents) (keep (λ a. not (a.agent_id == p)) agents)
      (keep-All Q (λ a. a.agent_id == p) agents h)
      (keep-All Q (λ a. not (a.agent_id == p)) agents h),
)

-- An agent that is held is found under its id.
pub held_values :
    (d : Dict String AgentInstance)
    → AllEntries (λ k a. k ≡ a.agent_id) d
    → AllEntries (λ k a. lookup k d ≡ some a) d
    → All (λ a. lookup a.agent_id d ≡ some a) (values d)
held_values d k h = go d k h
  where
    go :
        (e : Dict String AgentInstance)
        → AllEntries (λ k a. k ≡ a.agent_id) e
        → AllEntries (λ k a. lookup k d ≡ some a) e
        → All (λ a. lookup a.agent_id d ≡ some a) (values e)
    go [] k h = tt
    go ((j, a) ∷ e) k h = (subst (λ (x : String). lookup x d ≡ some a) k.0 h.0, go e k.1 h.1)

pub reserve-keeps {ℓ} :
    (P : Registry → Type ℓ) (r : Registry) (run : String) (required : List String) (task : String)
    (preferred : Option String) (now : ℕ)
    → IsDurable r
    → P r
    → ((caps : List String) (a a' : AgentInstance)
        → lookup a.agent_id r.agents ≡ some a
        → try_reserve run caps task now a ≡ some a'
        → P (save a'.agent_id a' r))
    → P (reserve_idle_agent r run required task preferred now).0
unfolding reserve_idle_agent
reserve-keeps P r run required task preferred now d p step =
    ended
      (reserve_with run (use_caps_list required) task now
        (preferred_first preferred (values r.agents)))
      refl
  where
    held :
        All (λ a. lookup a.agent_id r.agents ≡ some a) (preferred_first preferred (values r.agents))
    held =
        preferred_first-All (λ a. lookup a.agent_id r.agents ≡ some a) preferred (values r.agents)
          (held_values r.agents d.keyed (entries-lookup r.agents d.nodup))

    ended :
        (o : Option AgentInstance)
        → reserve_with run
            (use_caps_list required)
            task
            now
            (preferred_first preferred (values r.agents))
          ≡ o
        → P (saved r o).0
    ended none e = p
    ended (some a') e =
        let (caps, a, q, t) =
          reserve_with-found (λ a. lookup a.agent_id r.agents ≡ some a) run task now
            (use_caps_list required) (preferred_first preferred (values r.agents)) a' held e in
        step caps a a' q t

-- The loop of `cleanup_expired` keeps what a save of each expired agent keeps.
pub expire_each-keeps {ℓ κ} :
    (P : Registry → Type ℓ) (Q : String → AgentInstance → Type κ) (now : ℕ)
    (entries : Dict String AgentInstance) (r : Registry)
    → AllEntries Q entries
    → P r
    → ((s : Registry) (k : String) (a a' : AgentInstance)
        → P s
        → Q k a
        → expire s.lease_timeout now a ≡ some a'
        → P (save k a' s))
    → P (expire_each now entries r).0
unfolding expire_each
expire_each-keeps P Q now [] r h p step = p
expire_each-keeps P Q now ((k, a) ∷ entries) r h p step =
    turn (λ s q. expire_each-keeps P Q now entries s h.1 q step) (expire r.lease_timeout now a) refl
  where
    turn :
        ((s : Registry) → P s → P (expire_each now entries s).0)
        → (o : Option AgentInstance) → expire r.lease_timeout now a ≡ o
        → P
            (elim o as (λ _. Registry × List String) [
              | none ↦ expire_each now entries r
              | some a' ↦ let (r', ids) = expire_each now entries (save k a' r) in (r', k ∷ ids)
            ]).0
    turn rest none e = rest r p
    turn rest (some a') e = rest (save k a' r) (step r k a a' p h.0 e)
