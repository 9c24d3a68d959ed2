-- ===== src/Registry/Reserve.antt =====
-- app/multiagent/agent_registry.py: whom `reserve_idle_agent` reserves, and how long a reservation
-- lasts.
use mega_deepagents.Base.{
  ℕ, String, Bool, true, false, not, ◌&&◌, Option, none, some, List, [], ◌∷◌, ◌≡◌, refl, sym, arith,
  ◌==◌, ◌++◌, string_eq, Option-cases, Bool-cases, ◌⊎◌, inl, inr, All, any, leb, keep,
}
use mega_deepagents.Base.Dict.{lookup, values, entries-lookup}
use mega_deepagents.Agent.Instance
use mega_deepagents.Agent.Instance.{AgentInstance, AgentStatus, update_status, is_idle}
use mega_deepagents.Registry.Pool.{
  Registry, save, try_reserve, or_next, subset, preferred_first, use_caps_list, reserve_among,
  reserve_with, reserve_idle_agent,
}
use mega_deepagents.Registry.Keeping
use mega_deepagents.Registry.Durable.{IsDurable}

-- An idle agent of the run, with the capabilities and a free slot.
unfoldable pub suits : String → List String → AgentInstance → Bool
suits run caps a =
    (a.run_id == run) && is_idle a && subset caps a.capabilities && leb 1 a.max_concurrency

-- It suits the required capabilities, or those left of them.
unfoldable pub suits_any : String → List (List String) → AgentInstance → Bool
unfolding suits
suits_any run sets a = any (λ caps. suits run caps a) sets

try_reserve-suits :
    (run : String) (caps : List String) (task : String) (now : ℕ) (a a' : AgentInstance)
    → try_reserve run caps task now a ≡ some a'
    → suits run caps a ≡ true
unfolding try_reserve suits update_status is_idle
try_reserve-suits run caps task now a a' e = ground arith

try_reserve-none :
    (run : String) (caps : List String) (task : String) (now : ℕ) (a : AgentInstance)
    → try_reserve run caps task now a ≡ none
    → suits run caps a ≡ false
unfolding try_reserve suits update_status is_idle Instance.is_legal_agent_transition
try_reserve-none run caps task now a e = ground arith

try_reserve-claims :
    (run : String) (caps : List String) (task : String) (now : ℕ) (a a' : AgentInstance)
    → try_reserve run caps task now a ≡ some a'
    → (a'.agent_id ≡ a.agent_id)
      × (a'.status ≡ AgentStatus.claiming)
      × (a'.current_task_id ≡ some task)
unfolding try_reserve update_status Instance.heartbeat
try_reserve-claims run caps task now a a' e = (ground arith, ground arith, ground arith)

or_next-none {ℓ} :
    {A : Type ℓ} (o next : Option A) → or_next o next ≡ none → (o ≡ none) × (next ≡ none)
or_next-none none next e = (refl, e)
or_next-none (some a) next e = cc

reserve_among-none :
    (run : String) (caps : List String) (task : String) (now : ℕ) (agents : List AgentInstance)
    → reserve_among run caps task now agents ≡ none
    → All (λ a. suits run caps a ≡ false) agents
unfolding reserve_among
reserve_among-none run caps task now [] e = tt
reserve_among-none run caps task now (a ∷ agents) e =
    let (here, rest) = or_next-none (try_reserve run caps task now a) _ e in
    (try_reserve-none run caps task now a here, reserve_among-none run caps task now agents rest)

add_set :
    (run : String) (caps : List String) (sets : List (List String)) (agents : List AgentInstance)
    → All (λ a. suits run caps a ≡ false) agents
    → All (λ a. suits_any run sets a ≡ false) agents
    → All (λ a. suits_any run (caps ∷ sets) a ≡ false) agents
unfolding suits_any
add_set run caps sets [] h h' = tt
add_set run caps sets (a ∷ agents) h h' =
    (ground (arith, h.0, h'.0), add_set run caps sets agents h.1 h'.1)

no_set : (run : String) (agents : List AgentInstance) → All (λ a. suits_any run [] a ≡ false) agents
unfolding suits_any
no_set run [] = tt
no_set run (a ∷ agents) = (refl, no_set run agents)

reserve_with-none :
    (run : String) (sets : List (List String)) (task : String) (now : ℕ)
    (agents : List AgentInstance)
    → reserve_with run sets task now agents ≡ none
    → All (λ a. suits_any run sets a ≡ false) agents
unfolding reserve_with
reserve_with-none run [] task now agents e = no_set run agents
reserve_with-none run (caps ∷ sets) task now agents e =
    let (here, rest) = or_next-none (reserve_among run caps task now agents) _ e in
    add_set run caps sets agents (reserve_among-none run caps task now agents here)
      (reserve_with-none run sets task now agents rest)

-- Of the agents with `Q`, one that suits some set, as it is claimed.
abbrev Claims {ℓ} :
    (AgentInstance → Type ℓ) → String → List (List String) → String → AgentInstance → Type ℓ
Claims Q run sets task a' =
    (a : AgentInstance) × Q a
    × (suits_any run sets a ≡ true)
    × (a'.agent_id ≡ a.agent_id)
    × (a'.status ≡ AgentStatus.claiming)
    × (a'.current_task_id ≡ some task)

reserve_with-Claims {ℓ} :
    (Q : AgentInstance → Type ℓ) (run : String) (sets : List (List String)) (task : String)
    (now : ℕ) (agents : List AgentInstance) (a' : AgentInstance)
    → All Q agents
    → reserve_with run sets task now agents ≡ some a'
    → Claims Q run sets task a'
unfolding reserve_with suits_any
reserve_with-Claims Q run [] task now agents a' h e = cc
reserve_with-Claims Q run (caps ∷ sets) task now agents a' h e =
    elim (Keeping.or_next-cases (reserve_among run caps task now agents) _ a' e) [
      | inl here ↦
          let (a, q, t) = Keeping.reserve_among-found Q run task now caps agents a' h here in
          let (id, status, held) = try_reserve-claims run caps task now a a' t in
          (a, q, ground (arith, try_reserve-suits run caps task now a a' t), id, status, held)
      | inr there ↦
          let (a, q, s, id, status, held) =
            reserve_with-Claims Q run sets task now agents a' h there in
          (a, q, ground (arith, s), id, status, held)
    ]

All-split {ℓ κ} :
    {A : Type ℓ} (Q : A → Type κ) (p : A → Bool) (xs : List A)
    → All Q (keep p xs)
    → All Q (keep (λ x. not (p x)) xs)
    → All Q xs
All-split Q p [] h h' = tt
All-split Q p (x ∷ xs) h h' = elim (Bool-cases (p x)) [
  | inl e ↦ ground (arith, All-split Q p xs)
  | inr e ↦ ground (arith, All-split Q p xs)
]

All-parts {ℓ κ} :
    {A : Type ℓ} (Q : A → Type κ) (xs ys : List A) → All Q (xs ++ ys) → All Q xs × All Q ys
All-parts Q [] ys h = (tt, h)
All-parts Q (x ∷ xs) ys h = let (l, r) = All-parts Q xs ys h.1 in ((h.0, l), r)

preferred_first-All' {ℓ} :
    (Q : AgentInstance → Type ℓ) (o : Option String) (agents : List AgentInstance)
    → All Q (preferred_first o agents)
    → All Q agents
preferred_first-All' Q none agents h = h
preferred_first-All' Q (some p) agents h = elim (Bool-cases (p == "")) [
  | inl e ↦ rw e at h
  | inr e ↦
      let (l, r) =
        All-parts Q (keep (λ a. a.agent_id == p) agents) (keep (λ a. not (a.agent_id == p)) agents)
          (rw e at h) in
      All-split Q (λ a. a.agent_id == p) agents l r
]

-- On a registry where every agent stands under its own id, once, and agrees with its row in the
-- columns that each write sets, reserve_idle_agent changes nothing and returns none, and then no
-- held agent of the run is IDLE with a free slot and the required capabilities, nor with what
-- strip_caps leaves of them; or it returns and saves such an agent, CLAIMING with the task.
pub reserve-exact :
    (r : Registry) (run : String) (required : List String) (task : String)
    (preferred : Option String) (now : ℕ)
    → IsDurable r
    → ((reserve_idle_agent r run required task preferred now ≡ (r, none))
        × All (λ a. suits_any run (use_caps_list required) a ≡ false) (values r.agents))
      ⊎ ((a : AgentInstance) × (a' : AgentInstance) × (lookup a.agent_id r.agents ≡ some a)
          × (suits_any run (use_caps_list required) a ≡ true)
          × (reserve_idle_agent r run required task preferred now ≡ (save a.agent_id a' r, some a'))
          × (a'.agent_id ≡ a.agent_id)
          × (a'.status ≡ AgentStatus.claiming)
          × (a'.current_task_id ≡ some task))
unfolding reserve_idle_agent
reserve-exact r run required task preferred now d =
    elim (Option-cases (reserve_with run (use_caps_list required) task now agents)) [
      | inl e ↦ inl (
        rw e refl,
        preferred_first-All' (λ a. suits_any run (use_caps_list required) a ≡ false) preferred
            (values r.agents) (reserve_with-none run (use_caps_list required) task now agents e),
      )
      | inr (a', e) ↦
          let (a, held, suit, id, status, has_task) =
            reserve_with-Claims (λ a. lookup a.agent_id r.agents ≡ some a) run
              (use_caps_list required) task now agents a'
              (Keeping.preferred_first-All (λ a. lookup a.agent_id r.agents ≡ some a) preferred
                (values r.agents)
                (Keeping.held_values r.agents d.keyed (entries-lookup r.agents d.nodup)))
              e in
          inr (a, a', held, suit, rw (e, sym id) refl, id, status, has_task)
    ]
  where
    agents : List AgentInstance
    agents = preferred_first preferred (values r.agents)
