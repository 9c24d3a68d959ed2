-- ===== src/Registry/Exclusive.antt =====
-- app/multiagent/agent_registry.py: a reservation keeps its agent for its task until a call frees it.
use mega_deepagents.Base.{
  ℕ, String, Bool, true, false, not, ◌&&◌, Option, none, some, List, [], ◌∷◌, ◌≡◌, ◌≢◌, refl, sym,
  ◌∙◌, subst, arith, ap, ◌==◌, eq→path, eq_self, string_eq, option_eq, inl, inr, All,
}
use mathlib.Core.Option.{some-injective, none-ne-some}
use mega_deepagents.Base.Dict.{lookup, lookup-insert, lookup-erase}
use mega_deepagents.Agent.Instance
use mega_deepagents.Agent.Instance.{AgentInstance, AgentStatus, update_status, is_idle}
use mega_deepagents.Registry.Pool.{
  Registry, save, register_agent, create_agent, or_else, try_reserve, use_caps_list,
  reserve_idle_agent,
}
use mega_deepagents.Registry.Leases
use mega_deepagents.Registry.Leases.{
  is_active, other_task, release_agent, release_reservation, stop_agent, if_changed,
}
use mega_deepagents.Registry.Calls
use mega_deepagents.Registry.Calls.{Call, call, calls}
use mega_deepagents.Registry.Keeping
use mega_deepagents.Registry.Durable.{IsDurable}
use mega_deepagents.Registry.Reserve.{suits, suits_any, reserve-exact}

-- The agent is there with the task, CLAIMING, RUNNING or STOPPING.
pub record Holds (id task : String) (r : Registry) : Type 0 where
  pub agent : AgentInstance
  pub found : lookup id r.agents ≡ some agent
  pub has_task : agent.current_task_id ≡ some task
  pub active : is_active agent.status ≡ true

-- The calls that can take the agent from its task: those that name it, but heartbeats, stops and
-- the release of another task; and those on all agents.
abbrev pub frees : String → String → Call → Bool
frees id task (Call.register a) = a.agent_id == id
frees id task (Call.create s agent_id _ _) = or_else s.agent_id_override agent_id == id
frees id task (Call.reserve _ _ _ _) = false
frees id task (Call.release agent_id named) = (agent_id == id) && not (other_task named (some task))
frees id task (Call.transition agent_id _) = agent_id == id
frees id task (Call.heartbeat _) = false
frees id task Call.cleanup = true
frees id task (Call.stop _) = false
frees id task (Call.remove agent_id) = agent_id == id
frees id task (Call.purge _) = true

module _ (id task : String) where
  save-Holds :
      (k : String) (a : AgentInstance) (r : Registry)
      → Holds id task r
      → (k ≡ id → (a.current_task_id ≡ some task) × (is_active a.status ≡ true))
      → Holds id task (save k a r)
  unfolding save
  save-Holds k a r h same = elim (string_eq.dec id k) [
    | yes e ↦
        let (t, s) = same (sym e) in
        record {
          agent = a;
          found = ground (arith, lookup-insert id k a r.agents, eq_self id);
          has_task = t;
          active = s;
        }
    | no n ↦ record {
      agent = h.agent;
      found = ground (arith, lookup-insert id k a r.agents, h.found);
      has_task = h.has_task;
      active = h.active;
    }
  ]

  change-Holds :
      (r : Registry) (k : String) (change : AgentInstance → Option AgentInstance)
      → ((a a' : AgentInstance)
          → k ≡ id
          → a.current_task_id ≡ some task
          → is_active a.status ≡ true
          → change a ≡ some a'
          → (a'.current_task_id ≡ some task) × (is_active a'.status ≡ true))
      → Holds id task r
      → Holds id task (Leases.on_agent r k change).0
  change-Holds r k change same h =
      Keeping.on_agent-keeps (Holds id task) r k change h (λ a a' held e. save-Holds k a' r h (λ p.
        let q : h.agent ≡ a =
          some-injective h.agent a
            (sym h.found ∙ subst (λ (x : String). lookup x r.agents ≡ some a) p held) in
        same a a' p (subst (λ (x : AgentInstance). x.current_task_id ≡ some task) q h.has_task)
          (subst (λ (x : AgentInstance). is_active x.status ≡ true) q h.active) e))

  idle_free :
      (r : Registry) (a : AgentInstance)
      → Holds id task r
      → lookup a.agent_id r.agents ≡ some a
      → is_idle a ≡ true
      → a.agent_id ≢ id
  unfolding is_idle
  idle_free r a h held e p =
      let q : h.agent ≡ a =
        some-injective h.agent a
          (sym h.found ∙ subst (λ (x : String). lookup x r.agents ≡ some a) p held) in
      let s = subst (λ (x : AgentInstance). is_active x.status ≡ true) q h.active in ground arith

  call-Holds :
      (r : Registry) (now : ℕ) (c : Call)
      → IsDurable r
      → Holds id task r
      → frees id task c ≡ false
      → Holds id task (call r now c)
  unfolding register_agent create_agent release_reservation Leases.transition Leases.heartbeat
      Leases.stop Leases.remove release_agent stop_agent update_status Instance.heartbeat
      try_reserve Instance.is_legal_agent_transition
  call-Holds r now (Call.register a) d h free =
      save-Holds a.agent_id (Instance.heartbeat a now) r h (λ p. ground (arith, eq_self id))
  call-Holds r now (Call.create s agent_id session thread) d h free =
      save-Holds (or_else s.agent_id_override agent_id) _ r h (λ p. ground (arith, eq_self id))
  call-Holds r now (Call.reserve run caps task' preferred) d h free =
      Keeping.reserve-keeps (Holds id task) r run caps task' preferred now d h (λ sets a a' held e.
        save-Holds a'.agent_id a' r h
          (λ p. absurd (idle_free r a h held (ground arith) (ground arith))))
  call-Holds r now (Call.release agent_id named) d h free =
      change-Holds r agent_id (release_agent named now) (λ a a' p t s e. ground (arith, eq_self id))
        h
  call-Holds r now (Call.transition agent_id status) d h free =
      change-Holds r agent_id (λ a. if_changed (update_status a status now))
        (λ a a' p t s e. ground (arith, eq_self id)) h
  call-Holds r now (Call.heartbeat agent_id) d h free =
      change-Holds r agent_id (λ a. some (Instance.heartbeat a now))
        (λ a a' p t s e. (ground arith, ground arith)) h
  call-Holds r now Call.cleanup d h free = cc
  call-Holds r now (Call.stop agent_id) d h free =
      change-Holds r agent_id (stop_agent now) (λ a a' p t s e. (ground arith, ground arith)) h
  call-Holds r now (Call.remove agent_id) d h free = record {
    agent = h.agent;
    found =
        ground (arith, lookup-erase id agent_id r.agents, h.found, eq_self id, eq→path id agent_id);
    has_task = h.has_task;
    active = h.active;
  }
  call-Holds r now (Call.purge run) d h free = cc

  calls-Holds :
      (cs : List (ℕ × Call)) (r : Registry)
      → IsDurable r
      → Holds id task r
      → All (λ (c : ℕ × Call). frees id task c.1 ≡ false) cs
      → Holds id task (calls r cs)
  unfolding calls
  calls-Holds [] r d h free = h
  calls-Holds ((now, c) ∷ cs) r d h free =
      calls-Holds cs (call r now c) (Calls.call-IsDurable r now c d) (call-Holds r now c d h free.0)
        free.1

abbrev pub id_of : Option AgentInstance → Option String
id_of none = none
id_of (some a) = some a.agent_id

lookup-save :
    (k : String) (a : AgentInstance) (r : Registry) → lookup k (save k a r).agents ≡ some a
unfolding save
lookup-save k a r = ground (arith, lookup-insert k k a r.agents, eq_self k)

pub suits_any-idle :
    (run : String) (sets : List (List String)) (a : AgentInstance)
    → suits_any run sets a ≡ true
    → is_idle a ≡ true
unfolding suits_any suits
suits_any-idle run [] a e = cc
suits_any-idle run (caps ∷ sets) a e = ground (arith, suits_any-idle run sets a)

module _ (r : Registry) (run : String) (required : List String) (task : String)
    (preferred : Option String) (now : ℕ) (id : String) (d : IsDurable r) where
  answer :
      {o : Registry × Option AgentInstance}
      → reserve_idle_agent r run required task preferred now ≡ o
      → id_of (reserve_idle_agent r run required task preferred now).1 ≡ id_of o.1
  answer same = ap (λ (o : Registry × Option AgentInstance). id_of o.1) same

  reserved-Holds :
      id_of (reserve_idle_agent r run required task preferred now).1 ≡ some id
      → Holds id task (reserve_idle_agent r run required task preferred now).0
  reserved-Holds e = elim (reserve-exact r run required task preferred now d) [
    | inl (same, _) ↦ absurd (none-ne-some id (sym (answer same) ∙ e))
    | inr (a, a', found, suit, same, ids, status, has_task) ↦
        let p : a.agent_id ≡ id = sym ids ∙ some-injective a'.agent_id id (sym (answer same) ∙ e) in
        let after : Holds id task (save a.agent_id a' r) = record {
          agent = a';
          found =
              subst (λ (x : String). lookup x (save a.agent_id a' r).agents ≡ some a') p
                (lookup-save a.agent_id a' r);
          has_task = has_task;
          active = rw status refl;
        } in
        subst (λ (o : Registry × Option AgentInstance). Holds id task o.0) (sym same) after
  ]

  not_again :
      (other : String)
      → Holds id other r
      → id_of (reserve_idle_agent r run required task preferred now).1 ≢ some id
  not_again other h e = elim (reserve-exact r run required task preferred now d) [
    | inl (same, _) ↦ none-ne-some id (sym (answer same) ∙ e)
    | inr (a, a', found, suit, same, ids, status, has_task) ↦
        idle_free id other r a h found (suits_any-idle run (use_caps_list required) a suit)
          (sym ids ∙ some-injective a'.agent_id id (sym (answer same) ∙ e))
  ]

-- If every agent stands under its own id, once, and agrees with its row in the columns that each
-- write sets, and an agent was reserved for a task, then after any further calls, none of which
-- names that agent (but for heartbeats, stops and the release of another task) and none of which is
-- cleanup_expired or purge_run, the agent is CLAIMING, RUNNING or STOPPING with that task, and no
-- reservation returns it again.
pub reserved_once :
    (r : Registry) (run : String) (required : List String) (task : String)
    (preferred : Option String) (now : ℕ) (id : String) (cs : List (ℕ × Call)) (run' : String)
    (required' : List String) (task' : String) (preferred' : Option String) (now' : ℕ)
    → IsDurable r
    → id_of (reserve_idle_agent r run required task preferred now).1 ≡ some id
    → All (λ (c : ℕ × Call). frees id task c.1 ≡ false) cs
    → let r' = calls (reserve_idle_agent r run required task preferred now).0 cs in
      Holds id task r'
      × (id_of (reserve_idle_agent r' run' required' task' preferred' now').1 ≢ some id)
unfolding save
reserved_once r run required task preferred now id cs run' required' task' preferred' now' d e
      free =
    let first = (reserve_idle_agent r run required task preferred now).0 in
    let first-durable = Calls.call-IsDurable r now (Call.reserve run required task preferred) d in
    let later =
      calls-Holds id task cs first first-durable
        (reserved-Holds r run required task preferred now id d e) free in
    (
      later,
      not_again (calls first cs) run' required' task' preferred' now' id
          (Calls.calls-IsDurable cs first first-durable) task later,
    )
