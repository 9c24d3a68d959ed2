-- ===== src/Registry/Calls.antt =====
-- app/multiagent/agent_registry.py: histories of calls on the registry, whose lock makes each atomic,
-- and the invariant that they keep.
use mega_deepagents.Base.{
  ℕ, String, Option, some, List, [], ◌∷◌, ◌≡◌, refl, sym, ◌∙◌, arith, string_eq,
}
use mega_deepagents.Base.Dict.{
  erase, lookup-erase, erase-NodupKeys, AllEntries-erase, AllEntries-lookup,
}
use mega_deepagents.Agent.Instance
use mega_deepagents.Agent.Instance.{AgentInstance, AgentStatus, update_status}
use mega_deepagents.Registry.Pool.{
  Registry, AgentSpec, register_agent, create_agent, or_else, reserve_idle_agent,
}
use mega_deepagents.Registry.Leases
use mega_deepagents.Registry.Leases.{
  on_agent, on_found, answered, release_agent, release_reservation, if_changed, expire, expire_each,
  cleanup_expired, stop_agent, ids_of_run, erase_all,
}
use mega_deepagents.Registry.Durable.{IsDurable, save-IsDurable}
use mega_deepagents.Registry.Keeping.{on_agent-keeps, reserve-keeps, expire_each-keeps}

pub data Call : Type 0 where
  register : AgentInstance → Call
  create : AgentSpec → String → String → String → Call
  reserve : String → List String → String → Option String → Call
  release : String → Option String → Call
  transition : String → AgentStatus → Call
  heartbeat : String → Call
  cleanup : Call
  stop : String → Call
  remove : String → Call
  purge : String → Call

abbrev pub call : Registry → ℕ → Call → Registry
call r now (register a) = (register_agent r a now).0
call r now (create s agent_id session_id thread_id) =
    (create_agent r s agent_id session_id thread_id now).0
call r now (reserve run_id caps task_id preferred) =
    (reserve_idle_agent r run_id caps task_id preferred now).0
call r now (release agent_id task_id) = (release_reservation r agent_id task_id now).0
call r now (transition agent_id status) = (Leases.transition r agent_id status now).0
call r now (heartbeat agent_id) = (Leases.heartbeat r agent_id now).0
call r now cleanup = (cleanup_expired r now).0
call r now (stop agent_id) = (Leases.stop r agent_id now).0
call r now (remove agent_id) = (Leases.remove r agent_id).0
call r now (purge run_id) = (Leases.purge_run r run_id).0

unfoldable pub calls : Registry → List (ℕ × Call) → Registry
calls r [] = r
calls r ((now, c) ∷ cs) = calls (call r now c) cs

erase-IsDurable :
    (k : String) (r : Registry) → IsDurable r → IsDurable (record r { agents = erase k r.agents })
erase-IsDurable k r d = record {
  keyed = AllEntries-erase (λ j x. j ≡ x.agent_id) k r.agents d.keyed;
  nodup = erase-NodupKeys k r.agents d.nodup;
  stored = λ j x h. d.stored j x (ground (arith, lookup-erase j k r.agents));
}

erase_all-IsDurable :
    (ids : List String) (r : Registry)
    → IsDurable r
    → IsDurable (record r { agents = erase_all ids r.agents })
unfolding erase_all
erase_all-IsDurable [] r d = d
erase_all-IsDurable (k ∷ ids) r d =
    erase_all-IsDurable ids (record r { agents = erase k r.agents }) (erase-IsDurable k r d)

change-IsDurable :
    (r : Registry) (k : String) (change : AgentInstance → Option AgentInstance)
    → ((a a' : AgentInstance) → change a ≡ some a' → a'.agent_id ≡ a.agent_id)
    → IsDurable r
    → IsDurable (on_agent r k change).0
change-IsDurable r k change same d = on_agent-keeps IsDurable r k change d (λ a a' held e.
    save-IsDurable k a' r
      (AllEntries-lookup (λ j x. j ≡ x.agent_id) k r.agents d.keyed held ∙ sym (same a a' e)) d)

pub call-IsDurable : (r : Registry) (now : ℕ) (c : Call) → IsDurable r → IsDurable (call r now c)
unfolding register_agent create_agent release_reservation Leases.transition Leases.heartbeat
    Leases.stop Leases.remove Leases.purge_run cleanup_expired release_agent stop_agent
    update_status Instance.heartbeat expire
call-IsDurable r now (register a) d = save-IsDurable a.agent_id (Instance.heartbeat a now) r refl d
call-IsDurable r now (create s id session thread) d =
    save-IsDurable (or_else s.agent_id_override id) _ r refl d
call-IsDurable r now (reserve run caps task preferred) d =
    reserve-keeps IsDurable r run caps task preferred now d d
      (λ sets a a' held e. save-IsDurable a'.agent_id a' r refl d)
call-IsDurable r now (release id task) d =
    change-IsDurable r id (release_agent task now) (λ a a' e. ground arith) d
call-IsDurable r now (transition id s) d =
    change-IsDurable r id (λ a. if_changed (update_status a s now)) (λ a a' e. ground arith) d
call-IsDurable r now (heartbeat id) d =
    change-IsDurable r id (λ a. some (Instance.heartbeat a now)) (λ a a' e. ground arith) d
call-IsDurable r now cleanup d =
    expire_each-keeps IsDurable (λ k a. k ≡ a.agent_id) now r.agents r d.keyed d
      (λ s k a a' ds same e. save-IsDurable k a' s (same ∙ ground arith) ds)
call-IsDurable r now (stop id) d = change-IsDurable r id (stop_agent now) (λ a a' e. ground arith) d
call-IsDurable r now (remove id) d = erase-IsDurable id r d
call-IsDurable r now (purge run) d = erase_all-IsDurable (ids_of_run run r.agents) r d

pub calls-IsDurable : (cs : List (ℕ × Call)) (r : Registry) → IsDurable r → IsDurable (calls r cs)
unfolding calls
calls-IsDurable [] r d = d
calls-IsDurable ((now, c) ∷ cs) r d = calls-IsDurable cs (call r now c) (call-IsDurable r now c d)
