-- ===== src/Registry/Expiry.antt =====
-- app/multiagent/agent_registry.py: what `cleanup_expired` does to each agent.
use mega_deepagents.Base.{
  ℕ, ◌*◌, ◌-◌, String, Bool, false, ◌&&◌, none, some, [], ◌∷◌, ◌≡◌, refl, arith, eq_self,
  if◌then◌else◌, string_eq, contains, ltb,
}
use mathlib.Core.Option.{some-injective}
use mega_deepagents.Base.Dict.{Dict, lookup, NodupKeys, lookup-insert}
use mega_deepagents.Agent.Instance
use mega_deepagents.Agent.Instance.{AgentInstance, AgentStatus, update_status}
use mega_deepagents.Registry.Pool.{Registry, save}
use mega_deepagents.Registry.Leases.{is_active, expire, expire_each, cleanup_expired}
use mega_deepagents.Registry.Durable.{IsDurable}

-- CLAIMING, RUNNING or STOPPING, and its last heartbeat is further back than the lease.
abbrev pub has_lapsed : ℕ → ℕ → AgentInstance → Bool
has_lapsed lease now a = elim a.last_heartbeat_at [
  | none ↦ false
  | some last ↦ is_active a.status && ltb (lease * 1000) (now - last)
]

abbrev pub as_failed : ℕ → AgentInstance → AgentInstance
as_failed now a = record a { status = AgentStatus.failed; updated_at = now; stopped_at = some now }

expire_lem :
    (lease now : ℕ) (a : AgentInstance)
    → expire lease now a ≡ (if has_lapsed lease now a then some (as_failed now a) else none)
unfolding expire update_status Instance.is_alive Instance.is_down Instance.is_legal_agent_transition
expire_lem lease now a = ground arith

expire_each-other :
    (now : ℕ) (k : String) (entries : Dict String AgentInstance) (r : Registry)
    → lookup k entries ≡ none
    → (lookup k (expire_each now entries r).0.agents ≡ lookup k r.agents)
      × (contains (expire_each now entries r).1 k ≡ false)
unfolding expire_each save lookup
expire_each-other now k [] r e = (refl, refl)
expire_each-other now k ((j, a) ∷ entries) r e =
    let kept = expire_each-other now k entries r (ground arith) in
    let failed = expire_each-other now k entries (save j (as_failed now a) r) (ground arith) in
    (
      ground (
        arith,
        expire_lem r.lease_timeout now a,
        e,
        kept.0,
        failed.0,
        lookup-insert k j (as_failed now a) r.agents,
      ),
      ground (arith, expire_lem r.lease_timeout now a, e, kept.1, failed.1),
    )

expire_each-held :
    (now : ℕ) (k : String) (a : AgentInstance) (entries : Dict String AgentInstance) (r : Registry)
    → NodupKeys entries
    → lookup k entries ≡ some a
    → lookup k r.agents ≡ some a
    → let after = expire_each now entries r in
      (contains after.1 k ≡ has_lapsed r.lease_timeout now a)
      × (lookup k after.0.agents
          ≡ some (if has_lapsed r.lease_timeout now a then as_failed now a else a))
unfolding expire_each save lookup
expire_each-held now k a [] r u e h = cc
expire_each-held now k a ((j, b) ∷ entries) r u e h = elim (string_eq.dec k j) [
  | yes p ↦
      let fresh : lookup k entries ≡ none = ground (arith, u.0) in
      let same : b ≡ a = some-injective b a (ground (arith, e)) in
      let kept = expire_each-other now k entries r fresh in
      let failed = expire_each-other now k entries (save j (as_failed now b) r) fresh in
      (
        ground (arith, expire_lem r.lease_timeout now b, kept.1, failed.1, same, p, eq_self j),
        ground (
          arith,
          expire_lem r.lease_timeout now b,
          kept.0,
          failed.0,
          same,
          h,
          lookup-insert k j (as_failed now b) r.agents,
        ),
      )
  | no n ↦
      let e' : lookup k entries ≡ some a = ground arith in
      let kept = expire_each-held now k a entries r u.1 e' h in
      let failed =
        expire_each-held now k a entries (save j (as_failed now b) r) u.1 e'
          (ground (arith, lookup-insert k j (as_failed now b) r.agents)) in
      (
        ground (arith, expire_lem r.lease_timeout now b, kept.0, failed.0),
        ground (arith, expire_lem r.lease_timeout now b, kept.1, failed.1),
      )
]

-- On a registry where every agent stands under its own id, once, and agrees with its row in the
-- columns that each write sets, cleanup_expired fails and lists exactly the agents that are
-- CLAIMING, RUNNING or STOPPING and whose last heartbeat is further back than the lease; it leaves
-- every other agent as it is.
pub cleanup_expired-exact :
    (r : Registry) (now : ℕ) (k : String) (a : AgentInstance)
    → IsDurable r
    → lookup k r.agents ≡ some a
    → let after = cleanup_expired r now in
      (contains after.1 k ≡ has_lapsed r.lease_timeout now a)
      × (lookup k after.0.agents
          ≡ some (if has_lapsed r.lease_timeout now a then as_failed now a else a))
unfolding cleanup_expired
cleanup_expired-exact r now k a d h = expire_each-held now k a r.agents r d.nodup h h
