-- ===== src/Registry/Durable.antt =====
-- app/multiagent/agent_registry.py: what the table of agent instances says of the agents that are held.
use mega_deepagents.Base.{
  ℕ, String, true, false, Bool-cases, Option, none, some, ◌≡◌, refl, sym, ◌∙◌, arith, ◌==◌,
  string_eq, inl, inr, subst,
}
use mega_deepagents.Base.Dict.{
  Dict, lookup, insert, NodupKeys, AllEntries, lookup-nil, lookup-insert, insert-NodupKeys,
  AllEntries-insert,
}
use mega_deepagents.Agent.Instance.{AgentInstance}
use mega_deepagents.Registry.Pool.{Registry, persist, new_registry, save}
use mega_deepagents.Registry.Row.{AgentRow, upserted}

-- The columns that every write sets.
abbrev pub AgreesWith : AgentInstance → AgentRow → Type 0
AgreesWith a row =
    (row.status ≡ a.status)
    × (row.current_task_id ≡ a.current_task_id)
    × (row.last_heartbeat_at ≡ a.last_heartbeat_at)
    × (row.capabilities ≡ a.capabilities)
    × (row.worktree_path ≡ a.worktree_path)
    × (row.mailbox_cursor ≡ a.mailbox_cursor)
    × (row.stopped_at ≡ a.stopped_at)

-- Every agent stands under its own id, once, and has a row in the table, which agrees with it.
pub record IsDurable (r : Registry) : Type 0 where
  pub keyed : AllEntries (λ k a. k ≡ a.agent_id) r.agents
  pub nodup : NodupKeys r.agents
  pub stored :
      (k : String) (a : AgentInstance)
      → lookup k r.agents ≡ some a
      → (row : AgentRow) × (lookup k r.rows ≡ some row) × AgreesWith a row

upserted-AgreesWith : (a : AgentInstance) (o : Option AgentRow) → AgreesWith a (upserted a o)
upserted-AgreesWith a none = (refl, refl, refl, refl, refl, refl, refl)
upserted-AgreesWith a (some row) = (refl, refl, refl, refl, refl, refl, refl)

insert_here {ℓ} :
    {V : Type ℓ} (j k : String) (x v : V) (d : Dict String V)
    → (j == k) ≡ true
    → lookup j (insert k v d) ≡ some x
    → x ≡ v
insert_here j k x v d here h = ground (arith, lookup-insert j k v d)

insert_other {ℓ} :
    {V : Type ℓ} (j k : String) (v : V) (d : Dict String V)
    → (j == k) ≡ false
    → lookup j (insert k v d) ≡ lookup j d
insert_other j k v d other = ground (arith, lookup-insert j k v d)

insert_found {ℓ} :
    {V : Type ℓ} (j k : String) (v : V) (d : Dict String V)
    → (j == k) ≡ true
    → lookup j (insert k v d) ≡ some v
insert_found j k v d here = ground (arith, lookup-insert j k v d)

pub save-IsDurable :
    (k : String) (a : AgentInstance) (r : Registry)
    → k ≡ a.agent_id
    → IsDurable r
    → IsDurable (save k a r)
unfolding save persist
save-IsDurable k a r e d = record {
  keyed = AllEntries-insert (λ j x. j ≡ x.agent_id) k a r.agents d.keyed e;
  nodup = insert-NodupKeys k a r.agents d.nodup;
  stored = λ j x h.
      let row = upserted a (lookup a.agent_id r.rows) in
      elim (Bool-cases (j == k)) [
        | inl here ↦ (
          row,
          insert_found j a.agent_id row r.rows (rw e at here),
          subst (λ (y : AgentInstance). AgreesWith y row)
              (sym (insert_here j k x a r.agents here h))
              (upserted-AgreesWith a (lookup a.agent_id r.rows)),
        )
        | inr other ↦
            let (old, held, agrees) = d.stored j x (sym (insert_other j k a r.agents other) ∙ h) in
            (old, insert_other j a.agent_id row r.rows (rw e at other) ∙ held, agrees)
      ];
}

pub new_registry-IsDurable : (lease : ℕ) → IsDurable (new_registry lease)
new_registry-IsDurable lease = record {
  keyed = tt;
  nodup = tt;
  stored = λ k a h. cc (rw (lookup-nil {V = AgentInstance} k) at h);
}
