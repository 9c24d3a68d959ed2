-- ===== src/Registry/Samples.antt =====
-- app/multiagent/agent_registry.py: a registry of two agents, on which the theorems are used.
use mega_deepagents.Base.{
  ℕ, String, Bool, true, false, Option, none, some, List, [], ◌∷◌, ◌≡◌, ◌≢◌, ◌⊎◌, refl, All,
  contains, string_eq, if◌then◌else◌,
}
use mega_deepagents.Base.Dict.{lookup, values}
use mega_deepagents.Agent.Instance.{AgentInstance, AgentStatus}
use mega_deepagents.Registry.Pool.{Registry, new_registry, save, use_caps_list, reserve_idle_agent}
use mega_deepagents.Registry.Row.{row_of}
use mega_deepagents.Registry.Leases.{cleanup_expired}
use mega_deepagents.Registry.Calls
use mega_deepagents.Registry.Calls.{Call, calls}
use mega_deepagents.Registry.Durable.{IsDurable, save-IsDurable, new_registry-IsDurable}
use mega_deepagents.Registry.Reserve
use mega_deepagents.Registry.Reserve.{suits_any}
use mega_deepagents.Registry.Exclusive
use mega_deepagents.Registry.Exclusive.{Holds, id_of, frees}
use mega_deepagents.Registry.Expiry
use mega_deepagents.Registry.Expiry.{has_lapsed, as_failed}

abbrev agent : String → AgentStatus → Option String → List String → AgentInstance
agent id status task capabilities = record {
  agent_id = id;
  team_id = "team";
  run_id = "r";
  profile_id = "coder";
  name = id;
  role = "coder";
  description = "";
  session_id = "";
  thread_id = "";
  checkpoint_namespace = "";
  status = status;
  current_task_id = task;
  workspace_root = "";
  worktree_path = "";
  mailbox_cursor = 0;
  last_heartbeat_at = some 1000;
  capabilities = capabilities;
  created_at = 0;
  updated_at = 0;
  stopped_at = none;
  max_concurrency = 1;
}

abbrev coder : AgentInstance
coder = agent "coder" AgentStatus.idle none ("coding" ∷ [])

abbrev tester : AgentInstance
tester = agent "tester" AgentStatus.running (some "t0") ("testing" ∷ [])

abbrev sample : Registry
sample = record {
  agents = ("coder", coder) ∷ ("tester", tester) ∷ [];
  lease_timeout = 60;
  rows = ("coder", row_of coder) ∷ ("tester", row_of tester) ∷ [];
}

sample-IsDurable : IsDurable sample
unfolding save lookup mega_deepagents.Base.Dict.insert mega_deepagents.Base.Equality.string_eq
sample-IsDurable =
    save-IsDurable "tester" tester _ refl
      (save-IsDurable "coder" coder (new_registry 60) refl (new_registry-IsDurable 60))

-- The coder is reserved, though `file_write` is not among its capabilities.
sample_reserved :
    id_of (reserve_idle_agent sample "r" ("coding" ∷ "file_write" ∷ []) "t1" none 2000).1
    ≡ some "coder"
unfolding reserve_idle_agent mega_deepagents.Base.Equality.string_eq
    mega_deepagents.Agent.Instance.is_idle mega_deepagents.Agent.Instance.update_status
    mega_deepagents.Agent.Instance.is_legal_agent_transition
    mega_deepagents.Agent.Instance.heartbeat
sample_reserved = refl

abbrev later : List (ℕ × Call)
later =
    (3000, Call.heartbeat "coder")
    ∷ (4000, Call.release "coder" (some "t0"))
    ∷ (5000, Call.stop "coder")
    ∷ (6000, Call.transition "tester" AgentStatus.idle)
    ∷ []

later_free : All (λ (c : ℕ × Call). frees "coder" "t1" c.1 ≡ false) later
unfolding mega_deepagents.Base.Equality.string_eq mega_deepagents.Base.Equality.option_eq
later_free = (refl, (refl, (refl, (refl, tt))))

reserve-exact_example :
    ((reserve_idle_agent sample "r" ("coding" ∷ []) "t1" none 2000 ≡ (sample, none))
      × All (λ a. suits_any "r" (use_caps_list ("coding" ∷ [])) a ≡ false) (values sample.agents))
    ⊎ ((a : AgentInstance) × (a' : AgentInstance) × (lookup a.agent_id sample.agents ≡ some a)
        × (suits_any "r" (use_caps_list ("coding" ∷ [])) a ≡ true)
        × (reserve_idle_agent sample "r" ("coding" ∷ []) "t1" none 2000
            ≡ (save a.agent_id a' sample, some a'))
        × (a'.agent_id ≡ a.agent_id)
        × (a'.status ≡ AgentStatus.claiming)
        × (a'.current_task_id ≡ some "t1"))
reserve-exact_example =
    Reserve.reserve-exact sample "r" ("coding" ∷ []) "t1" none 2000 sample-IsDurable

abbrev reserved : Registry
reserved = (reserve_idle_agent sample "r" ("coding" ∷ "file_write" ∷ []) "t1" none 2000).0

reserved_once_example :
    Holds "coder" "t1" (calls reserved later)
    × (id_of (reserve_idle_agent (calls reserved later) "r" ("coding" ∷ []) "t2" none 7000).1
        ≢ some "coder")
reserved_once_example =
    Exclusive.reserved_once sample "r" ("coding" ∷ "file_write" ∷ []) "t1" none 2000 "coder" later
      "r" ("coding" ∷ []) "t2" none 7000 sample-IsDurable sample_reserved later_free

found_tester : lookup "tester" sample.agents ≡ some tester
unfolding lookup mega_deepagents.Base.Equality.string_eq
found_tester = refl

-- Its lease of a minute has run out.
tester_lapsed : has_lapsed 60 62000 tester ≡ true
tester_lapsed = refl

cleanup_expired-exact_example :
    (contains (cleanup_expired sample 62000).1 "tester" ≡ has_lapsed 60 62000 tester)
    × (lookup "tester" (cleanup_expired sample 62000).0.agents
        ≡ some (if has_lapsed 60 62000 tester then as_failed 62000 tester else tester))
cleanup_expired-exact_example =
    Expiry.cleanup_expired-exact sample 62000 "tester" tester sample-IsDurable found_tester
