-- ===== src/Scheduler/Starting.antt =====
-- app/multiagent/parallel_scheduler.py: `_run_one` starts what `_discover_dispatchable` selected.
use mathlib.Core.List.{Memᴰ}
use mega_deepagents.Base.{
  ℕ, String, Bool, true, false, Option, some, List, [], ◌≡◌, refl, sym, subst, inl, inr, All, leb,
  both_true, string_eq, pair_eq,
}
use mega_deepagents.Base.Dict.{AllEntries-lookup}
use mega_deepagents.Agent.Instance.{AgentInstance}
use mega_deepagents.Registry.Pool
use mega_deepagents.Registry.Pool.{Registry, subset, use_caps_list, reserve_idle_agent}
use mega_deepagents.Registry.Durable.{IsDurable}
use mega_deepagents.Registry.Reserve.{reserve-exact, suits, suits_any}
use mega_deepagents.TaskBoard.Task.{BoardTask}
use mega_deepagents.TaskBoard.Store.{Board, raw_get}
use mega_deepagents.TaskBoard.Worker.{claim}
use mega_deepagents.TaskBoard.Query.{is_claimable, covers}
use mega_deepagents.TaskBoard.Invariant.{IsSound, claim-IsSound}
use mega_deepagents.TaskBoard.Claiming.{claim_exclusive}
use mega_deepagents.TaskBoard.Listing.{listed-claim}
use mega_deepagents.LifecycleHooks.Engine.{HookResult}
use mega_deepagents.Scheduler.Dispatch.{Scheduler, deps_satisfied, wave}
use mega_deepagents.Scheduler.Wave.{Ready, Idle, wave-is_safe}
use mega_deepagents.Scheduler.Begin.{
  Begun, started, stops_task, after_start, after_claim, after_reservation, begin_task,
}
use mega_deepagents.Scheduler.Handover.{start-running}
use mega_deepagents.Scheduler.Progress.{values-AllEntries}

abbrev pub has_started : Begun → Bool
has_started (started a) = true
has_started _ = false

All-member {ℓ κ} : {A : Type ℓ} (P : A → Type κ) {x : A} {xs : List A} → All P xs → Memᴰ x xs → P x
All-member P h (Memᴰ.head e) = subst P (sym e) h.0
All-member P h (Memᴰ.tail m) = All-member P h.1 m

deps_satisfied-is_claimable :
    (b : Board) (run : String) (t : BoardTask)
    → deps_satisfied b run t ≡ true
    → is_claimable b run [] t ≡ true
unfolding deps_satisfied raw_get is_claimable covers
deps_satisfied-is_claimable b run t done = both_true _ true done refl

-- Whoever claims a ready task gets it.
Ready-claim :
    {b : Board} (run agent : String) (now : ℕ) (t : BoardTask)
    → IsSound b
    → Ready b run now t
    → (claim b t.task_id agent (some run) now).1.success ≡ true
Ready-claim {b} run agent now t sound (held, waiting, due, done) =
    listed-claim run agent [] now t sound held waiting (deps_satisfied-is_claimable b run t done)

Idle-suits :
    (r : Registry) (run : String) (required : List String) (a : AgentInstance)
    → Idle r run a
    → subset required a.capabilities ≡ true
    → leb 1 a.max_concurrency ≡ true
    → suits_any run (use_caps_list required) a ≡ true
unfolding suits_any suits use_caps_list
Idle-suits r run required a (held, own, idle) fits free = rw (own, idle, fits, free) refl

claimed-starts :
    {b : Board} (r : Registry) (run : String) (t : BoardTask) (a : AgentInstance)
    (claim_hook start_hook : HookResult) (now : ℕ)
    → IsSound b
    → stops_task claim_hook ≡ false
    → stops_task start_hook ≡ false
    → (claim b t.task_id a.agent_id (some run) now).1.success ≡ true
    → has_started
        (after_claim r run t.task_id a claim_hook start_hook now
          (claim b t.task_id a.agent_id (some run) now)).2
      ≡ true
unfolding after_claim after_start
claimed-starts {b} r run t a claim_hook start_hook now sound goes goes' won =
    let sound' = claim-IsSound t.task_id a.agent_id (some run) now sound in
    let (t', held, own, status) =
      (claim_exclusive t.task_id a.agent_id a.agent_id run now now sound won).0 in
    let (went, _) =
      start-running run t.task_id a.agent_id now sound'.well_formed (t', held, status, own) in
    rw (won, goes, went, goes') refl

-- On a sound board, and a registry where every agent stands under its own id, once, and agrees with
-- its row in the columns that each write sets: if the agent of a selected task has all the
-- capabilities that the task requires, and a free slot, and the hooks on the claim and on the start
-- allow it, then in a run that is not cancelled _run_one starts the task, for that agent or for
-- another.
pub selected-starts :
    {b : Board} (s : Scheduler) (r : Registry) (running : List String) (now : ℕ) (t : BoardTask)
    (a : AgentInstance) (hint : Option String) (claim_hook start_hook : HookResult)
    → IsSound b
    → IsDurable r
    → Memᴰ (t, a) (wave s b r running now)
    → subset t.required_capabilities a.capabilities ≡ true
    → leb 1 a.max_concurrency ≡ true
    → stops_task claim_hook ≡ false
    → stops_task start_hook ≡ false
    → has_started (begin_task false r b s.run_id t hint claim_hook start_hook now).2 ≡ true
unfolding begin_task after_reservation
selected-starts {b} s r running now t a hint claim_hook start_hook sound durable chosen fits free
      goes goes' =
    let (waiting, idle, _) = All-member _ (wave-is_safe s r running now sound durable).0 chosen in
    elim (reserve-exact r s.run_id t.required_capabilities t.task_id hint now durable) [
      | inl (e, none_suits) ↦
          let suit = Idle-suits r s.run_id t.required_capabilities a idle fits free in
          let unfit =
            AllEntries-lookup _ a.agent_id r.agents (values-AllEntries _ r.agents none_suits)
              idle.0 in
          absurd (cc (suit, unfit))
      | inr (a0, a', held, suit, e, same, status, task) ↦ rw e (
          claimed-starts (Pool.save a0.agent_id a' r) s.run_id t a' claim_hook start_hook now sound
            goes goes' (Ready-claim s.run_id a'.agent_id now t sound waiting.0))
    ]
