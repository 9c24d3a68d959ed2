-- ===== src/Scheduler/Settled.antt =====
-- app/multiagent/parallel_scheduler.py: what `_run_one` leaves of the agent and of the task.
use mega_deepagents.Base.{
  All, false, ℕ, String, Bool, true, Option, none, some, ◌≡◌, refl, ◌⊎◌, inl, inr, string_eq,
  option_eq, pair_eq, Bool-cases, subst,
}
use mega_deepagents.Base.Dict.{lookup, values}
use mega_deepagents.Agent.Instance.{AgentInstance, is_idle}
use mega_deepagents.Registry.Pool
use mega_deepagents.Registry.Pool.{Registry, reserve_idle_agent, use_caps_list}
use mega_deepagents.Registry.Leases.{release_reservation}
use mega_deepagents.Registry.Exclusive.{suits_any-idle}
use mega_deepagents.Registry.Durable.{IsDurable}
use mega_deepagents.Registry.Reserve.{suits_any, reserve-exact}
use mega_deepagents.TaskBoard.Task.{BoardTask, pending, claimed, running}
use mega_deepagents.TaskBoard.Store.{Board}
use mega_deepagents.TaskBoard.Worker.{claim}
use mega_deepagents.TaskBoard.WellFormed.{IsWellFormed}
use mega_deepagents.TaskBoard.Invariant.{IsSound, claim-IsSound}
use mega_deepagents.TaskBoard.Claiming.{claim_exclusive, claim-refused_same}
use mega_deepagents.LifecycleHooks.Engine.{HookResult}
use mega_deepagents.Scheduler.Handover.{
  IsReserved, IsFree, TaskIs, release_reservation-IsFree, release-pending, start-running,
  start-IsWellFormed, saved-IsReserved,
}
use mega_deepagents.Scheduler.Begin.{
  Begun, not_begun, given_back, started, stops_task, give_back, release_and_give_back, after_start,
  after_claim, after_reservation, begin_task,
}

-- What a call leaves. Nothing is changed, in a cancelled run or where no agent suits the task; or,
-- in a run that is not cancelled, an agent is free again, and the task is as it was, or PENDING
-- without a claimant; or the agent is reserved, and the task RUNNING for it.
abbrev pub IsHandedOver :
    Bool → Registry → Board → String → BoardTask → Registry × Board × Begun → Type 0
IsHandedOver is_cancelled r b run_id t (r', b', not_begun) =
    (r' ≡ r)
    × (b' ≡ b)
    × ((is_cancelled ≡ true)
        ⊎ All (λ a. suits_any run_id (use_caps_list t.required_capabilities) a ≡ false)
            (values r.agents))
IsHandedOver is_cancelled r b run_id t (r', b', given_back) =
    (is_cancelled ≡ false)
    × ((a : AgentInstance) × (lookup a.agent_id r.agents ≡ some a)
        × (is_idle a ≡ true)
        × IsFree r' a.agent_id)
    × ((b' ≡ b) ⊎ TaskIs b' run_id t.task_id pending none)
IsHandedOver is_cancelled r b run_id t (r', b', started a) =
    (is_cancelled ≡ false)
    × ((before : AgentInstance) × (lookup a.agent_id r.agents ≡ some before)
        × (is_idle before ≡ true))
    × IsReserved r' t.task_id a
    × TaskIs b' run_id t.task_id running (some a.agent_id)

-- The agent `a` was IDLE, and is held as reserved in `r'`.
abbrev Taken : Registry → Registry → String → AgentInstance → AgentInstance → Type 0
Taken r r' task_id a a' =
    (lookup a.agent_id r.agents ≡ some a)
    × (is_idle a ≡ true)
    × (a'.agent_id ≡ a.agent_id)
    × IsReserved r' task_id a'

module _ (r r' : Registry) (b : Board) (run_id : String) (t : BoardTask) (a a' : AgentInstance)
    (now : ℕ) (taken : Taken r r' t.task_id a a') where
  give_back-IsHandedOver :
      (b' : Board)
      → (b' ≡ b) ⊎ TaskIs b' run_id t.task_id pending none
      → IsHandedOver false r b run_id t (give_back r' b' t.task_id a' now)
  unfolding give_back
  give_back-IsHandedOver b' h =
      let (held, idle, same, reserved) = taken in
      (
        refl,
        (
          a,
          held,
          idle,
          subst
              (λ (k : String). IsFree (release_reservation r' a'.agent_id (some t.task_id) now).0 k)
              same (release_reservation-IsFree r' t.task_id a' now reserved),
        ),
        h,
      )

  after_start-IsHandedOver :
      (hook : HookResult) (b' : Board) (ok : Bool)
      → IsWellFormed b'
      → ok ≡ true
      → TaskIs b' run_id t.task_id running (some a'.agent_id)
      → IsHandedOver false r b run_id t (after_start r' run_id t.task_id a' hook now (b', ok))
  unfolding after_start release_and_give_back
  after_start-IsHandedOver hook b' ok w went task = elim (Bool-cases (stops_task hook)) [
    | inl e ↦
        rw (went, e)
          (give_back-IsHandedOver _
            (inr (release-pending run_id t.task_id a'.agent_id _ now running w refl task)))
    | inr e ↦
        let (held, idle, same, reserved) = taken in
        let found : lookup a'.agent_id r.agents ≡ some a = rw same held in
        rw (went, e) (refl, (a, found, idle), reserved, task)
  ]

  after_claim-IsHandedOver :
      (claim_hook start_hook : HookResult)
      → IsSound b
      → IsHandedOver false r b run_id t (
          after_claim r' run_id t.task_id a' claim_hook start_hook now
            (claim b t.task_id a'.agent_id (some run_id) now))
  unfolding after_claim release_and_give_back
  after_claim-IsHandedOver claim_hook start_hook sound =
      elim (Bool-cases (claim b t.task_id a'.agent_id (some run_id) now).1.success) [
        | inr lost ↦ rw lost (
            give_back-IsHandedOver _
              (inl (claim-refused_same t.task_id a'.agent_id (some run_id) now sound lost)))
        | inl won ↦
            let b' = (claim b t.task_id a'.agent_id (some run_id) now).0 in
            let sound' = claim-IsSound t.task_id a'.agent_id (some run_id) now sound in
            let (u, held, own, status) =
              (claim_exclusive t.task_id a'.agent_id a'.agent_id run_id now now sound won).0 in
            let task : TaskIs b' run_id t.task_id claimed (some a'.agent_id) =
              (u, held, status, own) in
            elim (Bool-cases (stops_task claim_hook)) [
              | inl e ↦
                  rw (won, e)
                    (give_back-IsHandedOver _ (
                      inr (
                        release-pending run_id t.task_id a'.agent_id _ now claimed
                          sound'.well_formed refl task)))
              | inr e ↦
                  let (went, begun) =
                    start-running run_id t.task_id a'.agent_id now sound'.well_formed task in
                  rw (won, e)
                    (after_start-IsHandedOver start_hook _ _
                      (start-IsWellFormed run_id t.task_id a'.agent_id now sound') went begun)
            ]
      ]

-- On a sound board, and a registry where every agent stands under its own id, once, and agrees with
-- its row in the columns that each write sets, whatever the hooks answer: a call in a cancelled run
-- changes neither; a call in a run that is not cancelled changes neither, and then no held agent of
-- the run suits the task, or else it takes an agent that was IDLE, and ends with that agent
-- CLAIMING with the task and the task RUNNING for it, or with that agent IDLE without a task and
-- the task PENDING without a claimant, or the board as it was.
pub begin_task-is_settled :
    {b : Board} (is_cancelled : Bool) (r : Registry) (run_id : String) (t : BoardTask)
    (hint : Option String) (claim_hook start_hook : HookResult) (now : ℕ)
    → IsSound b
    → IsDurable r
    → IsHandedOver is_cancelled r b run_id t
        (begin_task is_cancelled r b run_id t hint claim_hook start_hook now)
unfolding begin_task after_reservation
begin_task-is_settled true r run_id t hint claim_hook start_hook now sound durable =
    (refl, refl, inl refl)
begin_task-is_settled {b} false r run_id t hint claim_hook start_hook now sound durable =
    elim (reserve-exact r run_id t.required_capabilities t.task_id hint now durable) [
      | inl (e, none_suits) ↦ rw e (refl, refl, inr none_suits)
      | inr (a, a', held, suit, e, same, status, task) ↦ rw e (
          after_claim-IsHandedOver r (Pool.save a.agent_id a' r) b run_id t a a' now
            (
              held,
              suits_any-idle run_id (use_caps_list t.required_capabilities) a suit,
              same,
              saved-IsReserved r t.task_id a a' same status task,
            )
            claim_hook start_hook sound)
    ]
