-- ===== src/TaskBoard/Samples.antt =====
-- app/multiagent/task_board.py: a board with three tasks of two runs, on which the theorems are used.
use mega_deepagents.Base.{
  ℕ, ◌+◌, ◌<◌, Bool, true, false, Option, none, some, List, [], ◌∷◌, ◌≡◌, ◌↔◌, ◌⊎◌, refl, arith,
  length, All, string_eq, pair_eq,
}
use mathlib.Core.Option
use mega_deepagents.Base.Dict.{lookup}
use mega_deepagents.TaskBoard.Task.{BoardTask, new_task, failed, pending}
use mega_deepagents.TaskBoard.Store.{Board, empty_board, raw_get, transact, key_of}
use mega_deepagents.TaskBoard.Worker
use mega_deepagents.TaskBoard.Worker.{claim, grant}
use mega_deepagents.TaskBoard.Failure
use mega_deepagents.TaskBoard.Control
use mega_deepagents.TaskBoard.Runs.{restore_run, prepare_for_resume}
use mega_deepagents.TaskBoard.Calls.{Call, call, calls}
use mega_deepagents.TaskBoard.Invariant.{IsSound}
use mega_deepagents.TaskBoard.History
use mega_deepagents.TaskBoard.Task
use mega_deepagents.TaskBoard.Claiming
use mega_deepagents.TaskBoard.Retries
use mega_deepagents.TaskBoard.Retries.{Report}
use mega_deepagents.TaskBoard.Recovery
use mega_deepagents.TaskBoard.Validity
use mega_deepagents.TaskBoard.Verdicts

-- `b` waits for `a`; the other run has a task with the id `a` too.
abbrev sample_calls : List (ℕ × Call)
sample_calls =
    (0, Call.create_task "a" "r" "A" "do A" [] [] 5 3)
    ∷ (1, Call.create_task "b" "r" "B" "do B" ("a" ∷ []) [] 9 3)
    ∷ (2, Call.create_task "a" "other" "A" "do A" [] [] 5 3)
    ∷ []

abbrev sample : Board
sample = calls (empty_board true) sample_calls

abbrev task_a : BoardTask
task_a = new_task "a" "r" "A" "do A" [] [] 5 3 0

sample_a : raw_get sample "a" (some "r") ≡ some task_a
unfolding calls raw_get lookup mega_deepagents.TaskBoard.Store.add mega_deepagents.Base.Dict.insert
    mega_deepagents.Base.Equality.pair_eq mega_deepagents.Base.Equality.string_eq new_task
sample_a = refl

-- An id that two runs use is not found without a run.
ambiguous : raw_get sample "a" none ≡ none
unfolding calls raw_get mega_deepagents.TaskBoard.Store.add mega_deepagents.Base.Dict.insert
    mega_deepagents.Base.Equality.pair_eq mega_deepagents.Base.Equality.string_eq new_task
ambiguous = refl

first_claim : (claim sample "a" "w" (some "r") 10).1.success ≡ true
unfolding calls claim raw_get lookup mega_deepagents.TaskBoard.Store.add
    mega_deepagents.Base.Dict.insert mega_deepagents.Base.Equality.pair_eq
    mega_deepagents.Base.Equality.string_eq new_task Worker.claim_refusal Worker.blocking_dependency
first_claim = refl

-- `a` has not succeeded.
early_claim : (claim sample "b" "w" (some "r") 10).1.success ≡ false
unfolding calls claim raw_get lookup mega_deepagents.TaskBoard.Store.add
    mega_deepagents.Base.Dict.insert mega_deepagents.Base.Equality.pair_eq
    mega_deepagents.Base.Equality.string_eq new_task Worker.claim_refusal Worker.blocking_dependency
early_claim = refl

-- The scheduler puts back a copy of `a` that waits for a tool.
abbrev waiting_a : BoardTask
waiting_a = record task_a { status = Task.blocked; claimed_by = some "w" }

waiting_a-IsValid : Validity.IsValid waiting_a
unfolding new_task
waiting_a-IsValid = record {
  unclaimed = λ h. cc;
  owned = λ h. refl;
  blocked_owned = λ h. refl;
  stamped = λ h. cc;
  history_bounded = omega arith;
  requests_bounded = omega arith;
  grace_bounded = omega arith;
}

abbrev changed_calls : List (ℕ × Call)
changed_calls = (0, Call.create_task "a" "r" "A" "do A" [] [] 5 3) ∷ (1, Call.add waiting_a) ∷ []

calls-IsSound_example : IsSound (calls (empty_board true) changed_calls)
calls-IsSound_example = History.calls-IsSound true changed_calls (tt, (waiting_a-IsValid, tt))

sound : IsSound sample
sound = History.calls-IsSound true sample_calls (tt, (tt, (tt, tt)))

claim-success_iff_example :
    ((claim sample "a" "w" (some "r") 10).1.success ≡ true)
    ↔ ((Task.is_pending task_a.status ≡ true) × (Claiming.dependencies_done sample task_a ≡ true))
claim-success_iff_example = Claiming.claim-success_iff "a" "w" (some "r") 10 sound sample_a

claim_exclusive_example :
    ((t : BoardTask) × (lookup ("r", "a") (claim sample "a" "w" (some "r") 10).0.tasks ≡ some t)
      × (t.claimed_by ≡ some "w")
      × (t.status ≡ Task.claimed))
    × (((claim (claim sample "a" "w" (some "r") 10).0 "a" "v" (some "r") 11).1.success ≡ false)
        × ((claim (claim sample "a" "w" (some "r") 10).0 "a" "v" (some "r") 11).0
            ≡ (claim sample "a" "w" (some "r") 10).0))
claim_exclusive_example = Claiming.claim_exclusive "a" "w" "v" "r" 10 11 sound first_claim

-- A failure that is rate limited, and may be retried.
abbrev limited : Report
limited = record {
  agent = "w";
  error = "429";
  retryable = true;
  delay = 15000;
  category = "rate_limited";
  now = 20;
}

abbrev nine : List Report
nine = limited ∷ limited ∷ limited ∷ limited ∷ limited ∷ limited ∷ limited ∷ limited ∷ limited ∷ []

few_left : Retries.retries_left task_a < length nine
unfolding new_task
few_left = omega arith

attempts_exhaust_example : (Retries.attempts nine task_a).status ≡ failed
unfolding new_task
attempts_exhaust_example = Retries.attempts_exhaust nine task_a refl few_left

durable : sample.persist_enabled ≡ true
unfolding calls mega_deepagents.TaskBoard.Store.add
durable = refl

lookup-restore_run_example :
    lookup ("r", "a") (restore_run sample "r").0.tasks ≡ lookup ("r", "a") sample.rows
unfolding lookup mega_deepagents.Base.Equality.string_eq
lookup-restore_run_example = Recovery.lookup-restore_run "r" ("r", "a") sound durable

lookup-prepare_for_resume_example :
    lookup ("r", "a") (prepare_for_resume sample "r" 30).0.tasks
    ≡ Option.map (Recovery.resumed 30) (lookup ("r", "a") sample.tasks)
unfolding lookup mega_deepagents.Base.Equality.string_eq
lookup-prepare_for_resume_example = Recovery.lookup-prepare_for_resume "r" 30 ("r", "a") sound

-- The worker claims `a`, produces it, and the verifier accepts it.
abbrev produced_calls : List (ℕ × Call)
produced_calls =
    (0, Call.create_task "a" "r" "A" "do A" [] [] 5 3)
    ∷ (10, Call.claim "a" "w" (some "r"))
    ∷ (11, Call.start "a" "w" (some "r"))
    ∷ (12, Call.mark_produced "a" "w" ("art" ∷ []) (some "r"))
    ∷ []

abbrev produced_sample : Board
produced_sample = calls (empty_board true) produced_calls

produced-IsSound : IsSound produced_sample
produced-IsSound = History.calls-IsSound true produced_calls (tt, (tt, (tt, (tt, tt))))

abbrev verified_a : BoardTask
verified_a = record (grant "w" 10 task_a) {
  status = Task.succeeded;
  produced_artifact_ids = "art" ∷ [];
  updated_at = 13;
  completed_at = some 13;
}

verified_a_found :
    lookup ("r", "a") (call produced_sample 13 (Call.mark_verified "a" (some "r"))).tasks
    ≡ some verified_a
unfolding call calls lookup Control.mark_verified raw_get Worker.mark_produced Worker.start claim
    mega_deepagents.TaskBoard.Store.add mega_deepagents.Base.Dict.insert
    mega_deepagents.Base.Equality.pair_eq mega_deepagents.Base.Equality.string_eq new_task
    Worker.claim_refusal Worker.blocking_dependency mega_deepagents.TaskBoard.Store.save grant
    mega_deepagents.Base.Equality.option_eq
verified_a_found = refl

succeeded_needs_verdict_example : Verdicts.WasVetted produced_sample ("r", "a")
succeeded_needs_verdict_example =
    Verdicts.succeeded_needs_verdict 13 (Call.mark_verified "a" (some "r")) ("r", "a") verified_a
      produced-IsSound refl verified_a_found refl

abbrev claimed_calls : List (ℕ × Call)
claimed_calls =
    (0, Call.create_task "a" "r" "A" "do A" [] [] 5 3) ∷ (10, Call.claim "a" "w" (some "r")) ∷ []

abbrev claimed_sample : Board
claimed_sample = calls (empty_board true) claimed_calls

claimed-IsSound : IsSound claimed_sample
claimed-IsSound = History.calls-IsSound true claimed_calls (tt, (tt, tt))

granted_owner : (grant "w" 10 task_a).claimed_by ≡ some "w"
unfolding grant
granted_owner = refl

granted_live : Task.is_terminal (grant "w" 10 task_a).status ≡ false
unfolding grant
granted_live = refl

spare : (grant "w" 10 task_a).attempts + 1 < (grant "w" 10 task_a).max_attempts
unfolding grant new_task
spare = omega arith

claimed_a : lookup ("r", "a") claimed_sample.tasks ≡ some (grant "w" 10 task_a)
unfolding calls lookup claim raw_get mega_deepagents.TaskBoard.Store.add
    mega_deepagents.Base.Dict.insert mega_deepagents.Base.Equality.pair_eq
    mega_deepagents.Base.Equality.string_eq new_task Worker.claim_refusal Worker.blocking_dependency
    mega_deepagents.TaskBoard.Store.save grant
claimed_a = refl

fail_after_cancel_example :
    (u : BoardTask) × (lookup
        ("r", "a")
        (Failure.fail
          (Control.cancel claimed_sample "a" "stop" (some "r") 20).0
          "a"
          "w"
          "503"
          (some "r")
          true
          0
          "transient"
          21).0.tasks
      ≡ some u)
    × (u.status ≡ pending)
fail_after_cancel_example =
    Verdicts.fail_after_cancel "a" "r" "w" "stop" "503" "transient" 0 20 21 claimed-IsSound
      claimed_a granted_owner granted_live spare
