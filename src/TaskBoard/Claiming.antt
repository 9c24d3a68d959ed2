-- ===== src/TaskBoard/Claiming.antt =====
-- app/multiagent/task_board.py: when `claim` succeeds, what it leaves behind, and that a task has one
-- claimant at a time.
use mega_deepagents.Base.{
  ℕ, String, Bool, true, false, Option, none, some, List, [], ◌∷◌, ◌≡◌, ◌↔◌, refl, sym, subst,
  arith, if◌then◌else◌, Bool-cases, Option-cases, inl, inr, string_eq, pair_eq, all,
}
use mega_deepagents.Base.Dict.{Dict, lookup, lookup-insert, AllEntries-lookup}
use mega_deepagents.TaskBoard.Task.{BoardTask, is_pending, claimed}
use mega_deepagents.TaskBoard.Store.{Key, Board, key_of, save, raw_get}
use mega_deepagents.TaskBoard.Worker.{
  is_done, blocking_dependency, claim_refusal, grant, claim, finish_claim, ClaimReason,
}
use mega_deepagents.TaskBoard.WellFormed.{raw_get-Holds}
use mega_deepagents.TaskBoard.Invariant.{IsSound, claim_row_lem, claim-IsSound}

-- The dictionary in which `claim` looks dependencies up: the table's rows on a durable board.
abbrev pub authority : Board → Dict Key BoardTask
authority b = if b.persist_enabled then b.rows else b.tasks

abbrev pub dependencies_done : Board → BoardTask → Bool
dependencies_done b t = all (λ d. is_done (lookup (t.run_id, d) (authority b))) t.dependencies

blocking_dependency-all :
    (find : String → Option BoardTask) (deps : List String)
    → (blocking_dependency find deps ≡ none) ↔ (all (λ d. is_done (find d)) deps ≡ true)
unfolding blocking_dependency
blocking_dependency-all find [] = (λ _. refl, λ _. refl)
blocking_dependency-all find (d ∷ ds) = ground (arith, blocking_dependency-all find ds)

-- On a sound board `claim` decides by the held task and the authority.
claim-held :
    {b : Board} (id agent : String) (run : Option String) (now : ℕ) {t : BoardTask}
    → IsSound b
    → raw_get b id run ≡ some t
    → claim b id agent run now ≡ finish_claim b agent now t (claim_refusal (authority b) t)
unfolding claim
claim-held {b} id agent run now {t} s e = elim (Bool-cases b.persist_enabled) [
  | inl on ↦
      simp (e, on, claim_row_lem id t s.well_formed (raw_get-Holds id run s.well_formed e) on)
  | inr off ↦ simp (e, off)
]

finish_claim-success :
    (b : Board) (agent : String) (now : ℕ) (t : BoardTask)
    → ((finish_claim b agent now t (claim_refusal (authority b) t)).1.success ≡ true)
      ↔ ((is_pending t.status ≡ true) × (dependencies_done b t ≡ true))
unfolding claim_refusal
finish_claim-success b agent now t =
    ground (arith, blocking_dependency-all (λ d. lookup (t.run_id, d) (authority b)) t.dependencies)

-- On a sound board that holds the task, claim succeeds exactly when the task is PENDING and
-- each of its dependencies has SUCCEEDED, in the rows of a durable board and in memory
-- otherwise.
pub claim-success_iff :
    {b : Board} (id agent : String) (run : Option String) (now : ℕ) {t : BoardTask}
    → IsSound b
    → raw_get b id run ≡ some t
    → ((claim b id agent run now).1.success ≡ true)
      ↔ ((is_pending t.status ≡ true) × (dependencies_done b t ≡ true))
claim-success_iff {b} id agent run now {t} s e =
    rw (claim-held id agent run now s e) (finish_claim-success b agent now t)

finish_claim-saved :
    (b : Board) (agent : String) (now : ℕ) (t : BoardTask) (r : Option ClaimReason)
    → (finish_claim b agent now t r).1.success ≡ true
    → (finish_claim b agent now t r).0 ≡ save (grant agent now t) b
finish_claim-saved b agent now t none h = refl
finish_claim-saved b agent now t (some r) h = cc

claim-none :
    (b : Board) (id agent : String) (run : Option String) (now : ℕ)
    → raw_get b id run ≡ none
    → (claim b id agent run now).1.success ≡ false
unfolding claim
claim-none b id agent run now e = rw e

-- A claim that succeeds finds the task, and leaves it saved with its claimant.
pub claim-success_inv :
    {b : Board} (id agent : String) (run : Option String) (now : ℕ)
    → IsSound b
    → (claim b id agent run now).1.success ≡ true
    → (t : BoardTask) × (raw_get b id run ≡ some t)
      × ((claim b id agent run now).0 ≡ save (grant agent now t) b)
claim-success_inv {b} id agent run now s won = elim (Option-cases (raw_get b id run)) [
  | inl e ↦ cc (claim-none b id agent run now e)
  | inr (t, e) ↦ (t, e, saved t e)
]
  where
    saved :
        (t : BoardTask)
        → raw_get b id run ≡ some t
        → (claim b id agent run now).0 ≡ save (grant agent now t) b
    saved t e =
        rw (claim-held id agent run now s e)
          (finish_claim-saved b agent now t _ (rw (claim-held id agent run now s e) at won))

claimed_task-lookup :
    (b : Board) (agent : String) (now : ℕ) (t : BoardTask)
    → lookup (key_of t) (save (grant agent now t) b).tasks ≡ some (grant agent now t)
unfolding save grant
claimed_task-lookup b agent now t =
    ground (arith, lookup-insert (key_of t) (key_of t) (grant agent now t) b.tasks)

-- A task that is not pending is not claimed, and the board stays as it was.
claim-not_pending :
    {b : Board} (id agent : String) (run : Option String) (now : ℕ) {t : BoardTask}
    → IsSound b
    → raw_get b id run ≡ some t
    → is_pending t.status ≡ false
    → ((claim b id agent run now).1.success ≡ false) × ((claim b id agent run now).0 ≡ b)
unfolding claim_refusal
claim-not_pending {b} id agent run now s e busy =
    rw (claim-held id agent run now s e) (simp busy (refl, refl))

granted-Holds :
    {b : Board} (id agent run : String) (now : ℕ) (t : BoardTask)
    → IsSound b
    → raw_get b id (some run) ≡ some t
    → lookup (run, id) (save (grant agent now t) b).tasks ≡ some (grant agent now t)
unfolding raw_get
granted-Holds {b} id agent run now t s e =
    subst (λ (k : Key). lookup k (save (grant agent now t) b).tasks ≡ some (grant agent now t))
      (sym (AllEntries-lookup (λ k t. k ≡ key_of t) (run, id) b.tasks s.well_formed.keyed e))
      (claimed_task-lookup b agent now t)

-- After a successful claim on a sound board the task is CLAIMED by the claimant, and a further
-- claim of it, by any agent at any time, fails and leaves the board as it is.
pub claim_exclusive :
    {b : Board} (id agent other run : String) (now later : ℕ)
    → IsSound b
    → (claim b id agent (some run) now).1.success ≡ true
    → ((t : BoardTask) × (lookup (run, id) (claim b id agent (some run) now).0.tasks ≡ some t)
        × (t.claimed_by ≡ some agent)
        × (t.status ≡ claimed))
      × (((claim (claim b id agent (some run) now).0 id other (some run) later).1.success ≡ false)
          × ((claim (claim b id agent (some run) now).0 id other (some run) later).0
              ≡ (claim b id agent (some run) now).0))
unfolding raw_get grant
claim_exclusive {b} id agent other run now later s won =
    let (t, e, saved) = claim-success_inv id agent (some run) now s won in
    let found : lookup (run, id) (claim b id agent (some run) now).0.tasks
        ≡ some (grant agent now t) =
      rw saved (granted-Holds id agent run now t s e) in
    (
      (grant agent now t, found, refl, refl),
      claim-not_pending id other (some run) later (claim-IsSound id agent (some run) now s) found
          refl,
    )

finish_claim-refused :
    (b : Board) (agent : String) (now : ℕ) (t : BoardTask) (r : Option ClaimReason)
    → (finish_claim b agent now t r).1.success ≡ false
    → (finish_claim b agent now t r).0 ≡ b
finish_claim-refused b agent now t none h = cc
finish_claim-refused b agent now t (some r) h = refl

claim-absent :
    (b : Board) (id agent : String) (run : Option String) (now : ℕ)
    → raw_get b id run ≡ none
    → (claim b id agent run now).0 ≡ b
unfolding claim
claim-absent b id agent run now e = rw e

-- On a sound board, a claim that does not succeed leaves the board as it is.
pub claim-refused_same :
    {b : Board} (id agent : String) (run : Option String) (now : ℕ)
    → IsSound b
    → (claim b id agent run now).1.success ≡ false
    → (claim b id agent run now).0 ≡ b
claim-refused_same {b} id agent run now s lost = elim (Option-cases (raw_get b id run)) [
  | inl e ↦ claim-absent b id agent run now e
  | inr (t, e) ↦
      rw (claim-held id agent run now s e)
        (finish_claim-refused b agent now t _ (rw (claim-held id agent run now s e) at lost))
]
