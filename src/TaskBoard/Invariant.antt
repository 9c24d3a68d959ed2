-- ===== src/TaskBoard/Invariant.antt =====
-- app/multiagent/task_board.py: every public mutator keeps the board sound, so every board that a
-- history of calls reaches is.
use mega_deepagents.Base.{
  ℕ, String, true, Option, none, some, ◌≡◌, refl, subst, Bool-cases, Option-cases, inl, inr,
  string_eq, pair_eq,
}
use mega_deepagents.Base.Dict.{lookup, has_key, AllEntries, AllEntries-insert, AllEntries-lookup}
use mega_deepagents.TaskBoard.Task.{BoardTask}
use mega_deepagents.TaskBoard.Store.{Board, key_of, save, add, raw_get, transact, commit}
use mega_deepagents.TaskBoard.Worker
use mega_deepagents.TaskBoard.Worker.{claim_refusal, grant}
use mega_deepagents.TaskBoard.WellFormed.{
  IsWellFormed, Holds, raw_get-Holds, save-IsWellFormed, add-IsWellFormed,
}
use mega_deepagents.TaskBoard.Validity

pub record IsSound (b : Board) : Type 0 where
  pub well_formed : IsWellFormed b
  pub tasks_valid : AllEntries (λ k t. Validity.IsValid t) b.tasks
  pub rows_valid : AllEntries (λ k t. Validity.IsValid t) b.rows

pub save-IsSound :
    {b : Board} (t : BoardTask)
    → IsSound b
    → Validity.IsValid t
    → has_key (key_of t) b.tasks ≡ true
    → IsSound (save t b)
unfolding save
save-IsSound {b} t s v held = record {
  well_formed = save-IsWellFormed t s.well_formed held;
  tasks_valid = AllEntries-insert _ (key_of t) t b.tasks s.tasks_valid v;
  rows_valid = elim (Bool-cases b.persist_enabled) [
    | inl on ↦ rw on (AllEntries-insert _ (key_of t) t b.rows s.rows_valid v)
    | inr off ↦ rw off s.rows_valid
  ];
}

pub add-IsSound : {b : Board} (t : BoardTask) → IsSound b → Validity.IsValid t → IsSound (add t b)
unfolding add
add-IsSound {b} t s v = record {
  well_formed = add-IsWellFormed t s.well_formed;
  tasks_valid = AllEntries-insert _ (key_of t) t b.tasks s.tasks_valid v;
  rows_valid = elim (Bool-cases b.persist_enabled) [
    | inl on ↦ rw on (AllEntries-insert _ (key_of t) t b.rows s.rows_valid v)
    | inr off ↦ rw off s.rows_valid
  ];
}

Holds-has_key : (b : Board) (t : BoardTask) → Holds b t → has_key (key_of t) b.tasks ≡ true
Holds-has_key b t h = rw h

Holds-IsValid : {b : Board} (t : BoardTask) → IsSound b → Holds b t → Validity.IsValid t
Holds-IsValid {b} t s h = AllEntries-lookup _ (key_of t) b.tasks s.tasks_valid h

-- A change of a held task that keeps its key and its validity.
pub save_held-IsSound :
    {b : Board} (t t' : BoardTask)
    → IsSound b
    → Holds b t
    → key_of t' ≡ key_of t
    → Validity.IsValid t'
    → IsSound (save t' b)
save_held-IsSound {b} t t' s h same v = save-IsSound t' s v (rw same (Holds-has_key b t h))

pub transact-IsSound :
    {b : Board} (id : String) (run : Option String) {f : BoardTask → Option BoardTask}
    → Validity.Keeps f
    → IsSound b
    → IsSound (transact b id run f).0
transact-IsSound {b} id run {f} keeps s = elim (Option-cases (raw_get b id run)) [
  | inl e ↦ rw e s
  | inr (t, e) ↦ rw e (changed t (raw_get-Holds id run s.well_formed e).0)
]
  where
    changed : (t : BoardTask) → Holds b t → IsSound (commit b (f t)).0
    changed t h = elim (Option-cases (f t)) [
      | inl e ↦ rw e s
      | inr (t', e) ↦ rw e (
          save_held-IsSound t t' s h (keeps.same_key t t' e)
            (keeps.valid t t' (Holds-IsValid t s h) e))
    ]

-- `finish_claim` on a task that the board holds.
grant-key_of : (agent : String) (now : ℕ) (t : BoardTask) → key_of (grant agent now t) ≡ key_of t
unfolding grant
grant-key_of agent now t = refl

finish_claim-IsSound :
    {b : Board} (agent : String) (now : ℕ) (t : BoardTask) (r : Option Worker.ClaimReason)
    → IsSound b
    → Holds b t
    → IsSound (Worker.finish_claim b agent now t r).0
finish_claim-IsSound {b} agent now t (some r) s h = s
finish_claim-IsSound {b} agent now t none s h =
    save_held-IsSound t (grant agent now t) s h (grant-key_of agent now t)
      (Validity.grant-IsValid agent now t (Holds-IsValid t s h))

-- On a durable board the row that `claim` reads is the task that memory holds.
pub claim_row_lem :
    {b : Board} (id : String) (t : BoardTask)
    → IsWellFormed b
    → Holds b t × (t.task_id ≡ id)
    → b.persist_enabled ≡ true
    → lookup (t.run_id, id) b.rows ≡ some t
claim_row_lem {b} id t w found on =
    subst (λ (x : String). lookup (t.run_id, x) b.rows ≡ some t) found.1
      (w.durable on (key_of t) t found.0)

pub claim-IsSound :
    {b : Board} (id agent : String) (run : Option String) (now : ℕ)
    → IsSound b
    → IsSound (Worker.claim b id agent run now).0
unfolding Worker.claim
claim-IsSound {b} id agent run now s = elim (Option-cases (raw_get b id run)) [
  | inl e ↦ rw e s
  | inr (t, e) ↦ rw e (found t (raw_get-Holds id run s.well_formed e))
]
  where
    found :
        (t : BoardTask)
        → Holds b t × (t.task_id ≡ id)
        → IsSound (Worker.claim_found b id agent now (some t)).0
    found t h = elim (Bool-cases b.persist_enabled) [
      | inl on ↦
          simp (on, claim_row_lem id t s.well_formed h on)
            (finish_claim-IsSound agent now t (claim_refusal b.rows t) s h.0)
      | inr off ↦ simp off (finish_claim-IsSound agent now t (claim_refusal b.tasks t) s h.0)
    ]
