-- ===== src/TaskBoard/Frame.antt =====
-- app/multiagent/task_board.py: what a method on one task leaves under each key of the board.
use mathlib.Core.Option
use mega_deepagents.Base.{
  String, Bool, true, false, Option, none, some, List, [], ◌∷◌, ◌≡◌, refl, sym, subst, arith, ◌∙◌,
  if◌then◌else◌, eq_self, Bool-cases, Option-cases, inl, inr, string_eq, pair_eq, contains, ◌==◌,
  All, is_some, eq→path,
}
use mega_deepagents.Base.Dict.{Dict, lookup, lookup-insert, AllEntries-lookup}
use mega_deepagents.TaskBoard.Task.{BoardTask}
use mega_deepagents.TaskBoard.Store.{Key, Board, key_of, save, run_keys, raw_get, transact, commit}
use mega_deepagents.TaskBoard.WellFormed.{IsWellFormed, run_keys-All}
use mega_deepagents.TaskBoard.Validity.{Keeps}

-- A held task is replaced under its own key, and nothing else changes.
pub lookup-save_held :
    (b : Board) (j k : Key) (t' : BoardTask)
    → j ≡ key_of t'
    → lookup k (save t' b).tasks ≡ (if k == j then some t' else lookup k b.tasks)
unfolding save
lookup-save_held b j k t' e = rw e (lookup-insert k (key_of t') t' b.tasks)

module _ (d : Dict Key BoardTask) (j k : Key) {t : BoardTask} (e : lookup j d ≡ some t) where
  pub map_at :
      (g : BoardTask → BoardTask)
      → (if k == j then some (g t) else lookup k d)
        ≡ (if k == j then Option.map g (lookup k d) else lookup k d)
  map_at g = ground arith

  pub keep_at : lookup k d ≡ (if k == j then some t else lookup k d)
  keep_at = ground arith

abbrev pub or_self : BoardTask → Option BoardTask → BoardTask
or_self t none = t
or_self t (some t') = t'

-- The task after a method's guard and assignments.
abbrev pub applied : (BoardTask → Option BoardTask) → BoardTask → BoardTask
applied f t = or_self t (f t)

commit-lookup :
    (b : Board) (j k : Key) (t : BoardTask) (f : BoardTask → Option BoardTask)
    → j ≡ key_of t
    → ((t' : BoardTask) → f t ≡ some t' → key_of t' ≡ key_of t)
    → lookup j b.tasks ≡ some t
    → lookup k (commit b (f t)).0.tasks ≡ (if k == j then some (applied f t) else lookup k b.tasks)
commit-lookup b j k t f own same e = elim (Option-cases (f t)) [
  | inl refused ↦ rw refused (keep_at b.tasks j k e)
  | inr (t', done) ↦ rw done (lookup-save_held b j k t' (own ∙ sym (same t' done)))
]

-- On a well-formed board, a guarded method on one task of a run, which keeps the task's key
-- and validity, changes the task under that key alone, by its guard and assignments.
pub lookup-transact :
    {b : Board} (id run : String) {f : BoardTask → Option BoardTask} (k : Key)
    → Keeps f
    → IsWellFormed b
    → lookup k (transact b id (some run) f).0.tasks
      ≡ (if k == (run, id) then Option.map (applied f) (lookup k b.tasks) else lookup k b.tasks)
unfolding raw_get
lookup-transact {b} id run {f} k keeps w = elim (Option-cases (lookup (run, id) b.tasks)) [
  | inl e ↦ rw e (ground arith)
  | inr (t, e) ↦ rw e (
      commit-lookup b (run, id) k t f
        (AllEntries-lookup (λ k t. k ≡ key_of t) (run, id) b.tasks w.keyed e) (keeps.same_key t) e
      ∙ map_at b.tasks (run, id) k e (applied f))
]

contains-All {κ} :
    (P : Key → Type κ) (ks : List Key) (k : Key) → All P ks → contains ks k ≡ true → P k
contains-All P [] k h e = cc
contains-All P (j ∷ ks) k h e = elim (Bool-cases (k == j)) [
  | inl same ↦ subst P (sym (eq→path k j same)) h.0
  | inr other ↦ contains-All P ks k h.1 (rw other at e)
]

pub choose_same :
    (g : BoardTask → BoardTask) (o : Option BoardTask) (c d : Bool)
    → (c ≡ true → d ≡ true)
    → (d ≡ true → is_some o ≡ true → c ≡ true)
    → (if c then Option.map g o else o) ≡ (if d then Option.map g o else o)
choose_same g none true true h h' = refl
choose_same g none true false h h' = refl
choose_same g none false true h h' = refl
choose_same g none false false h h' = refl
choose_same g (some t) c d h h' = ground (arith, h, h')

-- To change the tasks that the run's index names is to change the tasks of the run.
pub indexed_run :
    {b : Board} (run : String) (k : Key) (g : BoardTask → BoardTask)
    → IsWellFormed b
    → (if contains (run_keys b run) k then Option.map g (lookup k b.tasks) else lookup k b.tasks)
      ≡ (if k.0 == run then Option.map g (lookup k b.tasks) else lookup k b.tasks)
indexed_run {b} run k g w =
    choose_same g (lookup k b.tasks) (contains (run_keys b run) k) (k.0 == run)
      (λ named.
        of_path
          (contains-All (λ (k : Key). k.0 ≡ run) (run_keys b run) k (run_keys-All run w) named))
      (λ same held.
        subst (λ (r : String). contains (run_keys b r) k ≡ true) (eq→path k.0 run same)
          (w.indexed k held))
  where
    of_path : k.0 ≡ run → (k.0 == run) ≡ true
    of_path p = ground arith

pub lookup-transact_self :
    {b : Board} (id run : String) {f : BoardTask → Option BoardTask} {t : BoardTask}
    → Keeps f
    → IsWellFormed b
    → lookup (run, id) b.tasks ≡ some t
    → lookup (run, id) (transact b id (some run) f).0.tasks ≡ some (applied f t)
lookup-transact_self {b} id run {f} {t} keeps w e =
    lookup-transact id run (run, id) keeps w ∙ rw (eq_self {A = Key} (run, id), e)
