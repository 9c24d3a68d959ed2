-- ===== src/TaskBoard/Recovery.antt =====
-- app/multiagent/task_board.py: what `restore_run`, `prepare_for_resume` and `cancel_run` leave under
-- each key: the memory after a restart is the table, no task of a resumed run is left in flight, and
-- no task of a cancelled run is left open.
use mathlib.Core.Option
use mega_deepagents.Base.{
  ℕ, String, Bool, true, false, Option, none, some, List, [], ◌∷◌, ◌≡◌, refl, sym, subst, arith, ap,
  ◌∙◌, if◌then◌else◌, Bool-cases, Option-cases, inl, inr, string_eq, pair_eq, contains, ◌==◌, ◌||◌,
  ◌&&◌, map, eq→path,
}
use mega_deepagents.Base.Dict.{Dict, lookup, has_key, AllEntries, lookup-insert, AllEntries-lookup}
use mega_deepagents.TaskBoard.Task.{BoardTask, pending, is_in_flight}
use mega_deepagents.TaskBoard.Store.{Key, Board, key_of, run_keys, raw_list_by_run, present}
use mega_deepagents.TaskBoard.Control.{cancel, cancel_task}
use mega_deepagents.TaskBoard.Runs.{
  restore_each, restore_run, rows_of_run, hydrate, resume_reason, resume_task, resume_key,
  resume_each, resume_found, prepare_for_resume, cancel_each, cancel_run,
}
use mega_deepagents.TaskBoard.WellFormed.{IsWellFormed}
use mega_deepagents.TaskBoard.Invariant.{IsSound, transact-IsSound}
use mega_deepagents.TaskBoard.Validity.{cancel-Keeps}
use mega_deepagents.TaskBoard.Frame.{
  lookup-save_held, map_at, keep_at, indexed_run, lookup-transact, applied, choose_same,
}
use mega_deepagents.TaskBoard.RunInvariant.{resume_key-IsSound}

abbrev or_else : Option BoardTask → Option BoardTask → Option BoardTask
or_else none o = o
or_else (some t) o = some t

find_key : Key → List BoardTask → Option BoardTask
find_key k [] = none
find_key k (t ∷ ts) = if k == key_of t then some t else find_key k ts

lookup-restore_each :
    (ts : List BoardTask) (b : Board) (k : Key)
    → lookup k (restore_each b ts).0.tasks ≡ or_else (lookup k b.tasks) (find_key k ts)
unfolding restore_each find_key
lookup-restore_each [] b k = ground arith
lookup-restore_each (t ∷ ts) b k = elim (Bool-cases (has_key (key_of t) b.tasks)) [
  | inl known ↦ simp known (ground (arith, lookup-restore_each ts b k))
  | inr new ↦ simp new (ground (arith, lookup-restore_each ts (hydrate t b) k, lookup-hydrate))
]
  where
    lookup-hydrate :
        lookup k (hydrate t b).tasks ≡ (if k == key_of t then some t else lookup k b.tasks)
    lookup-hydrate = unfold hydrate in lookup-insert k (key_of t) t b.tasks

module _ (run : String) (j k : Key) (t : BoardTask) (o o' : Option BoardTask)
    (ih : o ≡ (if k.0 == run then o' else none)) where
  find_key-in :
      (j.0 == run) ≡ true
      → (if k == j then some t else o)
        ≡ (if k.0 == run then (if k == j then some t else o') else none)
  find_key-in e = ground arith

  find_key-out :
      (j.0 == run) ≡ false → o ≡ (if k.0 == run then (if k == j then some t else o') else none)
  find_key-out e = ground arith

find_key-rows_of_run :
    (run : String) (d : Dict Key BoardTask) (k : Key)
    → AllEntries (λ k t. k ≡ key_of t) d
    → find_key k (rows_of_run run d) ≡ (if k.0 == run then lookup k d else none)
unfolding find_key rows_of_run lookup
find_key-rows_of_run run [] k h = ground arith
find_key-rows_of_run run ((j, t) ∷ d) k h = elim (Bool-cases (j.0 == run)) [
  | inl e ↦ rw e (rw (← h.0) (find_key-in run j k t _ _ (find_key-rows_of_run run d k h.1) e))
  | inr e ↦ rw e (find_key-out run j k t _ _ (find_key-rows_of_run run d k h.1) e)
]

-- On a sound durable board, restore_run makes memory agree with the table on every key of the
-- run, and changes no task of another run.
pub lookup-restore_run :
    {b : Board} (run : String) (k : Key)
    → IsSound b
    → b.persist_enabled ≡ true
    → lookup k (restore_run b run).0.tasks
      ≡ (if k.0 == run then lookup k b.rows else lookup k b.tasks)
unfolding restore_run
lookup-restore_run {b} run k s on =
    simp on (lookup-restore_each (rows_of_run run b.rows) b k ∙ merged (lookup k b.tasks) refl)
  where
    merged :
        (o : Option BoardTask)
        → lookup k b.tasks ≡ o
        → or_else (lookup k b.tasks) (find_key k (rows_of_run run b.rows))
          ≡ (if k.0 == run then lookup k b.rows else lookup k b.tasks)
    merged none e = ground (arith, find_key-rows_of_run run b.rows k s.well_formed.rows_keyed)
    merged (some t) e = ground (arith, s.well_formed.durable on k t e)

-- What a resumption must leave of a task: one in flight is PENDING, without a claimant or a claim
-- stamp, and says why; any other is as it was.
abbrev pub resumed : ℕ → BoardTask → BoardTask
resumed now t =
    if is_in_flight t.status
    then record t {
      status = pending;
      claimed_by = none;
      claimed_at = none;
      last_error = some (resume_reason t.status);
      updated_at = now;
    }
    else t

resume_task-key_of : (now : ℕ) (t : BoardTask) → key_of (resume_task now t) ≡ key_of t
unfolding resume_task
resume_task-key_of now t = refl

lookup-resume_found :
    (b : Board) (now : ℕ) (j k : Key) (t : BoardTask)
    → j ≡ key_of t
    → lookup j b.tasks ≡ some t
    → lookup k (resume_found now b (some t)).0.tasks
      ≡ (if k == j then some (resumed now t) else lookup k b.tasks)
unfolding resume_task
lookup-resume_found b now j k t own e = elim (Bool-cases (is_in_flight t.status)) [
  | inl on ↦
      simp on (lookup-save_held b j k (resume_task now t) (own ∙ sym (resume_task-key_of now t)))
  | inr off ↦ simp off (keep_at b.tasks j k e)
]

lookup-resume_key :
    {b : Board} (now : ℕ) (j k : Key)
    → IsWellFormed b
    → lookup k (resume_key now b j).0.tasks
      ≡ (if k == j then Option.map (resumed now) (lookup k b.tasks) else lookup k b.tasks)
unfolding resume_key
lookup-resume_key {b} now j k w = elim (Option-cases (lookup j b.tasks)) [
  | inl e ↦ rw e (ground arith)
  | inr (t, e) ↦ rw e (
      lookup-resume_found b now j k t (AllEntries-lookup (λ k t. k ≡ key_of t) j b.tasks w.keyed e)
        e
      ∙ map_at b.tasks j k e (resumed now))
]

resumed_idem : (now : ℕ) (t : BoardTask) → resumed now (resumed now t) ≡ resumed now t
unfolding resume_task
resumed_idem now t = ground arith

-- One round more of a loop: `g` is idempotent, so a key that stands twice does no harm.
map_again :
    (g : BoardTask → BoardTask)
    → ((t : BoardTask) → g (g t) ≡ g t)
    → (c rest : Bool) (o : Option BoardTask)
    → (if rest
        then Option.map g (if c then Option.map g o else o)
        else (if c then Option.map g o else o))
      ≡ (if c || rest then Option.map g o else o)
map_again g idem false rest o = refl
map_again g idem true false o = refl
map_again g idem true true none = refl
map_again g idem true true (some t) = ap some (idem t)

lookup-resume_each :
    (now : ℕ) (ks : List Key) {b : Board} (k : Key)
    → IsSound b
    → lookup k (resume_each now b ks).0.tasks
      ≡ (if contains ks k then Option.map (resumed now) (lookup k b.tasks) else lookup k b.tasks)
unfolding resume_each
lookup-resume_each now [] k s = refl
lookup-resume_each now (j ∷ ks) {b} k s =
    lookup-resume_each now ks {b = (resume_key now b j).0} k (resume_key-IsSound now j s)
    ∙ rw (lookup-resume_key now j k s.well_formed)
        (map_again (resumed now) (resumed_idem now) (k == j) (contains ks k) (lookup k b.tasks))

-- On a sound board, prepare_for_resume puts every task of the run that is in flight back to PENDING,
-- without a claimant or a claim stamp and with the reason as its last error, and changes no other
-- task, of this run or of another.
pub lookup-prepare_for_resume :
    {b : Board} (run : String) (now : ℕ) (k : Key)
    → IsSound b
    → lookup k (prepare_for_resume b run now).0.tasks
      ≡ (if k.0 == run then Option.map (resumed now) (lookup k b.tasks) else lookup k b.tasks)
unfolding prepare_for_resume
lookup-prepare_for_resume {b} run now k s =
    lookup-resume_each now (run_keys b run) k s ∙ indexed_run run k (resumed now) s.well_formed

-- What `cancel` does to a task: nothing, if it is terminal already.
abbrev pub cancelled_by : String → ℕ → BoardTask → BoardTask
cancelled_by reason now = applied (cancel_task reason now)

cancelled_by_idem :
    (reason : String) (now : ℕ) (t : BoardTask)
    → cancelled_by reason now (cancelled_by reason now t) ≡ cancelled_by reason now t
unfolding cancel_task
cancelled_by_idem reason now t = ground arith

key_test :
    (k : Key) (run id : String) (rest : Bool)
    → (k == (run, id) || (k.0 == run && rest)) ≡ (k.0 == run && (k.1 == id || rest))
key_test k run id rest = ground arith

lookup-cancel_each :
    (reason run : String) (now : ℕ) (ids : List String) {b : Board} (k : Key)
    → IsSound b
    → lookup k (cancel_each b reason run now ids).0.tasks ≡ (
        if k.0 == run && contains ids k.1
        then Option.map (cancelled_by reason now) (lookup k b.tasks)
        else lookup k b.tasks)
unfolding cancel_each cancel
lookup-cancel_each reason run now [] k s = ground arith
lookup-cancel_each reason run now (id ∷ ids) {b} k s =
    lookup-cancel_each reason run now ids {b = (cancel b id reason (some run) now).0} k
      (transact-IsSound id (some run) (cancel-Keeps reason now) s)
    ∙ rw (lookup-transact id run k (cancel-Keeps reason now) s.well_formed) (
        map_again (cancelled_by reason now) (cancelled_by_idem reason now) (k == (run, id))
          (k.0 == run && contains ids k.1) (lookup k b.tasks)
        ∙ rw (key_test k run id (contains ids k.1)))

contains-present :
    (d : Dict Key BoardTask) (ks : List Key) (k : Key) (t : BoardTask)
    → lookup k d ≡ some t
    → contains ks k ≡ true
    → contains (map (λ t. t.task_id) (present d ks)) t.task_id ≡ true
unfolding present
contains-present d [] k t e h = cc
contains-present d (j ∷ ks) k t e h = elim (Option-cases (lookup j d)) [
  | inl absent ↦ rw absent (contains-present d ks k t e (ground arith))
  | inr (u, held) ↦ rw held (ground (arith, contains-present d ks k t e))
]

listed_in_run :
    {b : Board} (run : String) (k : Key) {t : BoardTask}
    → IsWellFormed b
    → lookup k b.tasks ≡ some t
    → (k.0 == run) ≡ true
    → contains (map (λ t. t.task_id) (present b.tasks (run_keys b run))) k.1 ≡ true
listed_in_run {b} run k {t} w e same =
    subst
      (λ (x : String). contains (map (λ t. t.task_id) (present b.tasks (run_keys b run))) x ≡ true)
      (sym (ap (λ (j : Key). j.1) (AllEntries-lookup (λ k t. k ≡ key_of t) k b.tasks w.keyed e)))
      (contains-present b.tasks (run_keys b run) k t e (
        subst (λ (r : String). contains (run_keys b r) k ≡ true) (eq→path k.0 run same)
          (w.indexed k (rw e))))

-- On a sound board, cancel_run does to every task of the run what cancel does, and changes no
-- task of another run.
pub lookup-cancel_run :
    {b : Board} (run reason : String) (now : ℕ) (k : Key)
    → IsSound b
    → lookup k (cancel_run b run reason now).0.tasks ≡ (
        if k.0 == run
        then Option.map (cancelled_by reason now) (lookup k b.tasks)
        else lookup k b.tasks)
unfolding cancel_run raw_list_by_run
lookup-cancel_run {b} run reason now k s =
    lookup-cancel_each reason run now (map (λ t. t.task_id) (present b.tasks (run_keys b run))) k s
    ∙ choose_same (cancelled_by reason now) (lookup k b.tasks) _ (k.0 == run) (λ h. ground arith)
        (λ same held. elim (Option-cases (lookup k b.tasks)) [
          | inl e ↦ cc
          | inr (t, e) ↦ rw (same, listed_in_run run k s.well_formed e same)
        ])
