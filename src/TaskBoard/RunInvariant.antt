-- ===== src/TaskBoard/RunInvariant.antt =====
-- app/multiagent/task_board.py: the methods on a whole run keep the board sound, and with them
-- every call and every history of calls.
use mega_deepagents.Base.{
  All-append, All-map, contains-append, ℕ, String, true, Option, none, some, List, [], ◌∷◌, ◌++◌,
  ◌≡◌, refl, subst, arith, contains, ◌==◌, if◌then◌else◌, Bool-cases, Option-cases, inl, inr,
  string_eq, pair_eq, map, All,
}
use mega_deepagents.Base.Dict.{
  Dict, lookup, erase, has_key, AllEntries, NodupKeys, AllEntries-insert, AllEntries-lookup,
  AllEntries-erase, lookup-erase, erase-NodupKeys, lookup-insert, AllEntries-map, entries-lookup,
  AllEntries-zip, insert-NodupKeys,
}
use mega_deepagents.TaskBoard.Task.{BoardTask, is_in_flight}
use mega_deepagents.TaskBoard.Store.{Key, Board, key_of, run_keys, raw_list_by_run}
use mega_deepagents.TaskBoard.Control
use mega_deepagents.TaskBoard.Runs
use mega_deepagents.TaskBoard.Runs.{
  cancel_each, resume_key, resume_found, resume_each, evict, purge_run, hydrate, restore_each,
  rows_of_run, resume_task,
}
use mega_deepagents.TaskBoard.WellFormed.{IsWellFormed, Holds, own_key-Holds, run_keys-All}
use mega_deepagents.TaskBoard.Invariant.{IsSound, save_held-IsSound, transact-IsSound}
use mega_deepagents.TaskBoard.Validity

cancel-IsSound :
    {b : Board} (id reason : String) (run : Option String) (now : ℕ)
    → IsSound b
    → IsSound (Control.cancel b id reason run now).0
unfolding Control.cancel
cancel-IsSound id reason run now = transact-IsSound id run (Validity.cancel-Keeps reason now)

pub cancel_each-IsSound :
    {b : Board} (reason run : String) (now : ℕ) (ids : List String)
    → IsSound b
    → IsSound (cancel_each b reason run now ids).0
unfolding cancel_each
cancel_each-IsSound reason run now [] s = s
cancel_each-IsSound {b} reason run now (id ∷ ids) s =
    cancel_each-IsSound {b = (Control.cancel b id reason (some run) now).0} reason run now ids
      (cancel-IsSound id reason (some run) now s)

resume_found-IsSound :
    {b : Board} (now : ℕ) (t : BoardTask)
    → IsSound b
    → Holds b t
    → IsSound (resume_found now b (some t)).0
unfolding resume_task
resume_found-IsSound {b} now t s h = elim (Bool-cases (is_in_flight t.status)) [
  | inl on ↦ rw on (
      save_held-IsSound t (resume_task now t) s h refl (
        Validity.resume_task-IsValid now t
          (AllEntries-lookup _ (key_of t) b.tasks s.tasks_valid h)))
  | inr off ↦ rw off s
]

pub resume_key-IsSound :
    {b : Board} (now : ℕ) (k : Key) → IsSound b → IsSound (resume_key now b k).0
unfolding resume_key
resume_key-IsSound {b} now k s = elim (Option-cases (lookup k b.tasks)) [
  | inl e ↦ rw e s
  | inr (t, e) ↦ rw e (resume_found-IsSound now t s (own_key-Holds k t s.well_formed e))
]

pub resume_each-IsSound :
    {b : Board} (now : ℕ) (ks : List Key) → IsSound b → IsSound (resume_each now b ks).0
unfolding resume_each
resume_each-IsSound now [] s = s
resume_each-IsSound {b} now (k ∷ ks) s =
    resume_each-IsSound {b = (resume_key now b k).0} now ks (resume_key-IsSound now k s)

pub cancel_run-IsSound :
    {b : Board} (run reason : String) (now : ℕ)
    → IsSound b
    → IsSound (Runs.cancel_run b run reason now).0
unfolding Runs.cancel_run
cancel_run-IsSound {b} run reason now s =
    cancel_each-IsSound reason run now (map (λ t. t.task_id) (raw_list_by_run b run)) s

pub prepare_for_resume-IsSound :
    {b : Board} (run : String) (now : ℕ) → IsSound b → IsSound (Runs.prepare_for_resume b run now).0
unfolding Runs.prepare_for_resume
prepare_for_resume-IsSound {b} run now s = resume_each-IsSound now (run_keys b run) s

pub lookup-evict :
    (d : Dict Key BoardTask) (ks : List Key) (k : Key)
    → lookup k (evict d ks).0 ≡ (if contains ks k then none else lookup k d)
unfolding evict
lookup-evict d [] k = refl
lookup-evict d (j ∷ ks) k = ground (arith, lookup-evict (erase j d) ks k, lookup-erase k j d)

evict-NodupKeys : (d : Dict Key BoardTask) (ks : List Key) → NodupKeys d → NodupKeys (evict d ks).0
unfolding evict
evict-NodupKeys d [] h = h
evict-NodupKeys d (j ∷ ks) h = evict-NodupKeys (erase j d) ks (erase-NodupKeys j d h)

AllEntries-evict {κ} :
    (P : Key → BoardTask → Type κ) (d : Dict Key BoardTask) (ks : List Key)
    → AllEntries P d
    → AllEntries P (evict d ks).0
unfolding evict
AllEntries-evict P d [] h = h
AllEntries-evict P d (j ∷ ks) h = AllEntries-evict P (erase j d) ks (AllEntries-erase P j d h)

pub purge_run-IsSound : {b : Board} (run : String) → IsSound b → IsSound (purge_run b run).0
unfolding purge_run run_keys
purge_run-IsSound {b} run s = record {
  well_formed = record {
    keyed = AllEntries-evict _ b.tasks (run_keys b run) w.keyed;
    nodup = evict-NodupKeys b.tasks (run_keys b run) w.nodup;
    rows_keyed = w.rows_keyed;
    rows_nodup = w.rows_nodup;
    indexed = λ k h. ground (
      arith,
      lookup-evict b.tasks (run_keys b run) k,
      w.indexed k,
      lookup-erase k.0 run b.by_run,
    );
    in_run = AllEntries-erase _ run b.by_run w.in_run;
    durable = λ on k t h. ground (arith, lookup-evict b.tasks (run_keys b run) k, w.durable on k t);
  };
  tasks_valid = AllEntries-evict _ b.tasks (run_keys b run) s.tasks_valid;
  rows_valid = s.rows_valid;
}
  where
    w : IsWellFormed b
    w = s.well_formed

-- A row that may be put into memory: a valid task, stored under its own key.
record IsRestorable (b : Board) (t : BoardTask) : Type 0 where
  valid : Validity.IsValid t
  stored : lookup (key_of t) b.rows ≡ some t

contains-hydrate :
    (b : Board) (t : BoardTask) (j : Key)
    → contains (run_keys (hydrate t b) j.0) j
      ≡ (if j == key_of t then true else contains (run_keys b j.0) j)
unfolding hydrate run_keys
contains-hydrate b t j =
    let known = run_keys b t.run_id in
    ground (
      arith,
      contains-append known (key_of t ∷ []) j,
      lookup-insert j.0 t.run_id (known ++ key_of t ∷ []) b.by_run,
    )

hydrate-IsSound : {b : Board} (t : BoardTask) → IsSound b → IsRestorable b t → IsSound (hydrate t b)
unfolding hydrate run_keys
hydrate-IsSound {b} t s r = record {
  well_formed = record {
    keyed = AllEntries-insert _ (key_of t) t b.tasks w.keyed refl;
    nodup = insert-NodupKeys (key_of t) t b.tasks w.nodup;
    rows_keyed = w.rows_keyed;
    rows_nodup = w.rows_nodup;
    indexed = λ k h.
        ground (arith, contains-hydrate b t k, lookup-insert k (key_of t) t b.tasks, w.indexed k);
    in_run =
        AllEntries-insert _ t.run_id _ b.by_run w.in_run
          (All-append _ (run_keys b t.run_id) _ (run_keys-All t.run_id w) (refl, tt));
    durable = λ on k u h.
        ground (arith, lookup-insert k (key_of t) t b.tasks, r.stored, w.durable on k u);
  };
  tasks_valid = AllEntries-insert _ (key_of t) t b.tasks s.tasks_valid r.valid;
  rows_valid = s.rows_valid;
}
  where
    w : IsWellFormed b
    w = s.well_formed

restore_each-IsSound :
    (ts : List BoardTask) {b : Board}
    → IsSound b
    → All (IsRestorable b) ts
    → IsSound (restore_each b ts).0
unfolding restore_each
restore_each-IsSound [] s h = s
restore_each-IsSound (t ∷ ts) {b} s h = elim (Bool-cases (has_key (key_of t) b.tasks)) [
  | inl known ↦ rw known (restore_each-IsSound ts s h.1)
  | inr new ↦
      rw new (restore_each-IsSound ts (hydrate-IsSound t s h.0) (hydrate-IsRestorable ts h.1))
]
  where
    hydrate-IsRestorable :
        (ts : List BoardTask) → All (IsRestorable b) ts → All (IsRestorable (hydrate t b)) ts
    hydrate-IsRestorable ts =
        All-map ts (λ u r. record { valid = r.valid; stored = unfold hydrate in r.stored })

rows_of_run-All {κ} :
    (P : BoardTask → Type κ) (run : String) (d : Dict Key BoardTask)
    → AllEntries (λ k t. P t) d
    → All P (rows_of_run run d)
unfolding rows_of_run
rows_of_run-All P run [] h = tt
rows_of_run-All P run ((k, t) ∷ d) h = elim (Bool-cases (k.0 == run)) [
  | inl e ↦ rw e (h.0, rows_of_run-All P run d h.1)
  | inr e ↦ rw e (rows_of_run-All P run d h.1)
]

-- Every row of a sound board may be put into memory.
rows-IsRestorable : {b : Board} → IsSound b → AllEntries (λ k t. IsRestorable b t) b.rows
rows-IsRestorable {b} s =
    AllEntries-map b.rows
      (λ k t h. record {
        valid = h.1;
        stored = subst (λ (j : Key). lookup j b.rows ≡ some t) h.0.0 h.0.1;
      })
      (AllEntries-zip _ _ b.rows
        (AllEntries-zip _ _ b.rows w.rows_keyed (entries-lookup b.rows w.rows_nodup)) s.rows_valid)
  where
    w : IsWellFormed b
    w = s.well_formed

pub restore_run-IsSound :
    {b : Board} (run : String) → IsSound b → IsSound (Runs.restore_run b run).0
unfolding Runs.restore_run
restore_run-IsSound {b} run s = elim (Bool-cases b.persist_enabled) [
  | inl on ↦ simp on (
      restore_each-IsSound (rows_of_run run b.rows) s
        (rows_of_run-All (IsRestorable b) run b.rows (rows-IsRestorable s)))
  | inr off ↦ simp off s
]
