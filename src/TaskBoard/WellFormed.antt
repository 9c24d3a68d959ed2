-- ===== src/TaskBoard/WellFormed.antt =====
-- app/multiagent/task_board.py: what holds of the board's dictionaries between two method calls,
-- and the two ways in which methods change it: `add`, and saving a task that the board holds.
use mega_deepagents.Base.{
  String, true, false, Option, none, some, List, [], ◌∷◌, ◌≡◌, refl, sym, subst, ap, ◌∙◌, ite,
  arith, All, All-append, contains, ◌==◌, if◌then◌else◌, string_eq, pair_eq, Bool-cases,
  Option-cases, contains-append, ◌++◌, inl, inr,
}
use mega_deepagents.Base.Dict.{
  Dict, lookup, has_key, AllEntries, NodupKeys, lookup-insert, insert-NodupKeys, AllEntries-insert,
  AllEntries-lookup, AllEntries-map, AllEntries-zip, entries-lookup,
}
use mega_deepagents.TaskBoard.Task.{BoardTask}
use mega_deepagents.TaskBoard.Store.{
  Key, Board, key_of, save, run_keys, index, add, only, with_task_id, raw_get,
}

pub record IsWellFormed (b : Board) : Type 0 where
  -- A task stands under its own run and id.
  pub keyed : AllEntries (λ k t. k ≡ key_of t) b.tasks
  pub nodup : NodupKeys b.tasks
  pub rows_keyed : AllEntries (λ k t. k ≡ key_of t) b.rows
  pub rows_nodup : NodupKeys b.rows
  -- The run's index names every task of the run, and keys of that run only.
  pub indexed : (k : Key) → has_key k b.tasks ≡ true → contains (run_keys b k.0) k ≡ true
  pub in_run : AllEntries (λ r ks. All (λ (k : Key). k.0 ≡ r) ks) b.by_run
  -- On a durable board the row of each task that memory holds is that task.
  pub durable :
      b.persist_enabled ≡ true
      → (k : Key) (t : BoardTask) → lookup k b.tasks ≡ some t
      → lookup k b.rows ≡ some t

abbrev pub Holds : Board → BoardTask → Type 0
Holds b t = lookup (key_of t) b.tasks ≡ some t

-- What is found under a key is held under its own key.
pub own_key-Holds :
    {b : Board} (k : Key) (t : BoardTask) → IsWellFormed b → lookup k b.tasks ≡ some t → Holds b t
own_key-Holds {b} k t w e =
    subst (λ (j : Key). lookup j b.tasks ≡ some t)
      (AllEntries-lookup (λ k t. k ≡ key_of t) k b.tasks w.keyed e) e

only-All {κ} :
    (P : BoardTask → Type κ) (xs : List BoardTask) {t : BoardTask}
    → All P xs
    → only xs ≡ some t
    → P t
only-All P [] h e = cc
only-All P (x ∷ []) {t} h e = subst P (ground arith) h.0
only-All P (x ∷ y ∷ xs) h e = cc

with_task_id-All {κ} :
    (P : BoardTask → Type κ) (id : String) (d : Dict Key BoardTask)
    → AllEntries (λ k t. k.1 ≡ id → P t) d
    → All P (with_task_id id d)
unfolding with_task_id
with_task_id-All P id [] h = tt
with_task_id-All P id ((k, t) ∷ d) h =
    elim (string_eq.dec k.1 id)
      as (λ c. All P (if ite c true false then t ∷ with_task_id id d else with_task_id id d)) [
        | yes same ↦ (h.0 same, with_task_id-All P id d h.1)
        | no _ ↦ with_task_id-All P id d h.1
      ]

-- What `_raw_get` finds is held by the board under its own key, and has the id asked for.
pub raw_get-Holds :
    {b : Board} (id : String) (run : Option String) {t : BoardTask}
    → IsWellFormed b
    → raw_get b id run ≡ some t
    → Holds b t × (t.task_id ≡ id)
unfolding raw_get
raw_get-Holds {b} id (some r) {t} w e =
    let k : (r, id) ≡ key_of t =
      AllEntries-lookup (λ k t. k ≡ key_of t) (r, id) b.tasks w.keyed e in
    (subst (λ k. lookup k b.tasks ≡ some t) k e, sym (ap (λ (p : Key). p.1) k))
raw_get-Holds {b} id none {t} w e =
    only-All (λ t. Holds b t × (t.task_id ≡ id)) (with_task_id id b.tasks)
      (with_task_id-All (λ t. Holds b t × (t.task_id ≡ id)) id b.tasks
        (AllEntries-map b.tasks
          (λ k t h own.
            (subst (λ k. lookup k b.tasks ≡ some t) h.0 h.1, sym (ap (λ (p : Key). p.1) h.0) ∙ own))
          (AllEntries-zip _ _ b.tasks w.keyed (entries-lookup b.tasks w.nodup))))
      e

-- Saving a task that the board holds keeps the board well formed.
pub save-IsWellFormed :
    {b : Board} (t : BoardTask)
    → IsWellFormed b
    → has_key (key_of t) b.tasks ≡ true
    → IsWellFormed (save t b)
unfolding save run_keys
save-IsWellFormed {b} t w held = record {
  keyed = AllEntries-insert _ (key_of t) t b.tasks w.keyed refl;
  nodup = insert-NodupKeys (key_of t) t b.tasks w.nodup;
  rows_keyed = elim (Bool-cases b.persist_enabled) [
    | inl on ↦ rw on (AllEntries-insert _ (key_of t) t b.rows w.rows_keyed refl)
    | inr off ↦ rw off w.rows_keyed
  ];
  rows_nodup = elim (Bool-cases b.persist_enabled) [
    | inl on ↦ rw on (insert-NodupKeys (key_of t) t b.rows w.rows_nodup)
    | inr off ↦ rw off w.rows_nodup
  ];
  indexed = λ k h. ground (arith, lookup-insert k (key_of t) t b.tasks, w.indexed k);
  in_run = w.in_run;
  durable = λ on k u h. ground (
    arith,
    lookup-insert k (key_of t) t b.tasks,
    lookup-insert k (key_of t) t b.rows,
    w.durable on k u,
  );
}

pub run_keys-All :
    {b : Board} (r : String) → IsWellFormed b → All (λ (k : Key). k.0 ≡ r) (run_keys b r)
unfolding run_keys
run_keys-All {b} r w = elim (Option-cases (lookup r b.by_run)) [
  | inl e ↦ rw e tt
  | inr (ks, e) ↦ rw e (AllEntries-lookup _ r b.by_run w.in_run e)
]

new_keys-All :
    {b : Board} (t : BoardTask)
    → IsWellFormed b
    → All
        (λ (k : Key). k.0 ≡ t.run_id)
        (if contains (run_keys b t.run_id) (key_of t)
          then run_keys b t.run_id
          else run_keys b t.run_id ++ key_of t ∷ [])
new_keys-All {b} t w = elim (Bool-cases (contains (run_keys b t.run_id) (key_of t))) [
  | inl e ↦ rw e (run_keys-All t.run_id w)
  | inr e ↦ rw e (All-append _ (run_keys b t.run_id) _ (run_keys-All t.run_id w) (refl, tt))
]

contains-index :
    (b : Board) (k j : Key)
    → contains (run_keys (index k b) j.0) j ≡ (if j == k then true else contains (run_keys b j.0) j)
unfolding index run_keys
contains-index b k j =
    let known = run_keys b k.0 in
    ground (
      arith,
      contains-append known (k ∷ []) j,
      lookup-insert j.0 k.0 (if contains known k then known else known ++ k ∷ []) b.by_run,
    )

pub add-IsWellFormed : {b : Board} (t : BoardTask) → IsWellFormed b → IsWellFormed (add t b)
unfolding add run_keys
add-IsWellFormed {b} t w = record {
  keyed = AllEntries-insert _ (key_of t) t b.tasks w.keyed refl;
  nodup = insert-NodupKeys (key_of t) t b.tasks w.nodup;
  rows_keyed = elim (Bool-cases b.persist_enabled) [
    | inl on ↦ rw on (AllEntries-insert _ (key_of t) t b.rows w.rows_keyed refl)
    | inr off ↦ rw off w.rows_keyed
  ];
  rows_nodup = elim (Bool-cases b.persist_enabled) [
    | inl on ↦ rw on (insert-NodupKeys (key_of t) t b.rows w.rows_nodup)
    | inr off ↦ rw off w.rows_nodup
  ];
  indexed = λ k h.
      ground
        (arith, contains-index b (key_of t) k, lookup-insert k (key_of t) t b.tasks, w.indexed k);
  in_run = AllEntries-insert _ t.run_id _ b.by_run w.in_run (new_keys-All t w);
  durable = λ on k u h. ground (
    arith,
    lookup-insert k (key_of t) t b.tasks,
    lookup-insert k (key_of t) t b.rows,
    w.durable on k u,
  );
}
