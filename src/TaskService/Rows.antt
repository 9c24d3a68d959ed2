-- ===== src/TaskService/Rows.antt =====
-- app/multiagent/transactional_task_service.py: what the service does to the rows of the board's
-- table. No row is ever taken away.
use mega_deepagents.Base.{
  ℕ, String, Bool, true, false, Option, none, some, List, [], ◌∷◌, ◌≡◌, ◌∙◌, refl, sym, ap, arith,
  string_eq, pair_eq, Bool-cases, inl, inr, ◌==◌, if◌then◌else◌, eq→path, eq_self, map,
}
use mega_deepagents.Base.Dict.{Dict, lookup, has_key, insert, lookup-insert, values, AllEntries}
use mega_deepagents.TaskBoard.Task.{BoardTask}
use mega_deepagents.TaskBoard.Store.{Board, Key, key_of, add, persist}
use mega_deepagents.TaskBoard.Runs.{restore_run, restore_each, rows_of_run, hydrate}
use mega_deepagents.TaskGraph.Node.{TaskNode}
use mega_deepagents.TaskService.Mutate.{task_of_node}
use mega_deepagents.TaskService.Apply.{insert_row, insert_new, update_rows, add_all}
use mega_deepagents.TaskService.Register.{insert_rows, insert_fresh}
use mega_deepagents.TaskService.Outcomes.{Ensures, returns, then-Ensures, weaken}

abbrev pub Rows : Type 0
Rows = Dict Key BoardTask

-- Every key of the first is a key of the second.
abbrev pub Within : Rows → Rows → Type 0
Within d d' = (k : Key) → has_key k d ≡ true → has_key k d' ≡ true

insert-Within : (k : Key) (t : BoardTask) (d : Rows) → Within d (insert k t d)
insert-Within k t d j h = ground (arith, lookup-insert j k t d)

insert-has_key : (k : Key) (t : BoardTask) (d : Rows) → has_key k (insert k t d) ≡ true
insert-has_key k t d = ground (arith, lookup-insert k k t d, eq_self k)

insert_row-Within : (t : BoardTask) (d : Rows) → Within d (insert_row t d)
insert_row-Within t d j h = ground (arith, insert-Within (key_of t) t d j h)

insert_row-has_key : (t : BoardTask) (d : Rows) → has_key (key_of t) (insert_row t d) ≡ true
insert_row-has_key t d = elim (Bool-cases (has_key (key_of t) d)) [
  | inl old ↦ rw old old
  | inr new ↦ rw new (insert-has_key (key_of t) t d)
]

pub insert_new-Within : (o : Option BoardTask) (d : Rows) → Within d (insert_new o d)
insert_new-Within none d j h = h
insert_new-Within (some t) d j h = insert_row-Within t d j h

pub insert_new-has_key :
    (t : BoardTask) (d : Rows) → has_key (key_of t) (insert_new (some t) d) ≡ true
insert_new-has_key t d = insert_row-has_key t d

update_row-Within :
    (t : BoardTask) (d : Rows)
    → Within d (if has_key (key_of t) d then insert (key_of t) t d else d)
update_row-Within t d j h = ground (arith, insert-Within (key_of t) t d j h)

pub update_rows-Within : (ts : List BoardTask) (d : Rows) → Within d (update_rows ts d)
unfolding update_rows
update_rows-Within [] d j h = h
update_rows-Within (t ∷ ts) d j h = update_rows-Within ts _ j (update_row-Within t d j h)

pub add-Within : (t : BoardTask) (b : Board) → Within b.rows (add t b).rows
unfolding add persist
add-Within t b j h = ground (arith, insert-Within (key_of t) t b.rows j h)

pub add_all-Within : (ts : List BoardTask) (b : Board) → Within b.rows (add_all ts b).rows
unfolding add_all
add_all-Within [] b j h = h
add_all-Within (t ∷ ts) b j h = add_all-Within ts (add t b) j (add-Within t b j h)

pub add_if-Within :
    (c : Bool) (t : BoardTask) (b : Board) → Within b.rows (if c then add t b else b).rows
add_if-Within true t b j h = add-Within t b j h
add_if-Within false t b j h = h

restore_each-rows : (b : Board) (ts : List BoardTask) → (restore_each b ts).0.rows ≡ b.rows
unfolding restore_each hydrate
restore_each-rows b [] = refl
restore_each-rows b (t ∷ ts) = elim (Bool-cases (has_key (key_of t) b.tasks)) [
  | inl known ↦ rw known (restore_each-rows b ts)
  | inr new ↦ rw new (restore_each-rows (hydrate t b) ts)
]

restore_if-rows :
    (c : Bool) (b : Board) (ts : List BoardTask)
    → (if c then restore_each b ts else (b, 0)).0.rows ≡ b.rows
restore_if-rows true b ts = restore_each-rows b ts
restore_if-rows false b ts = refl

pub restore_run-rows : (b : Board) (run_id : String) → (restore_run b run_id).0.rows ≡ b.rows
unfolding restore_run
restore_run-rows b run_id = restore_if-rows b.persist_enabled b (rows_of_run run_id b.rows)

pub insert_rows-Within : (ts : List BoardTask) (d : Rows) → Within d (insert_rows ts d)
unfolding insert_rows
insert_rows-Within [] d j h = h
insert_rows-Within (t ∷ ts) d j h =
    insert_rows-Within ts (insert_row t d) j (insert_row-Within t d j h)

-- The rows hold every node of the dictionary, as tasks of the run.
abbrev pub Cover : String → Dict String TaskNode → Rows → Type 0
Cover run_id nodes d = (id : String) → has_key id nodes ≡ true → has_key (run_id, id) d ≡ true

module _ (run_id : String) (now : ℕ) where
  abbrev tasks_of : Dict String TaskNode → List BoardTask
  tasks_of nodes = map (task_of_node run_id now) (values nodes)

  abbrev at_run : String → Key
  at_run id = (run_id, id)

  named : (n : TaskNode) → key_of (task_of_node run_id now n) ≡ (run_id, n.id)
  unfolding task_of_node
  named n = refl

  pub insert_rows-Cover :
      (nodes : Dict String TaskNode) (d : Rows)
      → AllEntries (λ k n. k ≡ n.id) nodes
      → Cover run_id nodes (insert_rows (tasks_of nodes) d)
  unfolding insert_rows lookup
  insert_rows-Cover [] d keyed id h = cc h
  insert_rows-Cover ((k, n) ∷ nodes) d keyed id h = elim (Bool-cases (id == k)) [
    | inl here ↦
        let task = task_of_node run_id now n in
        let name = ap at_run (eq→path id k here ∙ keyed.0) ∙ sym (named n) in
        rw name (
          insert_rows-Within (tasks_of nodes) (insert_row task d) (key_of task)
            (insert_row-has_key task d))
    | inr later ↦ insert_rows-Cover nodes _ keyed.1 id (rw later at h)
  ]

  pub insert_fresh-Cover :
      (nodes : Dict String TaskNode) (d : Rows)
      → AllEntries (λ k n. k ≡ n.id) nodes
      → Ensures (λ d'. Within d d' × Cover run_id nodes d') (insert_fresh (tasks_of nodes) d)
  unfolding insert_fresh lookup
  insert_fresh-Cover [] d keyed = returns (λ j h. h, λ id h. cc h)
  insert_fresh-Cover ((k, n) ∷ nodes) d keyed = then-Ensures _ _ (λ _ _.
      let task = task_of_node run_id now n in
      weaken
        (λ d' both. (
          λ j h. both.0 j (insert-Within (key_of task) task d j h),
          λ id h. elim (Bool-cases (id == k)) [
            | inl here ↦
                rw (ap at_run (eq→path id k here ∙ keyed.0) ∙ sym (named n))
                  (both.0 (key_of task) (insert-has_key (key_of task) task d))
            | inr later ↦ both.1 id (rw later at h)
          ],
        ))
        (insert_fresh-Cover nodes (insert (key_of task) task d) keyed.1))
