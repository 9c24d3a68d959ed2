-- ===== src/TaskBoard/Store.antt =====
-- app/multiagent/task_board.py: the board's two dictionaries and its durable rows
-- (`upsert_task_board_task` and `list_task_board_tasks` of
-- app/infrastructure/database/run_store.py), the accessors, `add` and the shape that every
-- method on one task has: look the task up, test a guard, mutate it, persist it.
use mega_deepagents.Base.{
  String, Bool, true, false, Option, none, some, List, [], ◌∷◌, ◌++◌, if◌then◌else◌, contains, ◌==◌,
  option_eq, pair_eq, string_eq,
}
use mega_deepagents.Base.Dict.{Dict, lookup, insert}
use mega_deepagents.TaskBoard.Task.{BoardTask}

-- `(run_id, task_id)`
abbrev pub Key : Type 0
Key = String × String

abbrev pub key_of : BoardTask → Key
key_of t = (t.run_id, t.task_id)

pub record Board : Type 0 where
  pub tasks : Dict Key BoardTask
  pub by_run : Dict String (List Key)
  pub persist_enabled : Bool
  pub rows : Dict Key BoardTask

abbrev pub empty_board : Bool → Board
empty_board persist = record { tasks = []; by_run = []; persist_enabled = persist; rows = [] }

-- `_persist`: an upsert by the composite key, when the board is durable.
unfoldable pub persist : BoardTask → Board → Board
persist t b = record b { rows = if b.persist_enabled then insert (key_of t) t b.rows else b.rows }

-- What is left of a method after it mutated the task object that the board holds.
unfoldable pub save : BoardTask → Board → Board
unfolding persist
save t b = persist t (record b { tasks = insert (key_of t) t b.tasks })

abbrev pub or_empty {ℓ} : {A : Type ℓ} → Option (List A) → List A
or_empty none = []
or_empty (some xs) = xs

unfoldable pub run_keys : Board → String → List Key
run_keys b run_id = or_empty (lookup run_id b.by_run)

-- `keys = self._by_run.setdefault(run_id, []); if key not in keys: keys.append(key)`
unfoldable pub index : Key → Board → Board
unfolding run_keys
index k b =
    let known = run_keys b k.0 in
    record b { by_run = insert k.0 (if contains known k then known else known ++ k ∷ []) b.by_run }

unfoldable pub add : BoardTask → Board → Board
unfolding index persist
add t b = persist t (index (key_of t) (record b { tasks = insert (key_of t) t b.tasks }))

abbrev pub only {ℓ} : {A : Type ℓ} → List A → Option A
only [] = none
only (x ∷ []) = some x
only (x ∷ y ∷ xs) = none

-- `[task for (rid, tid), task in self._tasks.items() if tid == task_id]`
unfoldable pub with_task_id : String → Dict Key BoardTask → List BoardTask
with_task_id task_id [] = []
with_task_id task_id ((k, t) ∷ d) =
    let rest = with_task_id task_id d in if k.1 == task_id then t ∷ rest else rest

unfoldable pub raw_get : Board → String → Option String → Option BoardTask
unfolding with_task_id
raw_get b task_id (some run_id) = lookup (run_id, task_id) b.tasks
raw_get b task_id none = only (with_task_id task_id b.tasks)

abbrev pub prepend_found : Option BoardTask → List BoardTask → List BoardTask
prepend_found none ts = ts
prepend_found (some t) ts = t ∷ ts

-- `[self._tasks[key] for key in keys if key in self._tasks]`
unfoldable pub present : Dict Key BoardTask → List Key → List BoardTask
present d [] = []
present d (k ∷ ks) = prepend_found (lookup k d) (present d ks)

unfoldable pub raw_list_by_run : Board → String → List BoardTask
unfolding present run_keys
raw_list_by_run b run_id = present b.tasks (run_keys b run_id)

abbrev pub bind {ℓ κ} : {A : Type ℓ} {B : Type κ} → Option A → (A → Option B) → Option B
bind none f = none
bind (some a) f = f a

-- The end of a method: `none` is `return False`, before any change.
abbrev pub commit : Board → Option BoardTask → Board × Bool
commit b none = (b, false)
commit b (some t) = (save t b, true)

-- A method on one task: `f` is its guard and its assignments.
abbrev pub transact : Board → String → Option String → (BoardTask → Option BoardTask) → Board × Bool
transact b task_id run_id f = commit b (bind (raw_get b task_id run_id) f)
