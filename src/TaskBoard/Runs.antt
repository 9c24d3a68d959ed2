-- ===== src/TaskBoard/Runs.antt =====
-- app/multiagent/task_board.py: the methods on a whole run: `cancel_run`, `purge_run`,
-- `restore_run`, `prepare_for_resume`.
use mega_deepagents.Base.{
  ℕ, suc, String, Bool, true, false, Option, none, some, List, [], ◌∷◌, ◌++◌, map, if◌then◌else◌,
  ◌==◌, string_eq, pair_eq,
}
use mega_deepagents.Base.Dict.{Dict, lookup, insert, erase, has_key}
use mega_deepagents.TaskBoard.Task.{
  BoardTask, BoardTaskStatus, pending, produced, verifying, is_in_flight,
}
use mega_deepagents.TaskBoard.Store.{Board, Key, key_of, save, run_keys, raw_list_by_run}
use mega_deepagents.TaskBoard.Control.{cancel}

abbrev pub count_if : Bool → ℕ → ℕ
count_if true n = suc n
count_if false n = n

-- `sum(1 for task_id in task_ids if self.cancel(task_id, reason, run_id))`
unfoldable pub cancel_each : Board → String → String → ℕ → List String → Board × ℕ
unfolding cancel
cancel_each b reason run_id now [] = (b, 0)
cancel_each b reason run_id now (task_id ∷ ids) =
    let (b', done) = cancel b task_id reason (some run_id) now in
    let (b'', n) = cancel_each b' reason run_id now ids in (b'', count_if done n)

unfoldable pub cancel_run : Board → String → String → ℕ → Board × ℕ
unfolding cancel_each
cancel_run b run_id reason now =
    cancel_each b reason run_id now (map (λ t. t.task_id) (raw_list_by_run b run_id))

-- `for key in keys: if self._tasks.pop(key, None) is not None: evicted += 1`
unfoldable pub evict : Dict Key BoardTask → List Key → Dict Key BoardTask × ℕ
evict d [] = (d, 0)
evict d (k ∷ ks) = let (d', n) = evict (erase k d) ks in (d', count_if (has_key k d) n)

unfoldable pub purge_run : Board → String → Board × ℕ
unfolding evict
purge_run b run_id =
    let (d, n) = evict b.tasks (run_keys b run_id) in
    (record b { tasks = d; by_run = erase run_id b.by_run }, n)

-- `SELECT payload … WHERE run_id=? ORDER BY rowid`: the payloads of the run's rows.
unfoldable pub rows_of_run : String → Dict Key BoardTask → List BoardTask
rows_of_run run_id [] = []
rows_of_run run_id ((k, t) ∷ d) =
    let rest = rows_of_run run_id d in if k.0 == run_id then t ∷ rest else rest

-- `self._tasks[key] = task; self._by_run.setdefault(run, []).append(key)`
unfoldable pub hydrate : BoardTask → Board → Board
hydrate t b = record b {
  tasks = insert (key_of t) t b.tasks;
  by_run = insert t.run_id (run_keys b t.run_id ++ key_of t ∷ []) b.by_run;
}

unfoldable pub restore_each : Board → List BoardTask → Board × ℕ
unfolding hydrate
restore_each b [] = (b, 0)
restore_each b (t ∷ ts) =
    let known = has_key (key_of t) b.tasks in
    let (b', n) = restore_each (if known then b else hydrate t b) ts in
    (b', if known then n else suc n)

unfoldable pub restore_run : Board → String → Board × ℕ
unfolding restore_each rows_of_run
restore_run b run_id =
    if b.persist_enabled then restore_each b (rows_of_run run_id b.rows) else (b, 0)

abbrev pub resume_reason : BoardTaskStatus → String
resume_reason produced = "interrupted_after_produced"
resume_reason verifying = "interrupted_during_verify"
resume_reason _ = "interrupted_before_resume"

unfoldable pub resume_task : ℕ → BoardTask → BoardTask
resume_task now t = record t {
  status = pending;
  claimed_by = none;
  claimed_at = none;
  last_error = some (resume_reason t.status);
  updated_at = now;
}

abbrev pub resume_found : ℕ → Board → Option BoardTask → Board × Bool
resume_found now b none = (b, false)
resume_found now b (some t) =
    if is_in_flight t.status then (save (resume_task now t) b, true) else (b, false)

-- One round of the loop of `prepare_for_resume`, on the task object that the board holds.
unfoldable pub resume_key : ℕ → Board → Key → Board × Bool
unfolding resume_task
resume_key now b k = resume_found now b (lookup k b.tasks)

unfoldable pub resume_each : ℕ → Board → List Key → Board × ℕ
unfolding resume_key
resume_each now b [] = (b, 0)
resume_each now b (k ∷ ks) =
    let (b', changed) = resume_key now b k in
    let (b'', n) = resume_each now b' ks in (b'', count_if changed n)

unfoldable pub prepare_for_resume : Board → String → ℕ → Board × ℕ
unfolding resume_each
prepare_for_resume b run_id now = resume_each now b (run_keys b run_id)
