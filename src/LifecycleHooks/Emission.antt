-- ===== src/LifecycleHooks/Emission.antt =====
-- app/multiagent/lifecycle_hooks.py: `emit_async`, and what it writes to the history. That `emit`
-- refuses to run inside an event loop is left out.
use Prim.Native.String.{◌++◌ as join}
use mega_deepagents.Base.{
  ℕ, String, Bool, true, false, not, ◌&&◌, ◌||◌, Option, none, some, List, [], ◌∷◌, ◌++◌, map, keep,
  if◌then◌else◌, ◌==◌, string_eq, ltb, eqb,
}
use mega_deepagents.Base.Dict.{Dict, insert}
use mega_deepagents.TaskGraph.Ready.{name_lt}
use mega_deepagents.LifecycleHooks.Engine.{
  LifecycleEvent, event_eq, HookResult, default_result, HookScope, FailurePolicy, int_ltb, Hook,
  HookEngine,
}

-- `order[h.scope]`
abbrev pub scope_order : HookScope → ℕ
scope_order HookScope.system = 0
scope_order HookScope.user = 1
scope_order HookScope.project = 2

-- The key `(order[h.scope], -h.priority, h.hook_id)` of `a` is below that of `b`.
abbrev pub is_before : Hook → Hook → Bool
is_before a b =
    let i = scope_order a.scope in
    let j = scope_order b.scope in
    ltb i j
    || (eqb i j
        && (int_ltb b.priority a.priority
            || (not (int_ltb a.priority b.priority) && name_lt a.hook_id b.hook_id)))

unfoldable pub insert_hook : Hook → List Hook → List Hook
insert_hook h [] = h ∷ []
insert_hook h (k ∷ ks) =
    let rest = insert_hook h ks in if is_before k h then k ∷ rest else h ∷ k ∷ ks

unfoldable pub sort_hooks : List Hook → List Hook
unfolding insert_hook
sort_hooks [] = []
sort_hooks (h ∷ hs) = insert_hook h (sort_hooks hs)

abbrev pub is_for : LifecycleEvent → Hook → Bool
is_for event h = h.event == event

-- The hooks of an event, in the order in which they are asked.
unfoldable pub hooks_for : LifecycleEvent → HookEngine → List Hook
unfolding sort_hooks
hooks_for event engine = sort_hooks (keep (is_for event) engine)

-- What a handler does: it answers, or it raises, runs out of time, or answers what is not a result,
-- and the text of that exception.
pub data Answer : Type 0 where
  gives : HookResult → Answer
  fails : (text : String) → Answer

-- What the handlers do in one emission.
abbrev pub Answers : Type 0
Answers = Hook → Answer

abbrev pub failed_result : Hook → String → HookResult
failed_result h text = record default_result {
  allow = elim h.failure_policy [
    | FailurePolicy.on_failure_block ↦ false
    | FailurePolicy.on_failure_allow ↦ true
  ];
  block = elim h.failure_policy [
    | FailurePolicy.on_failure_block ↦ true
    | FailurePolicy.on_failure_allow ↦ false
  ];
  feedback = join "hook " (join h.hook_id (join " failed: " text));
}

abbrev pub result_of : Hook → Answer → HookResult
result_of h (Answer.fails text) = failed_result h text
result_of h (Answer.gives r) = r

-- `"\n".join(filter(None, …))` of two texts
abbrev pub join_lines : String → String → String
join_lines a b = if a == "" then b else if b == "" then a else join a (join "\n" b)

-- `d.update(e)`
unfoldable pub update_with : Dict String String → Dict String String → Dict String String
update_with d [] = d
update_with d ((k, v) ∷ e) = update_with (insert k v d) e

unfoldable pub combine : HookResult → HookResult → HookResult
unfolding update_with
combine c r = record {
  allow = c.allow && r.allow && not r.block;
  block = c.block || r.block;
  feedback = join_lines c.feedback r.feedback;
  mutate_metadata = update_with c.mutate_metadata r.mutate_metadata;
  request_human = c.request_human || r.request_human;
  request_replan = c.request_replan || r.request_replan;
}

abbrev pub Asked : Type 0
Asked = HookResult × List (Hook × HookResult)

-- A turn of the loop, which breaks where the combined result blocks.
abbrev pub turn : HookResult → Hook × HookResult → Asked → Asked
turn combined asked rest =
    if combined.block then (combined, asked ∷ []) else (rest.0, asked ∷ rest.1)

-- The loop, with the hooks that it asks and their results.
unfoldable pub ask_hooks : Answers → HookResult → List Hook → Asked
unfolding combine
ask_hooks answers c [] = (c, [])
ask_hooks answers c (h ∷ hs) =
    let result = result_of h (answers h) in
    let combined = combine c result in turn combined (h, result) (ask_hooks answers combined hs)

-- A row of the history of events.
pub data HistoryEvent : Type 0 where
  lifecycle : (run_id : String) → LifecycleEvent → HistoryEvent
  lifecycle_hook :
      (run_id : String) → LifecycleEvent → (hook_id : String) → HookResult → HistoryEvent

-- The rows that `_record_lifecycle` and `_audit` write: none without a run.
abbrev pub audit_rows :
    Option String → LifecycleEvent → List (Hook × HookResult) → List HistoryEvent
audit_rows none event asked = []
audit_rows (some run_id) event asked =
    if run_id == ""
    then []
    else HistoryEvent.lifecycle run_id event
      ∷ map (λ a. HistoryEvent.lifecycle_hook run_id event a.0.hook_id a.1) asked

-- `emit_async`, on the history
unfoldable pub emit :
    HookEngine
    → List HistoryEvent
    → LifecycleEvent
    → Option String
    → Answers
    → HookResult × List HistoryEvent
unfolding hooks_for ask_hooks
emit engine history event run_id answers =
    let (combined, asked) = ask_hooks answers default_result (hooks_for event engine) in
    (combined, history ++ audit_rows run_id event asked)
