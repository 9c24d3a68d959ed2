-- ===== src/Scheduler/Barrier.antt =====
-- app/multiagent/parallel_scheduler.py: `allow_parallel=False` is a barrier over the rounds of
-- `_run_loop`, whose `running` is the list of the tasks in flight.
use mega_deepagents.Base.{
  ℕ, String, Bool, true, false, not, List, [], ◌∷◌, ◌++◌, ◌≡◌, ◌≤◌, refl, arith, inl, inr,
  Bool-cases, All, All-map, keep, any, map, contains, length, min, max, ◌-◌, if◌then◌else◌,
  string_eq, length-append,
}
use mega_deepagents.Base.Lists.{sort_by}
use mega_deepagents.Base.Dict.{Dict}
use mega_deepagents.Scheduler.Lists.{
  any-append, keep-any, keep-length, length-map, keep-nil, keep-passes,
}
use mega_deepagents.Agent.Instance.{AgentInstance}
use mega_deepagents.Registry.Pool.{Registry}
use mega_deepagents.TaskBoard.Store.{Board}
use mega_deepagents.Scheduler.Dispatch.{
  Scheduler, Item, Assignment, first_item, start_barrier, admit, assign_admitted, assign, wave,
  task_allows_parallel, more_urgent, ready_now, idle_agents, serviceable, in_dispatch_order,
  put_agents,
}
use mega_deepagents.Scheduler.Assign.{assign-length}
use mega_deepagents.Scheduler.Wave.{admitted-IsMatch, put_agents-IsPool, empty-IsPool}

-- What happens to the tasks in flight: a round is dispatched with the board, the registry and the
-- clock as they are then, or the futures of some tasks are done or cancelled.
pub data Turn : Type 0 where
  dispatch : Board → Registry → ℕ → Turn
  done : List String → Turn

unfoldable pub wave_ids : List Assignment → List String
wave_ids found = map (λ p. p.0.task_id) found

-- `running[fut] = task.task_id` for each selected task, and `running.pop(fut, None)`.
unfoldable pub after_turn : Scheduler → List String → Turn → List String
unfolding wave wave_ids
after_turn s running (dispatch b r now) = running ++ wave_ids (wave s b r running now)
after_turn s running (done ids) = keep (λ i. not (contains ids i)) running

unfoldable pub after_turns : Scheduler → List String → List Turn → List String
unfolding after_turn
after_turns s running [] = running
after_turns s running (t ∷ ts) = after_turns s (after_turn s running t) ts

-- `allow_parallel` is False.
unfoldable pub is_exclusive : Scheduler → String → Bool
unfolding task_allows_parallel
is_exclusive s id = not (task_allows_parallel s id)

-- An exclusive task has no other beside it.
abbrev pub IsAlone : Scheduler → List String → Type 0
IsAlone s running = any (is_exclusive s) running ≡ true → length running ≤ 1

ids-any :
    (p : String → Bool) (found : List Assignment)
    → All (λ q. p q.0.task_id ≡ false) found
    → any p (wave_ids found) ≡ false
unfolding wave_ids
ids-any p [] h = refl
ids-any p (q ∷ found) h = ground (arith, h.0, ids-any p found h.1)

ids-length : (found : List Assignment) → length (wave_ids found) ≡ length found
unfolding wave_ids
ids-length found = length-map (λ p. p.0.task_id) found

-- A list of items none of which is exclusive gives a wave without exclusive tasks.
parallel_wave :
    (s : Scheduler) (agents : List AgentInstance) (m : List Item × ℕ)
    → All (λ x. is_exclusive s x.0.task_id ≡ false) m.0
    → any (is_exclusive s) (wave_ids (assign_admitted (put_agents [] agents) m)) ≡ false
parallel_wave s agents m h =
    let pool = put_agents [] agents in
    let found = assign_admitted pool m in
    ids-any (is_exclusive s) found (
      All-map found (λ q g. g.0)
        ((admitted-IsMatch (λ t. is_exclusive s t.task_id ≡ false) pool m
          (put_agents-IsPool [] agents empty-IsPool) h).0))

admitted-length :
    (d : Dict String AgentInstance) (m : List Item × ℕ) → length (assign_admitted d m) ≤ max 1 m.1
admitted-length d (items, capacity) =
    omega (arith, assign-length capacity 0 d (map (λ x. x.0) items))

start_barrier-IsAlone :
    (s : Scheduler) (agents : List AgentInstance) (exclusive ordered : List Item) (capacity : ℕ)
    → keep (λ x. is_exclusive s x.0.task_id) ordered ≡ exclusive
    → IsAlone s (
        wave_ids
          (assign_admitted (put_agents [] agents) (start_barrier exclusive ordered capacity)))
unfolding start_barrier
start_barrier-IsAlone s agents [] ordered capacity e some_exclusive =
    let none_exclusive =
      parallel_wave s agents (ordered, capacity)
        (keep-nil (λ x. is_exclusive s x.0.task_id) ordered e) in
    absurd (cc (some_exclusive, none_exclusive))
start_barrier-IsAlone s agents (x ∷ xs) ordered capacity e some_exclusive =
    let one = first_item (sort_by (λ y z. more_urgent y.0 z.0) (x ∷ xs)) in
    let found = assign_admitted (put_agents [] agents) (one, min capacity 1) in
    let bound = admitted-length (put_agents [] agents) (one, min capacity 1) in
    omega (arith, ids-length found, bound)

parallel :
    (s : Scheduler) (id : String) → task_allows_parallel s id ≡ true → is_exclusive s id ≡ false
unfolding is_exclusive
parallel s id h = rw h refl

-- Beside tasks in flight, one of which may be exclusive.
beside-IsAlone :
    (s : Scheduler) (agents : List AgentInstance) (running : List String) (ordered : List Item)
    (capacity : ℕ) (b : Bool)
    → any (is_exclusive s) running ≡ b
    → IsAlone s running
    → IsAlone s (
        running
        ++ wave_ids (
            assign_admitted (put_agents [] agents) (
              if b
              then ([], capacity)
              else (keep (λ x. task_allows_parallel s x.0.task_id) ordered, capacity))))
unfolding assign wave_ids
beside-IsAlone s agents running ordered capacity true e alone some_exclusive =
    omega (arith, length-append running [], alone e)
beside-IsAlone s agents running ordered capacity false e alone some_exclusive =
    let items = keep (λ x. task_allows_parallel s x.0.task_id) ordered in
    let found = assign_admitted (put_agents [] agents) (items, capacity) in
    let none_new =
      parallel_wave s agents (items, capacity)
        (All-map items (λ x h. parallel s x.0.task_id h)
          (keep-passes (λ x. task_allows_parallel s x.0.task_id) ordered)) in
    absurd (ground (arith, any-append (is_exclusive s) running (wave_ids found), none_new, e))

admit-IsAlone :
    (s : Scheduler) (agents : List AgentInstance) (running : List String) (ordered : List Item)
    (capacity : ℕ)
    → IsAlone s running
    → IsAlone s (
        running
        ++ wave_ids (assign_admitted (put_agents [] agents) (admit s running ordered capacity)))
unfolding admit is_exclusive
admit-IsAlone s agents [] ordered capacity alone =
    start_barrier-IsAlone s agents (keep (λ x. not (task_allows_parallel s x.0.task_id)) ordered)
      ordered capacity refl
admit-IsAlone s agents (id ∷ running) ordered capacity alone =
    beside-IsAlone s agents (id ∷ running) ordered capacity (any (is_exclusive s) (id ∷ running))
      refl alone

after_turn-IsAlone :
    (s : Scheduler) (running : List String) (t : Turn)
    → IsAlone s running
    → IsAlone s (after_turn s running t)
unfolding after_turn wave
after_turn-IsAlone s running (dispatch b r now) alone =
    let idle = idle_agents r s.run_id in
    admit-IsAlone s idle running
      (in_dispatch_order running (serviceable idle (ready_now b s.run_id now)))
      (s.max_concurrency - length running) alone
after_turn-IsAlone s running (done ids) alone = λ some_exclusive.
    let before =
      alone (keep-any (is_exclusive s) (λ i. not (contains ids i)) running some_exclusive) in
    omega (arith, keep-length (λ i. not (contains ids i)) running, before)

after_turns-IsAlone :
    (s : Scheduler) (running : List String) (ts : List Turn)
    → IsAlone s running
    → IsAlone s (after_turns s running ts)
unfolding after_turns
after_turns-IsAlone s running [] alone = alone
after_turns-IsAlone s running (t ∷ ts) alone =
    after_turns-IsAlone s (after_turn s running t) ts (after_turn-IsAlone s running t alone)

-- Whatever rounds are dispatched, with whatever boards and registries, and whatever tasks end
-- between them: if a task in flight does not allow parallel work by its contract, it is the only
-- one, as long as the graph stays the same.
pub exclusive_alone :
    (s : Scheduler) (ts : List Turn)
    → any (is_exclusive s) (after_turns s [] ts) ≡ true
    → length (after_turns s [] ts) ≤ 1
exclusive_alone s ts = after_turns-IsAlone s [] ts (λ e. absurd (cc e))

start_barrier-capacity :
    (exclusive ordered : List Item) (capacity : ℕ)
    → (start_barrier exclusive ordered capacity).1 ≤ capacity
unfolding start_barrier
start_barrier-capacity [] ordered capacity = omega arith
start_barrier-capacity (x ∷ xs) ordered capacity = omega arith

admit-capacity :
    (s : Scheduler) (running : List String) (ordered : List Item) (capacity : ℕ)
    → (admit s running ordered capacity).1 ≤ capacity
unfolding admit
admit-capacity s [] ordered capacity =
    start_barrier-capacity (keep (λ x. not (task_allows_parallel s x.0.task_id)) ordered) ordered
      capacity
admit-capacity s (id ∷ running) ordered capacity =
    elim (Bool-cases (any (λ i. not (task_allows_parallel s i)) (id ∷ running))) [
      | inl e ↦ rw e (omega arith)
      | inr e ↦ rw e (omega arith)
    ]

-- A wave has at most as many tasks as there are free places, but one if there is none.
pub wave-length :
    (s : Scheduler) (b : Board) (r : Registry) (running : List String) (now : ℕ)
    → length (wave s b r running now) ≤ max 1 (s.max_concurrency - length running)
unfolding wave
wave-length s b r running now =
    let idle = idle_agents r s.run_id in
    let ordered = in_dispatch_order running (serviceable idle (ready_now b s.run_id now)) in
    let free = s.max_concurrency - length running in
    omega (
      arith,
      admitted-length (put_agents [] idle) (admit s running ordered free),
      admit-capacity s running ordered free,
    )
