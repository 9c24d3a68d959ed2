-- ===== src/Mailbox/Deliver.antt =====
-- app/multiagent/mailbox.py: `send`, the broadcasts, the wake-up hints and the listings.
use mega_deepagents.Base.{
  ℕ, suc, String, Bool, true, false, ◌&&◌, not, Option, none, some, List, [], ◌∷◌, ◌++◌,
  if◌then◌else◌, length, contains, keep, get_elem?, ◌==◌, string_eq, option_eq,
}
use mega_deepagents.Base.Dict.{lookup, insert, values}
use mega_deepagents.Mailbox.Message.{Message, info}
use mega_deepagents.Mailbox.Box.{
  Mailbox, put_inbox, run_hooks, rate_check, enforce_capacity, read_all,
}

pub data Outcome {ℓ} (A : Type ℓ) : Type ℓ where
  returned : A → Outcome A
  -- `popleft` of an empty deque
  index_error : Outcome A

-- The body of `send` under the lock, given the inbox with room made in it.
abbrev pub deliver : Mailbox → Message → Option (List ℕ) → Mailbox × Outcome Bool
deliver mb m none = (put_inbox m.to_agent_id [] mb, index_error)
deliver mb m (some inbox) = (
  record mb {
    heap = mb.heap ++ m ∷ [];
    inboxes = insert m.to_agent_id (inbox ++ length mb.heap ∷ []) mb.inboxes;
    all_messages = insert m.message_id (length mb.heap) mb.all_messages;
    rows = insert m.message_id m mb.rows;
  },
  returned true,
)

abbrev pub send_limited : Message → Mailbox × Bool → Mailbox × Outcome Bool
send_limited m (mb, false) = (mb, returned false)
send_limited m (mb, true) = deliver mb m (enforce_capacity mb m.to_agent_id)

abbrev pub send_governed : Mailbox → ℕ → Option Message → Mailbox × Outcome Bool
send_governed mb now none = (mb, returned false)
send_governed mb now (some m) =
    if contains mb.blocklist m.from_agent_id
    then (mb, returned false)
    else send_limited m (rate_check mb m.from_agent_id now)

-- `send`
unfoldable pub send : Mailbox → Message → ℕ → Mailbox × Outcome Bool
unfolding run_hooks rate_check enforce_capacity
send mb m now = send_governed mb now (run_hooks mb.policy_hooks m)

abbrev pub counted : ℕ → Mailbox × Outcome Bool → Mailbox × Outcome ℕ
counted n (mb, returned true) = (mb, returned (suc n))
counted n (mb, returned false) = (mb, returned n)
counted n (mb, index_error) = (mb, index_error)

abbrev pub send_next :
    (Mailbox → ℕ → Mailbox × Outcome ℕ) → Mailbox × Outcome ℕ → Mailbox × Outcome ℕ
send_next rest (mb, returned n) = rest mb n
send_next rest (mb, index_error) = (mb, index_error)

-- The loops that send one message after another and count those delivered.
unfoldable pub send_each : Mailbox → List Message → ℕ → ℕ → Mailbox × Outcome ℕ
unfolding send
send_each mb [] now n = (mb, returned n)
send_each mb (m ∷ ms) now n =
    send_next (λ mb' n'. send_each mb' ms now n') (counted n (send mb m now))

-- `model_copy(update=…)` for each agent but the sender; `fresh` yields the ids of `make_message_id`.
unfoldable pub clones : (ℕ → String) → ℕ → List String → Message → List Message
clones fresh n [] m = []
clones fresh n (id ∷ ids) m =
    let rest = clones fresh (suc n) ids m in
    let same = clones fresh n ids m in
    if id == m.from_agent_id
    then same
    else record m { to_agent_id = some id; message_id = fresh n } ∷ rest

unfoldable pub broadcast_run :
    Mailbox → (ℕ → String) → List String → Message → ℕ → Mailbox × Outcome ℕ
unfolding send_each clones
broadcast_run mb fresh agent_ids m now = send_each mb (clones fresh 0 agent_ids m) now 0

-- The ids of the role's agents other than the sender.
unfoldable pub role_ids : String → Message → List (String × String) → List String
role_ids role m [] = []
role_ids role m ((id, r) ∷ targets) =
    let rest = role_ids role m targets in
    if r == role && not (id == m.from_agent_id) then id ∷ rest else rest

unfoldable pub broadcast_role :
    Mailbox → (ℕ → String) → String → List (String × String) → Message → ℕ → Mailbox × Outcome ℕ
unfolding broadcast_run role_ids
broadcast_role mb fresh role targets m now = broadcast_run mb fresh (role_ids role m targets) m now

-- `hint or …`
abbrev pub hint_text : String → String
hint_text hint = if hint == "" then "请尽快完成当前任务或主动让出，以释放并发槽位。" else hint

unfoldable pub wakeup : String → String → String → String → ℕ → Message
wakeup message_id run_id agent_id hint now = record {
  message_id = message_id;
  from_agent_id = "orchestrator";
  from_agent_name = "Orchestrator";
  from_role = "system";
  to_agent_id = some agent_id;
  to_role = none;
  run_id = run_id;
  title = "wakeup_hint";
  content = hint_text hint;
  severity = info;
  thread_id = none;
  reply_to = none;
  delivery_attempts = 0;
  consumed_at = none;
  created_at = now;
}

unfoldable pub notify_idle : Mailbox → String → String → String → ℕ → Mailbox × Outcome Bool
unfolding send wakeup
notify_idle mb message_id agent_id hint now = send mb (wakeup message_id "" agent_id hint now) now

unfoldable pub wakeups : (ℕ → String) → ℕ → String → String → ℕ → List String → List Message
unfolding wakeup
wakeups fresh n run_id hint now [] = []
wakeups fresh n run_id hint now (id ∷ ids) =
    wakeup (fresh n) run_id id hint now ∷ wakeups fresh (suc n) run_id hint now ids

unfoldable pub wake_idle_agents :
    Mailbox → (ℕ → String) → String → List String → String → ℕ → Mailbox × Outcome ℕ
unfolding send_each wakeups
wake_idle_agents mb fresh run_id agent_ids hint now =
    send_each mb (wakeups fresh 0 run_id hint now agent_ids) now 0

unfoldable pub list_messages_in_run : Mailbox → String → List Message
unfolding read_all
list_messages_in_run mb run_id =
    keep (λ m. m.run_id == run_id) (read_all mb.heap (values mb.all_messages))

abbrev pub read_at : List Message → Option ℕ → Option Message
read_at heap none = none
read_at heap (some i) = get_elem? heap i

unfoldable pub get_message : Mailbox → String → Option Message
get_message mb message_id = read_at mb.heap (lookup message_id mb.all_messages)
