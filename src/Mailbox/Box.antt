-- ===== src/Mailbox/Box.antt =====
-- app/multiagent/mailbox.py: the state of `Mailbox`, its governance and `receive`.
-- An inbox and `_all_messages` hold the same message object, so both keep its place in `heap`. Times
-- are in milliseconds. Left out: the log, the wake events of `wait_for_message`, a failing database.
use mega_deepagents.Base.{
  ℕ, zero, suc, ◌-◌, String, Bool, true, false, not, Option, none, some, List, [], ◌∷◌, ◌++◌,
  if◌then◌else◌, ltb, leb, length, take, drop, contains, keep, get_elem?, ◌==◌, string_eq,
  option_eq,
}
use mega_deepagents.Base.Dict.{Dict, lookup, insert}
use mega_deepagents.Mailbox.Message.{Message}

pub record Mailbox : Type 0 where
  -- The objects, in the order in which they were stored.
  pub heap : List Message
  pub inboxes : Dict (Option String) (List ℕ)
  pub capacity : ℕ
  -- A hook raises `PolicyViolation`, or passes the message on, with what it changed in it.
  pub policy_hooks : List (Message → Option Message)
  pub blocklist : List String
  pub rate : Dict String (List ℕ)
  pub rate_limit_per_minute : ℕ
  pub all_messages : Dict String ℕ
  -- The table `mailbox_messages`.
  pub rows : Dict String Message

abbrev pub list_or_nil : Option (List ℕ) → List ℕ
list_or_nil none = []
list_or_nil (some xs) = xs

-- `__init__`
abbrev pub new_mailbox : ℕ → Mailbox
new_mailbox per_agent_max_size = record {
  heap = [];
  inboxes = [];
  capacity = per_agent_max_size;
  policy_hooks = [];
  blocklist = [];
  rate = [];
  rate_limit_per_minute = 60;
  all_messages = [];
  rows = [];
}

abbrev pub inbox_of : Option String → Mailbox → List ℕ
inbox_of to mb = list_or_nil (lookup to mb.inboxes)

abbrev pub put_inbox : Option String → List ℕ → Mailbox → Mailbox
put_inbox to inbox mb = record mb { inboxes = insert to inbox mb.inboxes }

-- `self._blocklist.add(agent_id)`
unfoldable pub block : Mailbox → String → Mailbox
block mb agent_id =
    if contains mb.blocklist agent_id
    then mb
    else record mb { blocklist = mb.blocklist ++ agent_id ∷ [] }

unfoldable pub unblock : Mailbox → String → Mailbox
unblock mb agent_id = record mb { blocklist = keep (λ id. not (id == agent_id)) mb.blocklist }

unfoldable pub add_policy_hook : Mailbox → (Message → Option Message) → Mailbox
add_policy_hook mb hook = record mb { policy_hooks = mb.policy_hooks ++ hook ∷ [] }

unfoldable pub run_hooks : List (Message → Option Message) → Message → Option Message
run_hooks [] m = some m
run_hooks (hook ∷ hooks) m = elim (hook m) [ none ↦ none | some m' ↦ run_hooks hooks m' ]

-- `while recent and (now - recent[0]) > 60: recent.pop(0)`
unfoldable pub prune : ℕ → List ℕ → List ℕ
prune now [] = []
prune now (t ∷ ts) = let rest = prune now ts in if ltb 60000 (now - t) then rest else t ∷ ts

-- `_rate_check`, on the sender's history: the history after it, and its answer.
-- `send` calls it before it takes the lock; here no two checks of one sender overlap.
unfoldable pub rate_step : ℕ → ℕ → List ℕ → List ℕ × Bool
unfolding prune
rate_step limit now history =
    let recent = prune now history in
    if leb limit (length recent) then (recent, false) else (recent ++ now ∷ [], true)

-- `_rate_check`
unfoldable pub rate_check : Mailbox → String → ℕ → Mailbox × Bool
unfolding rate_step
rate_check mb agent_id now =
    let (history, passed) =
      rate_step mb.rate_limit_per_minute now (list_or_nil (lookup agent_id mb.rate)) in
    (record mb { rate = insert agent_id history mb.rate }, passed)

-- `while len(inbox) >= self._capacity: inbox.popleft()`; none is the IndexError of an empty deque.
unfoldable pub drop_oldest : ℕ → List ℕ → Option (List ℕ)
drop_oldest capacity [] = if leb capacity 0 then none else some []
drop_oldest capacity (i ∷ is) =
    let rest = drop_oldest capacity is in
    if leb capacity (suc (length is)) then rest else some (i ∷ is)

-- `_enforce_capacity`
unfoldable pub enforce_capacity : Mailbox → Option String → Option (List ℕ)
unfolding drop_oldest
enforce_capacity mb none = some (inbox_of none mb)
enforce_capacity mb (some agent_id) = drop_oldest mb.capacity (inbox_of (some agent_id) mb)

-- `msg.consumed_at = …`
unfoldable pub consume : ℕ → List Message → ℕ → List Message
consume now [] i = []
consume now (m ∷ ms) zero = record m { consumed_at = some now } ∷ ms
consume now (m ∷ ms) (suc i) = m ∷ consume now ms i

unfoldable pub consume_all : ℕ → List Message → List ℕ → List Message
unfolding consume
consume_all now heap [] = heap
consume_all now heap (i ∷ is) = consume_all now (consume now heap i) is

unfoldable pub read_all : List Message → List ℕ → List Message
read_all heap [] = []
read_all heap (i ∷ is) =
    let rest = read_all heap is in elim (get_elem? heap i) [ none ↦ rest | some m ↦ m ∷ rest ]

-- `_persist_message`, an upsert by the message's id
unfoldable pub persist_all : List Message → Dict String Message → Dict String Message
persist_all [] rows = rows
persist_all (m ∷ ms) rows = persist_all ms (insert m.message_id m rows)

abbrev pub receive_from : Mailbox → String → ℕ → ℕ → Option (List ℕ) → Mailbox × List ℕ
receive_from mb agent_id max_count now none = (mb, [])
receive_from mb agent_id max_count now (some []) = (mb, [])
receive_from mb agent_id max_count now (some (i ∷ is)) =
    let out = take max_count (i ∷ is) in
    let heap = consume_all now mb.heap out in
    (
      record mb {
        heap = heap;
        inboxes = insert (some agent_id) (drop max_count (i ∷ is)) mb.inboxes;
        rows = persist_all (read_all heap out) mb.rows;
      },
      out,
    )

-- `receive`, which returns the objects: their places in the heap.
unfoldable pub receive : Mailbox → String → ℕ → ℕ → Mailbox × List ℕ
unfolding consume_all read_all persist_all
receive mb agent_id max_count now =
    receive_from mb agent_id max_count now (lookup (some agent_id) mb.inboxes)

-- `peek`, as `receive`
unfoldable pub peek : Mailbox → String → List ℕ
peek mb agent_id = inbox_of (some agent_id) mb

unfoldable pub inbox_size : Mailbox → String → ℕ
inbox_size mb agent_id = length (inbox_of (some agent_id) mb)
