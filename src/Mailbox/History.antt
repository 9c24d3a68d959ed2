-- ===== src/Mailbox/History.antt =====
-- app/multiagent/mailbox.py: histories of `send`, `receive`, `block` and `unblock`, each of which
-- changes the inboxes under the mailbox's lock, and what an agent gets in them.
use mega_deepagents.Base.{
  ℕ, String, Option, none, some, List, [], ◌∷◌, ◌++◌, if◌then◌else◌, length, get_elem?, ◌==◌,
  string_eq, option_eq,
}
use mega_deepagents.Mailbox.Message.{Message}
use mega_deepagents.Mailbox.Box
use mega_deepagents.Mailbox.Box.{
  Mailbox, inbox_of, list_or_nil, run_hooks, rate_check, drop_oldest, enforce_capacity, consume,
  consume_all, receive_from,
}
use mega_deepagents.Mailbox.Deliver
use mega_deepagents.Mailbox.Deliver.{Outcome, deliver, send_limited, send_governed}

pub data MailCall : Type 0 where
  send : Message → MailCall
  receive : (agent_id : String) (max_count : ℕ) → MailCall
  block unblock : String → MailCall

unfoldable pub mail_call : Mailbox → ℕ → MailCall → Mailbox
mail_call mb now (send m) = (Deliver.send mb m now).0
mail_call mb now (receive agent_id max_count) = (Box.receive mb agent_id max_count now).0
mail_call mb now (block agent_id) = Box.block mb agent_id
mail_call mb now (unblock agent_id) = Box.unblock mb agent_id

unfoldable pub mail_calls : Mailbox → List (ℕ × MailCall) → Mailbox
unfolding mail_call
mail_calls mb [] = mb
mail_calls mb ((now, c) ∷ cs) = mail_calls (mail_call mb now c) cs

-- What the call hands out to the agent.
unfoldable pub received : String → Mailbox → ℕ → MailCall → List ℕ
received a mb now (receive agent_id max_count) =
    if a == agent_id then (Box.receive mb agent_id max_count now).1 else []
received a mb now _ = []

abbrev pub addressed : String → ℕ → Option Message → List ℕ
addressed a i none = []
addressed a i (some m) = if some a == m.to_agent_id then i ∷ [] else []

-- The new object of the heap, if there is one and it is addressed to the agent.
unfoldable pub arrived : String → Mailbox → Mailbox → List ℕ
arrived a mb mb' = addressed a (length mb.heap) (get_elem? mb'.heap (length mb.heap))

unfoldable pub all_received : String → Mailbox → List (ℕ × MailCall) → List ℕ
unfolding received
all_received a mb [] = []
all_received a mb ((now, c) ∷ cs) = received a mb now c ++ all_received a (mail_call mb now c) cs

unfoldable pub all_arrived : String → Mailbox → List (ℕ × MailCall) → List ℕ
unfolding arrived
all_arrived a mb [] = []
all_arrived a mb ((now, c) ∷ cs) =
    arrived a mb (mail_call mb now c) ++ all_arrived a (mail_call mb now c) cs
