-- ===== src/Mailbox/Samples.antt =====
-- app/multiagent/mailbox.py: two agents that write to each other, on which the theorems are used.
use mega_deepagents.Base.{
  ℕ, ◌+◌, ◌≤◌, ◌<◌, String, Bool, true, Option, none, some, List, [], ◌∷◌, ◌++◌, ◌≡◌, refl, arith,
  length, option_eq, string_eq,
}
use mega_deepagents.Base.Dict.{NodupKeys}
use mega_deepagents.Mailbox.Message.{Message, info}
use mega_deepagents.Mailbox.Box.{Mailbox, new_mailbox, inbox_of, read_all}
use mega_deepagents.Mailbox.History.{MailCall, mail_calls, all_received, all_arrived}
use mega_deepagents.Mailbox.Rate
use mega_deepagents.Mailbox.Fifo
use mega_deepagents.Mailbox.Capacity
use mega_deepagents.Mailbox.Deliver.{get_message}
use mega_deepagents.Mailbox.Snapshot.{snapshot, restore}
use mega_deepagents.Mailbox.Restore

abbrev letter : String → String → String → Message
letter id sender to = record {
  message_id = id;
  from_agent_id = sender;
  from_agent_name = "";
  from_role = "";
  to_agent_id = some to;
  to_role = none;
  run_id = "r";
  title = id;
  content = "";
  severity = info;
  thread_id = none;
  reply_to = none;
  delivery_attempts = 0;
  consumed_at = none;
  created_at = 0;
}

-- Two letters to `x` with one to `y` between them; `x` takes one, and a blocked sender is refused.
abbrev exchange : List (ℕ × MailCall)
exchange =
    (1, MailCall.send (letter "m1" "y" "x"))
    ∷ (2, MailCall.send (letter "m2" "x" "y"))
    ∷ (3, MailCall.send (letter "m3" "y" "x"))
    ∷ (4, MailCall.receive "x" 1)
    ∷ (5, MailCall.block "y")
    ∷ (6, MailCall.send (letter "m4" "y" "x"))
    ∷ []

arrivals : all_arrived "x" (new_mailbox 4) exchange ≡ 0 ∷ 2 ∷ []
unfolding all_arrived mega_deepagents.Mailbox.History.mail_call mega_deepagents.Mailbox.Deliver.send
    mega_deepagents.Base.Dict.lookup mega_deepagents.Base.Equality.option_eq
    mega_deepagents.Base.Equality.string_eq mega_deepagents.Base.Dict.insert
    mega_deepagents.Mailbox.Box.receive mega_deepagents.Mailbox.Box.block
arrivals = refl

first_out : all_received "x" (new_mailbox 4) exchange ≡ 0 ∷ []
unfolding all_received mega_deepagents.Base.Equality.string_eq mega_deepagents.Mailbox.Box.receive
    mega_deepagents.Base.Dict.lookup mega_deepagents.Mailbox.History.mail_call
    mega_deepagents.Mailbox.Deliver.send mega_deepagents.Base.Dict.insert
    mega_deepagents.Base.Equality.option_eq
first_out = refl

room :
    length (inbox_of (some "x") (new_mailbox 4)) + length (all_arrived "x" (new_mailbox 4) exchange)
    ≤ 4
unfolding mega_deepagents.Base.Dict.lookup
room = rw arrivals (omega arith)

fifo_example :
    all_received "x" (new_mailbox 4) exchange
      ++ inbox_of (some "x") (mail_calls (new_mailbox 4) exchange)
    ≡ inbox_of (some "x") (new_mailbox 4) ++ all_arrived "x" (new_mailbox 4) exchange
fifo_example = Fifo.fifo exchange "x" (new_mailbox 4) (omega arith) room

rate_bound_example : Rate.count 70000 (Rate.accepted 2 [] (10000 ∷ 20000 ∷ 30000 ∷ 70001 ∷ [])) ≤ 2
rate_bound_example =
    Rate.rate_bound 2 70000 0 (10000 ∷ 20000 ∷ 30000 ∷ 70001 ∷ [])
      (omega arith, (omega arith, (omega arith, (omega arith, tt))))

inbox_bound_example : length (inbox_of (some "x") (mail_calls (new_mailbox 1) exchange)) ≤ 1
inbox_bound_example = Capacity.inbox_bound 1 "x" exchange (omega arith)

-- Two letters lie in the inbox of `x`, and `y` has read one.
abbrev held : Mailbox
held = record (new_mailbox 4) {
  heap = letter "m1" "y" "x" ∷ letter "m2" "x" "y" ∷ letter "m3" "y" "x" ∷ [];
  inboxes = (some "x", 0 ∷ 2 ∷ []) ∷ (some "y", []) ∷ [];
  blocklist = "z" ∷ [];
  all_messages = ("m1", 0) ∷ ("m2", 1) ∷ ("m3", 2) ∷ [];
}

boxes_once : NodupKeys held.inboxes
unfolding mega_deepagents.Base.Dict.lookup mega_deepagents.Base.Equality.option_eq
    mega_deepagents.Base.Equality.string_eq
boxes_once = (refl, (refl, tt))

index_once : NodupKeys held.all_messages
unfolding mega_deepagents.Base.Dict.lookup mega_deepagents.Base.Equality.string_eq
index_once = (refl, (refl, (refl, tt)))

restore-snapshot_example :
    ((to : Option String)
      → read_all
          (restore (new_mailbox 9) (snapshot held)).heap
          (inbox_of to (restore (new_mailbox 9) (snapshot held)))
        ≡ read_all held.heap (inbox_of to held))
    × ((id : String)
        → get_message (restore (new_mailbox 9) (snapshot held)) id ≡ get_message held id)
    × ((restore (new_mailbox 9) (snapshot held)).blocklist ≡ held.blocklist)
restore-snapshot_example = Restore.restore-snapshot held (new_mailbox 9) boxes_once index_once
