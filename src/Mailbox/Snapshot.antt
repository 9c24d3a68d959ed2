-- ===== src/Mailbox/Snapshot.antt =====
-- app/multiagent/mailbox.py: `snapshot`, `restore`, `flush_to_db` and `restore_from_db`, with
-- `list_mailbox_messages` of app/infrastructure/database/run_store.py, on a database that does not
-- fail.
use mega_deepagents.Base.{
  ℕ, zero, suc, String, ◌&&◌, Option, none, some, List, [], ◌∷◌, ◌++◌, if◌then◌else◌, length, keep,
  ltb, ◌==◌, is_none, is_some, string_eq, option_eq,
}
use mega_deepagents.Base.Dict.{Dict, insert, values}
use mega_deepagents.Mailbox.Message.{Message}
use mega_deepagents.Mailbox.Box.{Mailbox, inbox_of, put_inbox, read_all, persist_all}
use mega_deepagents.Mailbox.Deliver.{read_at}

-- What `snapshot` returns: the messages by value.
pub record MailSnapshot : Type 0 where
  pub inboxes : Dict (Option String) (List Message)
  pub blocklist : List String
  pub all : Dict String Message

unfoldable pub dump_inboxes :
    List Message → Dict (Option String) (List ℕ) → Dict (Option String) (List Message)
dump_inboxes heap [] = []
dump_inboxes heap ((to, is) ∷ d) = (to, read_all heap is) ∷ dump_inboxes heap d

abbrev pub dump_entry : String → Option Message → Dict String Message → Dict String Message
dump_entry id none rest = rest
dump_entry id (some m) rest = (id, m) ∷ rest

unfoldable pub dump_all : List Message → Dict String ℕ → Dict String Message
dump_all heap [] = []
dump_all heap ((id, i) ∷ d) = dump_entry id (read_at heap (some i)) (dump_all heap d)

unfoldable pub snapshot : Mailbox → MailSnapshot
unfolding dump_inboxes dump_all read_all
snapshot mb = record {
  inboxes = dump_inboxes mb.heap mb.inboxes;
  blocklist = mb.blocklist;
  all = dump_all mb.heap mb.all_messages;
}

-- The places of `count` objects that are made one after another.
unfoldable pub places : ℕ → ℕ → List ℕ
places start zero = []
places start (suc count) = start ∷ places (suc start) count

-- The loop over the inboxes: each message becomes a new object.
unfoldable pub load_inboxes :
    Dict (Option String) (List Message)
    → List Message
    → Dict (Option String) (List ℕ)
    → List Message × Dict (Option String) (List ℕ)
unfolding places
load_inboxes [] heap d = (heap, d)
load_inboxes ((to, ms) ∷ entries) heap d =
    load_inboxes entries (heap ++ ms) (insert to (places (length heap) (length ms)) d)

-- The comprehension over all messages: each becomes a new object, another than that in an inbox.
unfoldable pub load_all :
    Dict String Message → List Message → Dict String ℕ → List Message × Dict String ℕ
load_all [] heap d = (heap, d)
load_all ((id, m) ∷ entries) heap d = load_all entries (heap ++ m ∷ []) (insert id (length heap) d)

unfoldable pub restore : Mailbox → MailSnapshot → Mailbox
unfolding load_inboxes load_all
restore mb s =
    let (heap, inboxes) = load_inboxes s.inboxes mb.heap [] in
    let (heap', all) = load_all s.all heap [] in
    record mb { heap = heap'; inboxes = inboxes; blocklist = s.blocklist; all_messages = all }

-- `flush_to_db`, and its count
unfoldable pub flush_to_db : Mailbox → String → Mailbox × ℕ
unfolding persist_all read_all
flush_to_db mb run_id =
    let ms = keep (λ m. m.run_id == run_id) (read_all mb.heap (values mb.all_messages)) in
    (record mb { rows = persist_all ms mb.rows }, length ms)

unfoldable pub insert_by_time : Message → List Message → List Message
insert_by_time m [] = m ∷ []
insert_by_time m (n ∷ ns) =
    let rest = insert_by_time m ns in if ltb n.created_at m.created_at then n ∷ rest else m ∷ n ∷ ns

-- `ORDER BY created_at ASC`, of rows of the same time in the order of the table
unfoldable pub sort_by_time : List Message → List Message
unfolding insert_by_time
sort_by_time [] = []
sort_by_time (m ∷ ms) = insert_by_time m (sort_by_time ms)

-- `list_mailbox_messages(run_id=run_id)`
unfoldable pub list_mailbox_messages : Dict String Message → String → List Message
unfolding sort_by_time
list_mailbox_messages rows run_id = sort_by_time (keep (λ m. m.run_id == run_id) (values rows))

-- The body of the loop of `restore_from_db`.
unfoldable pub load_row : Mailbox → Message → Mailbox
load_row mb m =
    let i = length mb.heap in
    let stored = record mb {
      heap = mb.heap ++ m ∷ [];
      all_messages = insert m.message_id i mb.all_messages;
    } in
    if is_none m.consumed_at && is_some m.to_agent_id
    then put_inbox m.to_agent_id (inbox_of m.to_agent_id mb ++ i ∷ []) stored
    else stored

unfoldable pub load_rows : Mailbox → List Message → Mailbox
unfolding load_row
load_rows mb [] = mb
load_rows mb (m ∷ ms) = load_rows (load_row mb m) ms

unfoldable pub restore_from_db : Mailbox → String → Mailbox × ℕ
unfolding list_mailbox_messages load_rows
restore_from_db mb run_id =
    let ms = list_mailbox_messages mb.rows run_id in (load_rows mb ms, length ms)
