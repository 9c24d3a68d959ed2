-- ===== src/Mailbox/Fifo.antt =====
-- app/multiagent/mailbox.py: an inbox that does not overflow is a queue.
use mega_deepagents.Base.{
  ℕ, ◌+◌, ◌≤◌, ◌<◌, String, Bool, true, false, Option, none, some, List, [], ◌∷◌, ◌++◌, ◌≡◌, ◌∙◌,
  sym, ap, refl, arith, if◌then◌else◌, length, length-append, take, drop, get_elem?, ◌==◌,
  string_eq, option_eq, some-eq, contains, eq→path, Bool-cases, inl, inr,
}
use mega_deepagents.Base.Dict.{Dict, lookup, insert}
use mega_deepagents.Mailbox.Message.{Message}
use mega_deepagents.Mailbox.Box
use mega_deepagents.Mailbox.Box.{
  Mailbox, inbox_of, list_or_nil, run_hooks, rate_check, drop_oldest, enforce_capacity, consume,
  consume_all, receive_from,
}
use mega_deepagents.Mailbox.Deliver
use mega_deepagents.Mailbox.Deliver.{Outcome, deliver, send_limited, send_governed}
use mega_deepagents.Mailbox.History.{
  MailCall, send, receive, block, unblock, mail_call, mail_calls, received, arrived, addressed,
  all_received, all_arrived,
}
use mega_deepagents.Mailbox.Queue.{
  Queues, append-nil, append_assoc, quiet, inbox-insert, take-drop, get_elem?-past,
  length-consume_all, deliver-Queues,
}

module _ (a : String) (mb : Mailbox) (now : ℕ) where
  limited-Queues :
      (m : Message) (passed : Bool) (rates : Dict String (List ℕ))
      → 0 < mb.capacity
      → (let mb' = (send_limited m (record mb { rate = rates }, passed)).0 in
          length (inbox_of (some a) mb) + length (arrived a mb mb') ≤ mb.capacity
          → Queues a mb [] mb')
  unfolding arrived
  limited-Queues m false rates pos room = quiet a mb (record mb { rate = rates }) refl refl refl
  limited-Queues m true rates pos room = deliver-Queues a (record mb { rate = rates }) m pos room

  governed-Queues :
      (o : Option Message)
      → 0 < mb.capacity
      → length (inbox_of (some a) mb) + length (arrived a mb (send_governed mb now o).0)
        ≤ mb.capacity
      → Queues a mb [] (send_governed mb now o).0
  unfolding rate_check
  governed-Queues none pos room = quiet a mb mb refl refl refl
  governed-Queues (some m) pos room = elim (Bool-cases (contains mb.blocklist m.from_agent_id)) [
    | inl e ↦ rw e (quiet a mb mb refl refl refl)
    | inr e ↦ rw e (limited-Queues m _ _ pos (rw e at room))
  ]

  popped :
      (id : String) (n : ℕ) (is : List ℕ)
      → lookup (some id) mb.inboxes ≡ some is
      → (if a == id then take n is else [])
          ++ list_or_nil (lookup (some a) (insert (some id) (drop n is) mb.inboxes))
        ≡ inbox_of (some a) mb
  popped id n is e = elim (Bool-cases (a == id)) [
    | inl e' ↦
        rw (inbox-insert a (some id) (drop n is) mb.inboxes, some-eq a id, e')
          (take-drop n is
            ∙ sym (ap (λ (x : String). inbox_of (some x) mb) (eq→path a id e') ∙ ap list_or_nil e))
    | inr e' ↦ rw (inbox-insert a (some id) (drop n is) mb.inboxes, some-eq a id, e') refl
  ]

  receive-Queues :
      (id : String) (n : ℕ) (o : Option (List ℕ))
      → lookup (some id) mb.inboxes ≡ o
      → Queues a mb
          (if a == id then (receive_from mb id n now o).1 else [])
          (receive_from mb id n now o).0
  unfolding arrived
  receive-Queues id n none e = elim (Bool-cases (a == id)) [
    | inl e' ↦ rw e' (quiet a mb mb refl refl refl)
    | inr e' ↦ rw e' (quiet a mb mb refl refl refl)
  ]
  receive-Queues id n (some []) e = elim (Bool-cases (a == id)) [
    | inl e' ↦ rw e' (quiet a mb mb refl refl refl)
    | inr e' ↦ rw e' (quiet a mb mb refl refl refl)
  ]
  receive-Queues id n (some (i ∷ is)) e =
      let out = take n (i ∷ is) in
      let heap = consume_all now mb.heap out in
      let none_new : addressed a (length mb.heap) (get_elem? heap (length mb.heap)) ≡ [] =
        ap (λ k. addressed a (length mb.heap) (get_elem? heap k))
          (sym (length-consume_all now out mb.heap))
        ∙ ap (addressed a (length mb.heap)) (get_elem?-past heap) in
      (
        popped id n (i ∷ is) e
            ∙ sym (append-nil (inbox_of (some a) mb))
            ∙ ap (λ xs. inbox_of (some a) mb ++ xs) (sym none_new),
        refl,
      )

-- One call as a step of the agent's queue.
call-Queues :
    (a : String) (mb : Mailbox) (now : ℕ) (c : MailCall)
    → 0 < mb.capacity
    → length (inbox_of (some a) mb) + length (arrived a mb (mail_call mb now c)) ≤ mb.capacity
    → Queues a mb (received a mb now c) (mail_call mb now c)
unfolding mail_call received Deliver.send Box.receive Box.block Box.unblock
call-Queues a mb now (send m) pos room =
    governed-Queues a mb now (run_hooks mb.policy_hooks m) pos room
call-Queues a mb now (receive id n) pos room =
    receive-Queues a mb now id n (lookup (some id) mb.inboxes) refl
call-Queues a mb now (block id) pos room = elim (Bool-cases (contains mb.blocklist id)) [
  | inl e ↦ rw e (quiet a mb mb refl refl refl)
  | inr e ↦ rw e (quiet a mb _ refl refl refl)
]
call-Queues a mb now (unblock id) pos room = quiet a mb _ refl refl refl

-- In a history of sends, receipts, blocks and unblocks, if the capacity is not 0 and what an
-- agent's inbox held at first and all that arrives for it fit in the capacity together, then
-- what the agent receives, followed by what is left, is what the inbox held at first followed
-- by what arrived, in that order.
pub fifo :
    (cs : List (ℕ × MailCall)) (a : String) (mb : Mailbox)
    → 0 < mb.capacity
    → length (inbox_of (some a) mb) + length (all_arrived a mb cs) ≤ mb.capacity
    → all_received a mb cs ++ inbox_of (some a) (mail_calls mb cs)
      ≡ inbox_of (some a) mb ++ all_arrived a mb cs
unfolding mail_calls all_received all_arrived
fifo [] a mb pos room = sym (append-nil (inbox_of (some a) mb))
fifo ((now, c) ∷ cs) a mb pos room =
    let mb' = mail_call mb now c in
    let r = received a mb now c in
    let n = arrived a mb mb' in
    let (step, cap) =
      call-Queues a mb now c pos (omega (arith, room, length-append n (all_arrived a mb' cs))) in
    let sizes = length_step r (inbox_of (some a) mb') (inbox_of (some a) mb) n step in
    let rest =
      fifo cs a mb' (rw cap pos)
        (omega (arith, cap, room, sizes, length-append n (all_arrived a mb' cs))) in
    append_assoc r (all_received a mb' cs) (inbox_of (some a) (mail_calls mb' cs))
    ∙ ap (λ xs. r ++ xs) rest
    ∙ sym (append_assoc r (inbox_of (some a) mb') (all_arrived a mb' cs))
    ∙ ap (λ xs. xs ++ all_arrived a mb' cs) step
    ∙ append_assoc (inbox_of (some a) mb) n (all_arrived a mb' cs)
  where
    length_step : (r xs ys n : List ℕ) → r ++ xs ≡ ys ++ n → length xs ≤ length ys + length n
    length_step r xs ys n e =
        omega (arith, length-append r xs, length-append ys n, ap (λ (zs : List ℕ). length zs) e)
