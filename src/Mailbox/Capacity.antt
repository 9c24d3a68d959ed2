-- ===== src/Mailbox/Capacity.antt =====
-- app/multiagent/mailbox.py: no inbox of an agent outgrows the capacity.
use mega_deepagents.Base.{
  ℕ, ◌≤◌, ◌<◌, String, Bool, true, false, Option, none, some, List, [], ◌∷◌, ◌++◌, ◌≡◌, ◌∙◌, sym,
  ap, refl, arith, length, length-append, length-drop, drop, ◌==◌, string_eq, option_eq, contains,
  eq→path, Bool-cases, inl, inr, subst,
}
use mega_deepagents.Base.Dict.{Dict, lookup, insert}
use mathlib.Core.Option.{some-injective}
use mega_deepagents.Mailbox.Message.{Message}
use mega_deepagents.Mailbox.Box
use mega_deepagents.Mailbox.Box.{
  Mailbox, inbox_of, list_or_nil, run_hooks, rate_check, enforce_capacity, receive_from,
  new_mailbox,
}
use mega_deepagents.Mailbox.Deliver
use mega_deepagents.Mailbox.Deliver.{deliver, send_limited, send_governed}
use mega_deepagents.Mailbox.History.{MailCall, send, receive, block, unblock, mail_call, mail_calls}
use mega_deepagents.Mailbox.Queue.{inbox-insert, drop_oldest_bound}

-- The agent's inbox is within the mailbox's capacity, which is `n`.
Fits : ℕ → String → Mailbox → Type 0
Fits n a mb = (length (inbox_of (some a) mb) ≤ n) × (mb.capacity ≡ n)

insert-le :
    (n : ℕ) (a : String) (to : Option String) (xs : List ℕ) (d : Dict (Option String) (List ℕ))
    → ((some a == to) ≡ true → length xs ≤ n)
    → length (list_or_nil (lookup (some a) d)) ≤ n
    → length (list_or_nil (lookup (some a) (insert to xs d))) ≤ n
insert-le n a to xs d new old = elim (Bool-cases (some a == to)) [
  | inl e ↦ rw (inbox-insert a to xs d, e) (new e)
  | inr e ↦ rw (inbox-insert a to xs d, e) old
]

-- Room is made in the inbox that a message goes to.
enforce-lt :
    (a : String) (mb : Mailbox) {xs : List ℕ}
    → 0 < mb.capacity
    → enforce_capacity mb (some a) ≡ some xs
    → length xs < mb.capacity
unfolding enforce_capacity
enforce-lt a mb {xs} pos e =
    let (ys, e', lt) = drop_oldest_bound mb.capacity (inbox_of (some a) mb) pos in
    subst (λ (zs : List ℕ). length zs < mb.capacity) (some-injective ys xs (sym e' ∙ e)) lt

deliver-Fits :
    (n : ℕ) (a : String) (mb : Mailbox) (m : Message) (o : Option (List ℕ))
    → 0 < n
    → enforce_capacity mb m.to_agent_id ≡ o
    → Fits n a mb
    → Fits n a (deliver mb m o).0
unfolding Fits
deliver-Fits n a mb m none pos e h =
    (insert-le n a m.to_agent_id [] mb.inboxes (λ _. omega arith) h.0, h.1)
deliver-Fits n a mb m (some xs) pos e h =
    let room : (some a == m.to_agent_id) ≡ true → length (xs ++ length mb.heap ∷ []) ≤ n = λ same.
      let p = eq→path (some a) m.to_agent_id same in
      let at_a = subst (λ to. enforce_capacity mb to ≡ some xs) (sym p) e in
      omega
        (arith, enforce-lt a mb (rw h.1 pos) at_a, h.1, length-append xs (length mb.heap ∷ [])) in
    (insert-le n a m.to_agent_id (xs ++ length mb.heap ∷ []) mb.inboxes room h.0, h.1)

module _ (n : ℕ) (a : String) (mb : Mailbox) (now : ℕ) (pos : 0 < n) (h : Fits n a mb) where
  limited-Fits :
      (m : Message) (passed : Bool) (rates : Dict String (List ℕ))
      → Fits n a (send_limited m (record mb { rate = rates }, passed)).0
  unfolding Fits
  limited-Fits m false rates = h
  limited-Fits m true rates =
      deliver-Fits n a (record mb { rate = rates }) m
        (enforce_capacity (record mb { rate = rates }) m.to_agent_id) pos refl h

  governed-Fits : (o : Option Message) → Fits n a (send_governed mb now o).0
  unfolding rate_check
  governed-Fits none = h
  governed-Fits (some m) = elim (Bool-cases (contains mb.blocklist m.from_agent_id)) [
    | inl e ↦ rw e h
    | inr e ↦ rw e (limited-Fits m _ _)
  ]

  receive-Fits :
      (id : String) (max_count : ℕ) (o : Option (List ℕ))
      → lookup (some id) mb.inboxes ≡ o
      → Fits n a (receive_from mb id max_count now o).0
  unfolding Fits
  receive-Fits id max_count none e = h
  receive-Fits id max_count (some []) e = h
  receive-Fits id max_count (some (i ∷ is)) e =
      let shorter : (some a == some id) ≡ true → length (drop max_count (i ∷ is)) ≤ n = λ same.
        let p = eq→path (some a) (some id) same in
        let held : inbox_of (some a) mb ≡ i ∷ is = ap (λ to. inbox_of to mb) p ∙ ap list_or_nil e in
        omega (arith, length-drop max_count (i ∷ is), h.0, ap (λ (xs : List ℕ). length xs) held) in
      (insert-le n a (some id) (drop max_count (i ∷ is)) mb.inboxes shorter h.0, h.1)

  call-Fits : (c : MailCall) → Fits n a (mail_call mb now c)
  unfolding mail_call Deliver.send Box.receive Box.block Box.unblock Fits
  call-Fits (send m) = governed-Fits (run_hooks mb.policy_hooks m)
  call-Fits (receive id k) = receive-Fits id k (lookup (some id) mb.inboxes) refl
  call-Fits (block id) = elim (Bool-cases (contains mb.blocklist id)) [
    | inl e ↦ rw e h
    | inr e ↦ rw e h
  ]
  call-Fits (unblock id) = h

calls-Fits :
    (n : ℕ) (a : String) (cs : List (ℕ × MailCall)) (mb : Mailbox)
    → 0 < n
    → Fits n a mb
    → Fits n a (mail_calls mb cs)
unfolding mail_calls
calls-Fits n a [] mb pos h = h
calls-Fits n a ((now, c) ∷ cs) mb pos h =
    calls-Fits n a cs (mail_call mb now c) pos (call-Fits n a mb now pos h c)

-- If the capacity of a new mailbox is not 0, no history of sends, receipts, blocks and
-- unblocks makes the inbox of any agent longer than the capacity.
pub inbox_bound :
    (n : ℕ) (a : String) (cs : List (ℕ × MailCall))
    → 0 < n
    → length (inbox_of (some a) (mail_calls (new_mailbox n) cs)) ≤ n
unfolding Fits lookup
inbox_bound n a cs pos = (calls-Fits n a cs (new_mailbox n) pos (omega arith, refl)).0
