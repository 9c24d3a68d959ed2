-- ===== src/Mailbox/Queue.antt =====
-- app/multiagent/mailbox.py: what a delivery does to an inbox.
use mega_deepagents.Base.{
  ℕ, zero, suc, ◌+◌, ◌≤◌, ◌<◌, String, true, false, Option, none, some, List, [], ◌∷◌, ◌++◌, ◌≡◌,
  ◌∙◌, sym, ap, refl, arith, if◌then◌else◌, length, take, drop, get_elem?, ◌==◌, string_eq,
  option_eq, eq_self, eq→path, Bool-cases, inl, inr, subst, leb,
}
use mega_deepagents.Base.Dict.{Dict, lookup, lookup-insert, insert}
use mega_deepagents.Mailbox.Message.{Message}
use mega_deepagents.Mailbox.Box.{
  Mailbox, inbox_of, list_or_nil, drop_oldest, enforce_capacity, consume, consume_all,
}
use mega_deepagents.Mailbox.Deliver.{deliver}
use mega_deepagents.Mailbox.History.{addressed, arrived}

pub get_elem?-past : (ms : List Message) → get_elem? ms (length ms) ≡ none
get_elem?-past [] = refl
get_elem?-past (m ∷ ms) = get_elem?-past ms

get_elem?-new : (ms : List Message) (m : Message) → get_elem? (ms ++ m ∷ []) (length ms) ≡ some m
get_elem?-new [] m = refl
get_elem?-new (m' ∷ ms) m = get_elem?-new ms m

length-consume : (now i : ℕ) (ms : List Message) → length (consume now ms i) ≡ length ms
unfolding consume
length-consume now i [] = refl
length-consume now zero (m ∷ ms) = refl
length-consume now (suc i) (m ∷ ms) = ap suc (length-consume now i ms)

pub length-consume_all :
    (now : ℕ) (is : List ℕ) (ms : List Message) → length (consume_all now ms is) ≡ length ms
unfolding consume_all
length-consume_all now [] ms = refl
length-consume_all now (i ∷ is) ms =
    length-consume_all now is (consume now ms i) ∙ length-consume now i ms

pub take-drop : (n : ℕ) (xs : List ℕ) → take n xs ++ drop n xs ≡ xs
take-drop zero xs = refl
take-drop (suc n) [] = refl
take-drop (suc n) (x ∷ xs) = ap (λ ys. x ∷ ys) (take-drop n xs)

pub append-nil : (xs : List ℕ) → xs ++ [] ≡ xs
append-nil [] = refl
append-nil (x ∷ xs) = ap (λ ys. x ∷ ys) (append-nil xs)

pub append_assoc : (xs ys zs : List ℕ) → (xs ++ ys) ++ zs ≡ xs ++ (ys ++ zs)
append_assoc [] ys zs = refl
append_assoc (x ∷ xs) ys zs = ap (λ ws. x ∷ ws) (append_assoc xs ys zs)

drop_oldest-room : (n : ℕ) (xs : List ℕ) → length xs < n → drop_oldest n xs ≡ some xs
unfolding drop_oldest
drop_oldest-room n [] h = ground arith
drop_oldest-room n (x ∷ xs) h = ground arith

-- One step of an inbox that nothing is dropped from.
abbrev pub Queues : String → Mailbox → List ℕ → Mailbox → Type 0
Queues a mb out mb' =
    (out ++ inbox_of (some a) mb' ≡ inbox_of (some a) mb ++ arrived a mb mb')
    × (mb'.capacity ≡ mb.capacity)

-- A call that touches neither the heap nor the inboxes.
pub quiet :
    (a : String) (mb mb' : Mailbox)
    → mb'.heap ≡ mb.heap
    → mb'.inboxes ≡ mb.inboxes
    → mb'.capacity ≡ mb.capacity
    → Queues a mb [] mb'
unfolding arrived
quiet a mb mb' e f g = (
  ap (λ d. list_or_nil (lookup (some a) d)) f
      ∙ sym (append-nil (inbox_of (some a) mb))
      ∙ ap (λ xs. inbox_of (some a) mb ++ xs)
          (sym (
            ap (λ h. addressed a (length mb.heap) (get_elem? h (length mb.heap))) e
            ∙ ap (addressed a (length mb.heap)) (get_elem?-past mb.heap))),
  g,
)

pub drop_oldest_bound :
    (n : ℕ) (xs : List ℕ) → 0 < n → (ys : List ℕ) × (drop_oldest n xs ≡ some ys) × (length ys < n)
unfolding drop_oldest
drop_oldest_bound n [] h = ([], ground arith, omega arith)
drop_oldest_bound n (x ∷ xs) h =
    let (ys, e, lt) = drop_oldest_bound n xs h in
    elim (Bool-cases (leb n (suc (length xs)))) [
      | inl full ↦ (ys, rw full e, lt)
      | inr free ↦ (x ∷ xs, rw free refl, ground arith)
    ]

pub inbox-insert :
    (a : String) (to : Option String) (xs : List ℕ) (d : Dict (Option String) (List ℕ))
    → list_or_nil (lookup (some a) (insert to xs d))
      ≡ (if some a == to then xs else list_or_nil (lookup (some a) d))
inbox-insert a to xs d = elim (Bool-cases (some a == to)) [
  | inl e ↦ rw (lookup-insert (some a) to xs d, e) refl
  | inr e ↦ rw (lookup-insert (some a) to xs d, e) refl
]

module _ (a : String) (mb : Mailbox) (m : Message) where
  no_news : (mb : Mailbox) → addressed a (length mb.heap) (get_elem? mb.heap (length mb.heap)) ≡ []
  no_news mb = ap (addressed a (length mb.heap)) (get_elem?-past mb.heap)

  abbrev i : ℕ
  i = length mb.heap

  -- The mailbox after a delivery into the inbox that has had room made in it.
  abbrev delivered : List ℕ → Mailbox
  delivered inbox = (deliver mb m (some inbox)).0

  arrived-delivered :
      (inbox : List ℕ)
      → arrived a mb (delivered inbox) ≡ (if some a == m.to_agent_id then i ∷ [] else [])
  unfolding arrived
  arrived-delivered inbox = ap (addressed a (length mb.heap)) (get_elem?-new mb.heap m)

  inbox-delivered :
      (inbox : List ℕ)
      → inbox_of (some a) (delivered inbox)
        ≡ (if some a == m.to_agent_id then inbox ++ i ∷ [] else inbox_of (some a) mb)
  inbox-delivered inbox = inbox-insert a m.to_agent_id (inbox ++ i ∷ []) mb.inboxes

  deliver_other :
      (some a == m.to_agent_id) ≡ false → (o : Option (List ℕ)) → Queues a mb [] (deliver mb m o).0
  unfolding arrived
  deliver_other other none = (
    (let stays : list_or_nil (lookup (some a) (insert m.to_agent_id [] mb.inboxes))
              ≡ inbox_of (some a) mb =
            inbox-insert a m.to_agent_id [] mb.inboxes ∙ rw other refl in
          stays)
        ∙ sym (append-nil (inbox_of (some a) mb))
        ∙ ap (λ xs. inbox_of (some a) mb ++ xs) (sym (no_news mb)),
    refl,
  )
  deliver_other other (some inbox) = (
    (let stays : inbox_of (some a) (delivered inbox) ≡ inbox_of (some a) mb =
          inbox-delivered inbox ∙ rw other refl in
        let none_new : arrived a mb (delivered inbox) ≡ [] =
          arrived-delivered inbox ∙ rw other refl in
        stays
        ∙ sym (append-nil (inbox_of (some a) mb))
        ∙ ap (λ xs. inbox_of (some a) mb ++ xs) (sym none_new)),
    refl,
  )

  enforce-room :
      some a ≡ m.to_agent_id
      → length (inbox_of (some a) mb) < mb.capacity
      → enforce_capacity mb m.to_agent_id ≡ some (inbox_of m.to_agent_id mb)
  unfolding enforce_capacity
  enforce-room p lt =
      subst (λ to. enforce_capacity mb to ≡ some (inbox_of to mb)) p
        (drop_oldest-room mb.capacity (inbox_of (some a) mb) lt)

  -- A delivery into an inbox with a free place appends to it.
  deliver_same :
      some a ≡ m.to_agent_id
      → length (inbox_of (some a) mb) < mb.capacity
      → Queues a mb [] (deliver mb m (enforce_capacity mb m.to_agent_id)).0
  deliver_same p lt =
      let same = subst (λ to. (some a == to) ≡ true) p (eq_self (some a)) in
      let inbox = inbox_of m.to_agent_id mb in
      let grows : inbox_of (some a) (delivered inbox) ≡ inbox ++ i ∷ [] =
        inbox-delivered inbox ∙ rw same refl in
      let new : arrived a mb (delivered inbox) ≡ i ∷ [] = arrived-delivered inbox ∙ rw same refl in
      subst (λ o. Queues a mb [] (deliver mb m o).0) (sym (enforce-room p lt))
        (
          grows
              ∙ ap (λ to. inbox_of to mb ++ i ∷ []) (sym p)
              ∙ ap (λ xs. inbox_of (some a) mb ++ xs) (sym new),
          refl,
        )

  -- A delivery to the agent always arrives, when the capacity is not 0.
  arrives :
      some a ≡ m.to_agent_id
      → 0 < mb.capacity
      → length (arrived a mb (deliver mb m (enforce_capacity mb m.to_agent_id)).0) ≡ 1
  unfolding enforce_capacity
  arrives p pos =
      let same = subst (λ to. (some a == to) ≡ true) p (eq_self (some a)) in
      let (ys, e, lt) = drop_oldest_bound mb.capacity (inbox_of (some a) mb) pos in
      let e' = subst (λ to. enforce_capacity mb to ≡ some ys) p e in
      let new : arrived a mb (delivered ys) ≡ i ∷ [] = arrived-delivered ys ∙ rw same refl in
      subst (λ o. length (arrived a mb (deliver mb m o).0) ≡ 1) (sym e')
        (ap (λ (xs : List ℕ). length xs) new)

  pub deliver-Queues :
      0 < mb.capacity
      → length (inbox_of (some a) mb)
          + length (arrived a mb (deliver mb m (enforce_capacity mb m.to_agent_id)).0)
        ≤ mb.capacity
      → Queues a mb [] (deliver mb m (enforce_capacity mb m.to_agent_id)).0
  deliver-Queues pos room = elim (Bool-cases (some a == m.to_agent_id)) [
    | inl e ↦
        let p = eq→path (some a) m.to_agent_id e in deliver_same p (omega (arith, arrives p pos))
    | inr e ↦ deliver_other e (enforce_capacity mb m.to_agent_id)
  ]
