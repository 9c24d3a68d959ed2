-- ===== src/Mailbox/Restore.antt =====
-- app/multiagent/mailbox.py: `restore` after `snapshot`.
use mega_deepagents.Base.{
  ℕ, suc, String, Option, none, some, List, [], ◌∷◌, ◌++◌, ◌≡◌, ◌∙◌, sym, refl, arith, length,
  length-append, get_elem?, ◌==◌, string_eq, option_eq, eq→path, subst, Bool-cases, Option-cases,
  inl, inr,
}
use mathlib.Core.Option.{some-injective}
use mathlib.Core.List.{append_assoc, append-nil}
use mega_deepagents.Base.Dict.{Dict, lookup, lookup-insert, lookup-nil, insert, NodupKeys}
use mega_deepagents.Mailbox.Message.{Message}
use mega_deepagents.Mailbox.Box.{Mailbox, inbox_of, list_or_nil, read_all}
use mega_deepagents.Mailbox.Deliver.{read_at, get_message}
use mega_deepagents.Mailbox.Snapshot.{
  snapshot, restore, dump_inboxes, dump_all, places, load_inboxes, load_all,
}

get_elem?-at :
    (hs : List Message) (m : Message) (more : List Message)
    → get_elem? (hs ++ m ∷ more) (length hs) ≡ some m
get_elem?-at [] m more = refl
get_elem?-at (h ∷ hs) m more = get_elem?-at hs m more

-- The objects that were appended to a heap are read at their places.
read_all-places :
    (hs ms more : List Message)
    → read_all (hs ++ (ms ++ more)) (places (length hs) (length ms)) ≡ ms
unfolding read_all places
read_all-places hs [] more = refl
read_all-places hs (m ∷ ms) more =
    let next : read_all (hs ++ m ∷ (ms ++ more)) (places (suc (length hs)) (length ms)) ≡ ms =
      subst (λ (x : List Message × ℕ). read_all x.0 (places x.1 (length ms)) ≡ ms)
        (λ i. (append_assoc hs (m ∷ []) (ms ++ more) i, grown i))
        (read_all-places (hs ++ m ∷ []) ms more) in
    ground (arith, get_elem?-at hs m (ms ++ more), next)
  where
    grown : length (hs ++ m ∷ []) ≡ suc (length hs)
    grown = omega (arith, length-append hs (m ∷ []))

abbrev read_some : List Message → Option (List ℕ) → Option (List Message)
read_some heap none = none
read_some heap (some is) = some (read_all heap is)

lookup-dump_inboxes :
    (heap : List Message) (k : Option String) (d : Dict (Option String) (List ℕ))
    → lookup k (dump_inboxes heap d) ≡ read_some heap (lookup k d)
unfolding dump_inboxes lookup
lookup-dump_inboxes heap k [] = refl
lookup-dump_inboxes heap k ((to, is) ∷ d) = ground (arith, lookup-dump_inboxes heap k d)

NodupKeys-dump_inboxes :
    (heap : List Message) (d : Dict (Option String) (List ℕ))
    → NodupKeys d
    → NodupKeys (dump_inboxes heap d)
unfolding dump_inboxes
NodupKeys-dump_inboxes heap [] h = tt
NodupKeys-dump_inboxes heap ((to, is) ∷ d) h =
    (rw (lookup-dump_inboxes heap to d, h.0), NodupKeys-dump_inboxes heap d h.1)

-- The heap grows at its end only.
load_inboxes-grows :
    (es : Dict (Option String) (List Message)) (heap : List Message)
    (d : Dict (Option String) (List ℕ))
    → (t : List Message) × ((load_inboxes es heap d).0 ≡ heap ++ t)
unfolding load_inboxes
load_inboxes-grows [] heap d = ([], sym (append-nil heap))
load_inboxes-grows ((to, ms) ∷ es) heap d =
    let (t, e) =
      load_inboxes-grows es (heap ++ ms) (insert to (places (length heap) (length ms)) d) in
    (ms ++ t, e ∙ append_assoc heap ms t)

lookup-load_inboxes_absent :
    (k : Option String) (es : Dict (Option String) (List Message)) (heap : List Message)
    (d : Dict (Option String) (List ℕ))
    → lookup k es ≡ none
    → lookup k (load_inboxes es heap d).1 ≡ lookup k d
unfolding load_inboxes lookup
lookup-load_inboxes_absent k [] heap d h = refl
lookup-load_inboxes_absent k ((to, ms) ∷ es) heap d h =
    let slots = places (length heap) (length ms) in
    ground (
      arith,
      lookup-load_inboxes_absent k es (heap ++ ms) (insert to slots d),
      lookup-insert k to slots d,
    )

-- What was just appended is still read when the heap has grown.
read_all-grown :
    (heap ms t more full : List Message)
    → full ≡ (heap ++ ms) ++ t
    → read_all (full ++ more) (places (length heap) (length ms)) ≡ ms
read_all-grown heap ms t more full e =
    rw (e, append_assoc (heap ++ ms) t more, append_assoc heap ms (t ++ more))
      (read_all-places heap ms (t ++ more))

read_all-load_inboxes :
    (k : Option String) (ms : List Message) (es : Dict (Option String) (List Message))
    (heap more : List Message) (d : Dict (Option String) (List ℕ))
    → NodupKeys es
    → lookup k es ≡ some ms
    → read_all
        ((load_inboxes es heap d).0 ++ more)
        (list_or_nil (lookup k (load_inboxes es heap d).1))
      ≡ ms
unfolding load_inboxes lookup
read_all-load_inboxes k ms [] heap more d u h = cc (lookup-nil k)
read_all-load_inboxes k ms ((to, ms') ∷ es) heap more d u h = elim (Bool-cases (k == to)) [
  | inl same ↦
      let grows = load_inboxes-grows es (heap ++ ms') (insert to slots d) in
      let absent : lookup k es ≡ none = rw (eq→path k to same) u.0 in
      let found : lookup k (load_inboxes es (heap ++ ms') (insert to slots d)).1 ≡ some slots =
        lookup-load_inboxes_absent k es (heap ++ ms') (insert to slots d) absent
        ∙ lookup-insert k to slots d
        ∙ rw same in
      rw found (
        read_all-grown heap ms' grows.0 more _ grows.1
        ∙ some-injective _ _ (rw (lookup, same) at h))
  | inr other ↦
      read_all-load_inboxes k ms es (heap ++ ms') more (insert to slots d) u.1
        (rw (lookup, other) at h)
]
  where
    slots : List ℕ
    slots = places (length heap) (length ms')

lookup-dump_all :
    (heap : List Message) (id : String) (d : Dict String ℕ)
    → NodupKeys d
    → lookup id (dump_all heap d) ≡ read_at heap (lookup id d)
unfolding dump_all lookup
lookup-dump_all heap id [] u = refl
lookup-dump_all heap id ((j, i) ∷ d) u = elim (Bool-cases (id == j)) [
  | inl same ↦ rw (eq→path id j same) (ground (arith, lookup-dump_all heap j d u.1))
  | inr other ↦ ground (arith, lookup-dump_all heap id d u.1)
]

NodupKeys-dump_all :
    (heap : List Message) (d : Dict String ℕ) → NodupKeys d → NodupKeys (dump_all heap d)
unfolding dump_all
NodupKeys-dump_all heap [] u = tt
NodupKeys-dump_all heap ((j, i) ∷ d) u =
    ground (arith, lookup-dump_all heap j d u.1, NodupKeys-dump_all heap d u.1)

load_all-grows :
    (es : Dict String Message) (heap : List Message) (d : Dict String ℕ)
    → (t : List Message) × ((load_all es heap d).0 ≡ heap ++ t)
unfolding load_all
load_all-grows [] heap d = ([], sym (append-nil heap))
load_all-grows ((id, m) ∷ es) heap d =
    let (t, e) = load_all-grows es (heap ++ m ∷ []) (insert id (length heap) d) in
    (m ∷ t, e ∙ append_assoc heap (m ∷ []) t)

lookup-load_all_absent :
    (k : String) (es : Dict String Message) (heap : List Message) (d : Dict String ℕ)
    → lookup k es ≡ none
    → lookup k (load_all es heap d).1 ≡ lookup k d
unfolding load_all lookup
lookup-load_all_absent k [] heap d h = refl
lookup-load_all_absent k ((id, m) ∷ es) heap d h = ground (
  arith,
  lookup-load_all_absent k es (heap ++ m ∷ []) (insert id (length heap) d),
  lookup-insert k id (length heap) d,
)

-- Each loaded entry is found under its key, and no other key is added.
read_at-load_all :
    (k : String) (es : Dict String Message) (heap : List Message) (d : Dict String ℕ)
    → NodupKeys es
    → lookup k d ≡ none
    → read_at (load_all es heap d).0 (lookup k (load_all es heap d).1) ≡ lookup k es
unfolding load_all lookup
read_at-load_all k [] heap d u fresh = rw fresh refl
read_at-load_all k ((id, m) ∷ es) heap d u fresh = elim (Bool-cases (k == id)) [
  | inl same ↦
      let (t, grows) = load_all-grows es (heap ++ m ∷ []) (insert id (length heap) d) in
      let absent : lookup k es ≡ none = rw (eq→path k id same) u.0 in
      let found =
        lookup-load_all_absent k es (heap ++ m ∷ []) (insert id (length heap) d) absent
        ∙ lookup-insert k id (length heap) d in
      rw (found, same, grows, append_assoc heap (m ∷ []) t) (get_elem?-at heap m t)
  | inr other ↦
      rw (other, lookup)
        (read_at-load_all k es (heap ++ m ∷ []) (insert id (length heap) d) u.1
          (lookup-insert k id (length heap) d ∙ rw other fresh))
]

-- An inbox that was dumped and loaded reads as it did, whatever the heap grew by.
read_all-dumped :
    (heap start more : List Message) (to : Option String) (d : Dict (Option String) (List ℕ))
    → NodupKeys d
    → read_all
        ((load_inboxes (dump_inboxes heap d) start []).0 ++ more)
        (list_or_nil (lookup to (load_inboxes (dump_inboxes heap d) start []).1))
      ≡ read_all heap (list_or_nil (lookup to d))
unfolding read_all
read_all-dumped heap start more to d u = elim (Option-cases (lookup to d)) [
  | inl absent ↦
      let dumped : lookup to (dump_inboxes heap d) ≡ none =
        lookup-dump_inboxes heap to d ∙ rw absent in
      rw
        (absent, lookup-load_inboxes_absent to (dump_inboxes heap d) start [] dumped, lookup-nil to)
        refl
  | inr (is, found) ↦ rw found (
      read_all-load_inboxes to (read_all heap is) (dump_inboxes heap d) start more []
        (NodupKeys-dump_inboxes heap d u) (lookup-dump_inboxes heap to d ∙ rw found))
]

-- If each key of the inboxes and of the index of messages stands once, then whatever a mailbox held
-- before, after restore of another's snapshot every inbox holds the messages that it held there, in
-- their order, every identifier finds the message that it found there, and the same senders are
-- blocked.
pub restore-snapshot :
    (mb other : Mailbox)
    → NodupKeys mb.inboxes
    → NodupKeys mb.all_messages
    → ((to : Option String)
        → read_all (restore other (snapshot mb)).heap (inbox_of to (restore other (snapshot mb)))
          ≡ read_all mb.heap (inbox_of to mb))
      × ((id : String) → get_message (restore other (snapshot mb)) id ≡ get_message mb id)
      × ((restore other (snapshot mb)).blocklist ≡ mb.blocklist)
unfolding restore snapshot get_message
restore-snapshot mb other u v = (
  λ to.
      let start = load_inboxes (dump_inboxes mb.heap mb.inboxes) other.heap [] in
      let (t, grows) = load_all-grows (dump_all mb.heap mb.all_messages) start.0 [] in
      rw grows (read_all-dumped mb.heap other.heap t to mb.inboxes u),
  λ id.
      read_at-load_all id (dump_all mb.heap mb.all_messages)
        (load_inboxes (dump_inboxes mb.heap mb.inboxes) other.heap []).0 []
        (NodupKeys-dump_all mb.heap mb.all_messages v) (lookup-nil id)
      ∙ lookup-dump_all mb.heap id mb.all_messages v,
  refl,
)
