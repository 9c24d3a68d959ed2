-- ===== src/LifecycleHooks/Asking.antt =====
-- app/multiagent/lifecycle_hooks.py: who is asked, in which order, and what is decided.
use mathlib.Core.List.{Perm}
use mega_deepagents.Base.{
  String, Bool, true, false, not, ◌&&◌, ◌||◌, Option, some, List, [], ◌∷◌, ◌++◌, map, keep, any,
  ◌≡◌, ◌⊎◌, refl, sym, ◌∙◌, ap, subst, inl, inr, arith, Bool-cases, ◌==◌, string_eq,
}
use mega_deepagents.LifecycleHooks.Engine.{
  LifecycleEvent, HookResult, default_result, Hook, HookEngine,
}
use mega_deepagents.LifecycleHooks.Sorting.{AreInOrder, sort_hooks-perm, sort_hooks-AreInOrder}
use mega_deepagents.LifecycleHooks.Emission.{
  insert_hook, sort_hooks, is_for, hooks_for, Answers, result_of, combine, ask_hooks, turn, Asked,
  emit, HistoryEvent, audit_rows,
}

-- A caller goes on only where the result allows and does not block.
abbrev pub refuses : HookResult → Bool
refuses r = r.block || not r.allow

abbrev pub hook_refuses : Answers → Hook → Bool
hook_refuses answers h = refuses (result_of h (answers h))

combine-refuses : (c r : HookResult) → refuses (combine c r) ≡ (refuses c || refuses r)
unfolding combine
combine-refuses c r = ground arith

-- One turn of the loop, where what the rest of it refuses is known if the turn goes on.
turn-refuses :
    (combined : HookResult) (asked : Hook × HookResult) (rest : Asked) (later : Bool)
    → refuses rest.0 ≡ (refuses combined || later)
    → refuses (turn combined asked rest).0 ≡ (refuses combined || later)
turn-refuses combined asked rest later f = elim (Bool-cases combined.block) [
  | inl stops ↦ ground arith
  | inr goes ↦ ground (arith, f)
]

ask_hooks-refuses :
    (answers : Answers) (c : HookResult) (hs : List Hook)
    → refuses (ask_hooks answers c hs).0 ≡ (refuses c || any (hook_refuses answers) hs)
unfolding ask_hooks
ask_hooks-refuses answers c [] = ground arith
ask_hooks-refuses answers c (h ∷ hs) =
    let r = result_of h (answers h) in
    turn-refuses (combine c r) (h, r) (ask_hooks answers (combine c r) hs)
      (any (hook_refuses answers) hs) (ask_hooks-refuses answers (combine c r) hs)
    ∙ ground (arith, combine-refuses c r)

any-insert_hook :
    (p : Hook → Bool) (h : Hook) (hs : List Hook) → any p (insert_hook h hs) ≡ (p h || any p hs)
unfolding insert_hook
any-insert_hook p h [] = refl
any-insert_hook p h (k ∷ ks) = ground (arith, any-insert_hook p h ks)

any-sort_hooks : (p : Hook → Bool) (hs : List Hook) → any p (sort_hooks hs) ≡ any p hs
unfolding sort_hooks
any-sort_hooks p [] = refl
any-sort_hooks p (h ∷ hs) = ground (arith, any-insert_hook p h (sort_hooks hs), any-sort_hooks p hs)

any-keep : (p q : Hook → Bool) (hs : List Hook) → any p (keep q hs) ≡ any (λ h. q h && p h) hs
any-keep p q [] = refl
any-keep p q (h ∷ hs) = ground (arith, any-keep p q hs)

-- The combined result of an emission blocks or does not allow exactly if one of the hooks that are
-- registered for the event blocks or does not allow, or fails under the policy to block; in whatever
-- order they were registered.
pub emit-refuses :
    (engine : HookEngine) (history : List HistoryEvent) (event : LifecycleEvent)
    (run_id : Option String) (answers : Answers)
    → refuses (emit engine history event run_id answers).0
      ≡ any (λ h. is_for event h && hook_refuses answers h) engine
unfolding emit hooks_for
emit-refuses engine history event run_id answers =
    ask_hooks-refuses answers default_result (hooks_for event engine)
    ∙ any-sort_hooks (hook_refuses answers) (keep (is_for event) engine)
    ∙ any-keep (hook_refuses answers) (is_for event) engine

-- None but the last of the hooks blocks.
abbrev pub BlocksAtLast : Answers → List Hook → Type 0
BlocksAtLast answers [] = Unit
BlocksAtLast answers (h ∷ []) = Unit
BlocksAtLast answers (h ∷ k ∷ hs) =
    ((result_of h (answers h)).block ≡ false) × BlocksAtLast answers (k ∷ hs)

BlocksAtLast-cons :
    (answers : Answers) (h : Hook) (hs : List Hook)
    → (result_of h (answers h)).block ≡ false
    → BlocksAtLast answers hs
    → BlocksAtLast answers (h ∷ hs)
BlocksAtLast-cons answers h [] goes l = tt
BlocksAtLast-cons answers h (k ∷ hs) goes l = (goes, l)

-- The hooks that a loop asks are the first ones, with their answers; it stops early where one blocks.
pub record Asks (answers : Answers) (hs : List Hook) (outcome : Asked) : Type 0 where
  pub asked : List Hook
  pub unasked : List Hook
  pub first : asked ++ unasked ≡ hs
  pub results :
      outcome.1 ≡ map (λ h. let r : Hook × HookResult = (h, result_of h (answers h)) in r) asked
  pub stops : (unasked ≡ []) ⊎ (outcome.0.block ≡ true)
  pub last : BlocksAtLast answers asked

turn-Asks :
    (answers : Answers) (combined : HookResult) (h : Hook) (hs : List Hook) (rest : Asked)
    → ((result_of h (answers h)).block ≡ true → combined.block ≡ true)
    → Asks answers hs rest
    → Asks answers (h ∷ hs) (turn combined (h, result_of h (answers h)) rest)
turn-Asks answers combined h hs rest blocks a = elim (Bool-cases combined.block) [
  | inl stops ↦ rw stops (record {
    asked = h ∷ [];
    unasked = hs;
    first = refl;
    results = refl;
    stops = inr refl;
    last = tt;
  })
  | inr goes ↦ rw goes (record {
    asked = h ∷ a.asked;
    unasked = a.unasked;
    first = ap (λ xs. h ∷ xs) a.first;
    results = ap (λ xs. (h, result_of h (answers h)) ∷ xs) a.results;
    stops = a.stops;
    last = BlocksAtLast-cons answers h a.asked (ground (arith, blocks)) a.last;
  })
]

combine-blocks : (c r : HookResult) → r.block ≡ true → (combine c r).block ≡ true
unfolding combine
combine-blocks c r h = ground arith

ask_hooks-Asks :
    (answers : Answers) (c : HookResult) (hs : List Hook) → Asks answers hs (ask_hooks answers c hs)
unfolding ask_hooks
ask_hooks-Asks answers c [] = record {
  asked = [];
  unasked = [];
  first = refl;
  results = refl;
  stops = inl refl;
  last = tt;
}
ask_hooks-Asks answers c (h ∷ hs) =
    turn-Asks answers (combine c (result_of h (answers h))) h hs _
      (combine-blocks c (result_of h (answers h)))
      (ask_hooks-Asks answers (combine c (result_of h (answers h))) hs)

-- The rows that an emission writes about the hooks that it asked.
abbrev pub hook_rows : String → LifecycleEvent → Answers → List Hook → List HistoryEvent
hook_rows run_id event answers asked =
    map (λ h. HistoryEvent.lifecycle_hook run_id event h.hook_id (result_of h (answers h))) asked

audit_rows-asked :
    (run_id : String) (event : LifecycleEvent) (answers : Answers) (asked : List Hook)
    → (run_id == "") ≡ false
    → audit_rows
        (some run_id)
        event
        (map (λ h. let r : Hook × HookResult = (h, result_of h (answers h)) in r) asked)
      ≡ HistoryEvent.lifecycle run_id event ∷ hook_rows run_id event answers asked
audit_rows-asked run_id event answers asked named =
    rw named (ap (λ rows. HistoryEvent.lifecycle run_id event ∷ rows) (map-both asked))
  where
    map-both :
        (hs : List Hook)
        → map
            (λ (a : Hook × HookResult). HistoryEvent.lifecycle_hook run_id event a.0.hook_id a.1)
            (map (λ h. let r : Hook × HookResult = (h, result_of h (answers h)) in r) hs)
          ≡ hook_rows run_id event answers hs
    map-both [] = refl
    map-both (h ∷ hs) =
        ap
          (λ rows.
            HistoryEvent.lifecycle_hook run_id event h.hook_id (result_of h (answers h)) ∷ rows)
          (map-both hs)

-- An emission for a run writes the event, and then a row with its answer for each hook that it asks.
-- Those and the ones that it does not ask are the hooks that are registered for the event, each as
-- often as it is; in that order their scopes go from system over user to project, and in one scope
-- their priorities do not rise. None but the last of those that are asked blocks, and all are asked,
-- or the combined result blocks.
pub emit-asks :
    (engine : HookEngine) (history : List HistoryEvent) (event : LifecycleEvent) (run_id : String)
    (answers : Answers)
    → (run_id == "") ≡ false
    → (asked : List Hook) × (unasked : List Hook) × ((emit engine history event
          (some run_id)
          answers).1
        ≡ history ++ HistoryEvent.lifecycle run_id event ∷ hook_rows run_id event answers asked)
      × Perm (asked ++ unasked) (keep (is_for event) engine)
      × AreInOrder (asked ++ unasked)
      × BlocksAtLast answers asked
      × ((unasked ≡ []) ⊎ ((emit engine history event (some run_id) answers).0.block ≡ true))
unfolding emit hooks_for
emit-asks engine history event run_id answers named =
    let hs = keep (is_for event) engine in
    let a = ask_hooks-Asks answers default_result (sort_hooks hs) in
    (
      a.asked,
      a.unasked,
      ap (λ rows. history ++ rows)
          (ap (audit_rows (some run_id) event) a.results
            ∙ audit_rows-asked run_id event answers a.asked named),
      subst (λ xs. Perm xs hs) (sym a.first) (sort_hooks-perm hs),
      subst AreInOrder (sym a.first) (sort_hooks-AreInOrder hs),
      a.last,
      a.stops,
    )
