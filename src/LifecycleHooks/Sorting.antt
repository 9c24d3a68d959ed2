-- ===== src/LifecycleHooks/Sorting.antt =====
-- app/multiagent/lifecycle_hooks.py: hooks are asked in the order of their scopes.
use mathlib.Core.List.Perm
use mathlib.Core.List.{Perm}
use mega_deepagents.Base.{
  ℕ, Bool, true, false, not, ◌&&◌, ◌||◌, List, [], ◌∷◌, ◌≡◌, ◌⊎◌, ◌<◌, refl, ◌∙◌, inl, inr, arith,
  All, Bool-cases, ◌<◌, ltb, eqb, ltb→lt, All-map,
}
use mega_deepagents.TaskGraph.Ready.{name_lt}
use mega_deepagents.LifecycleHooks.Engine.{ℤ, int_ltb, Hook}
use mega_deepagents.LifecycleHooks.Emission.{scope_order, is_before, insert_hook, sort_hooks}

-- The hook of lower scope comes first; among those of one scope, that of higher priority.
abbrev pub InOrder : Hook → Hook → Type 0
InOrder a b =
    (scope_order a.scope < scope_order b.scope)
    ⊎ ((scope_order a.scope ≡ scope_order b.scope) × (int_ltb a.priority b.priority ≡ false))

abbrev pub AreInOrder : List Hook → Type 0
AreInOrder [] = Unit
AreInOrder (h ∷ hs) = All (InOrder h) hs × AreInOrder hs

int_ltb_trans : (a b c : ℤ) → int_ltb a b ≡ false → int_ltb b c ≡ false → int_ltb a c ≡ false
int_ltb_trans (ℤ.pos a) (ℤ.pos b) (ℤ.pos c) h k = ground arith
int_ltb_trans (ℤ.pos a) (ℤ.pos b) (ℤ.negsuc c) h k = refl
int_ltb_trans (ℤ.pos a) (ℤ.negsuc b) (ℤ.pos c) h k = cc k
int_ltb_trans (ℤ.pos a) (ℤ.negsuc b) (ℤ.negsuc c) h k = refl
int_ltb_trans (ℤ.negsuc a) (ℤ.pos b) c h k = cc h
int_ltb_trans (ℤ.negsuc a) (ℤ.negsuc b) (ℤ.pos c) h k = cc k
int_ltb_trans (ℤ.negsuc a) (ℤ.negsuc b) (ℤ.negsuc c) h k = ground arith

int_ltb-asym : (a b : ℤ) → int_ltb a b ≡ true → int_ltb b a ≡ false
int_ltb-asym (ℤ.pos a) (ℤ.pos b) h = ground arith
int_ltb-asym (ℤ.pos a) (ℤ.negsuc b) h = cc h
int_ltb-asym (ℤ.negsuc a) (ℤ.pos b) h = refl
int_ltb-asym (ℤ.negsuc a) (ℤ.negsuc b) h = ground arith

InOrder-trans : (a b c : Hook) → InOrder a b → InOrder b c → InOrder a c
InOrder-trans a b c (inl h) (inl k) = inl (omega arith)
InOrder-trans a b c (inl h) (inr k) = inl (omega (arith, k.0))
InOrder-trans a b c (inr h) (inl k) = inl (omega (arith, h.0))
InOrder-trans a b c (inr h) (inr k) =
    inr (h.0 ∙ k.0, int_ltb_trans a.priority b.priority c.priority h.1 k.1)

before-cases :
    (i j : ℕ) (x y z : Bool)
    → (x ≡ true → y ≡ false)
    → (ltb i j || (eqb i j && (x || (not y && z)))) ≡ true
    → (i < j) ⊎ ((i ≡ j) × (y ≡ false))
before-cases i j x true z f h = elim (Bool-cases (ltb i j)) [
  | inl less ↦ inl (ltb→lt i j less)
  | inr more ↦ ground (arith, f)
]
before-cases i j x false z f h = elim (Bool-cases (ltb i j)) [
  | inl less ↦ inl (ltb→lt i j less)
  | inr more ↦ inr (ground arith, refl)
]

after-cases :
    (i j : ℕ) (x y z : Bool)
    → (ltb i j || (eqb i j && (x || (not y && z)))) ≡ false
    → (j < i) ⊎ ((j ≡ i) × (x ≡ false))
after-cases i j true y z h = inl (ground arith)
after-cases i j false y z h = elim (Bool-cases (eqb i j)) [
  | inl same ↦ inr (ground arith, refl)
  | inr other ↦ inl (ground arith)
]

is_before-InOrder : (a b : Hook) → is_before a b ≡ true → InOrder a b
is_before-InOrder a b h =
    before-cases (scope_order a.scope) (scope_order b.scope) (int_ltb b.priority a.priority)
      (int_ltb a.priority b.priority) (name_lt a.hook_id b.hook_id)
      (int_ltb-asym b.priority a.priority) h

not-is_before-InOrder : (a b : Hook) → is_before a b ≡ false → InOrder b a
not-is_before-InOrder a b h =
    after-cases (scope_order a.scope) (scope_order b.scope) (int_ltb b.priority a.priority)
      (int_ltb a.priority b.priority) (name_lt a.hook_id b.hook_id) h

insert_hook-perm : (h : Hook) (hs : List Hook) → Perm (insert_hook h hs) (h ∷ hs)
unfolding insert_hook
insert_hook-perm h [] = Perm.rfl
insert_hook-perm h (k ∷ ks) = elim (Bool-cases (is_before k h)) [
  | inl e ↦ rw e (Perm.trans (Perm.cons k (insert_hook-perm h ks)) (Perm.swap h k ks))
  | inr e ↦ rw e Perm.rfl
]

pub sort_hooks-perm : (hs : List Hook) → Perm (sort_hooks hs) hs
unfolding sort_hooks
sort_hooks-perm [] = Perm.rfl
sort_hooks-perm (h ∷ hs) =
    Perm.trans (insert_hook-perm h (sort_hooks hs)) (Perm.cons h (sort_hooks-perm hs))

All-insert_hook :
    (P : Hook → Type 0) (h : Hook) (hs : List Hook) → P h → All P hs → All P (insert_hook h hs)
unfolding insert_hook
All-insert_hook P h [] p q = (p, tt)
All-insert_hook P h (k ∷ ks) p q = elim (Bool-cases (is_before k h)) [
  | inl e ↦ rw e (q.0, All-insert_hook P h ks p q.1)
  | inr e ↦ rw e (p, q)
]

insert_hook-AreInOrder : (h : Hook) (hs : List Hook) → AreInOrder hs → AreInOrder (insert_hook h hs)
unfolding insert_hook
insert_hook-AreInOrder h [] q = (tt, tt)
insert_hook-AreInOrder h (k ∷ ks) q = elim (Bool-cases (is_before k h)) [
  | inl e ↦ rw e (
    All-insert_hook (InOrder k) h ks (is_before-InOrder k h e) q.0,
    insert_hook-AreInOrder h ks q.1,
  )
  | inr e ↦
      let first = not-is_before-InOrder k h e in
      rw e ((first, All-map ks (λ x p. InOrder-trans h k x first p) q.0), q)
]

pub sort_hooks-AreInOrder : (hs : List Hook) → AreInOrder (sort_hooks hs)
unfolding sort_hooks
sort_hooks-AreInOrder [] = tt
sort_hooks-AreInOrder (h ∷ hs) = insert_hook-AreInOrder h (sort_hooks hs) (sort_hooks-AreInOrder hs)
