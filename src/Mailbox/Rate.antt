-- ===== src/Mailbox/Rate.antt =====
-- app/multiagent/mailbox.py: `_rate_check` bounds what one sender gets through in any sixty seconds.
use mega_deepagents.Base.{
  ℕ, ◌+◌, ◌≤◌, ◌<◌, Bool, true, false, ◌&&◌, List, [], ◌∷◌, ◌++◌, ◌≡◌, arith, leb, length, keep,
  length-append, All, Bool-cases, inl, inr, refl, subst, sym, leb→le,
}
use mega_deepagents.Mailbox.Box.{rate_step, prune}

abbrev accept_if : ℕ → Bool → List ℕ → List ℕ
accept_if now true ts = now ∷ ts
accept_if now false ts = ts

-- The times, among those at which a sender asks, at which `_rate_check` answers True.
unfoldable pub accepted : ℕ → List ℕ → List ℕ → List ℕ
unfolding rate_step
accepted limit history [] = []
accepted limit history (now ∷ ts) =
    let (history', passed) = rate_step limit now history in
    accept_if now passed (accepted limit history' ts)

-- The clock does not run backwards.
abbrev pub IsFrom : ℕ → List ℕ → Type 0
IsFrom now [] = Unit
IsFrom now (t ∷ ts) = (now ≤ t) × IsFrom t ts

-- `x` is in the sixty seconds that end at `t`.
abbrev pub in_window : ℕ → ℕ → Bool
in_window t x = leb x t && leb t (x + 60000)

abbrev pub count : ℕ → List ℕ → ℕ
count t xs = length (keep (in_window t) xs)

count-le : (t : ℕ) (xs : List ℕ) → count t xs ≤ length xs
count-le t [] = omega arith
count-le t (x ∷ xs) = ground (arith, count-le t xs)

count-append : (t : ℕ) (xs ys : List ℕ) → count t (xs ++ ys) ≡ count t xs + count t ys
count-append t [] ys = omega arith
count-append t (x ∷ xs) ys = ground (arith, count-append t xs ys)

count-late : (t : ℕ) (xs : List ℕ) → All (λ x. t < x) xs → count t xs ≡ 0
count-late t [] h = refl
count-late t (x ∷ xs) h = ground (arith, count-late t xs)

count-prune : (t now : ℕ) (xs : List ℕ) → now ≤ t → count t xs ≡ count t (prune now xs)
unfolding prune
count-prune t now [] h = refl
count-prune t now (x ∷ xs) h = ground (arith, count-prune t now xs)

length-prune : (now : ℕ) (xs : List ℕ) → length (prune now xs) ≤ length xs
unfolding prune
length-prune now [] = omega arith
length-prune now (x ∷ xs) = ground (arith, length-prune now xs)

-- What a sender gets through comes no earlier than it asked.
accepted-late :
    (limit now t : ℕ) (history ts : List ℕ)
    → t < now
    → IsFrom now ts
    → All (λ x. t < x) (accepted limit history ts)
unfolding accepted
accepted-late limit now t history [] lt h = tt
accepted-late limit now t history (u ∷ ts) lt h = elim (Bool-cases (rate_step limit u history).1) [
  | inl e ↦ rw e (omega arith, accepted-late limit u t _ ts (omega arith) h.1)
  | inr e ↦ rw e (accepted-late limit u t _ ts (omega arith) h.1)
]

length-rate_step :
    (limit now : ℕ) (history : List ℕ)
    → length history ≤ limit
    → length (rate_step limit now history).0 ≤ limit
unfolding rate_step
length-rate_step limit now history h =
    ground (arith, length-prune now history, length-append (prune now history) (now ∷ []))

-- One step moves what it lets through from the future to the history.
count-rate_step :
    (limit now t : ℕ) (history rest : List ℕ)
    → now ≤ t
    → count t (history ++ accept_if now (rate_step limit now history).1 rest)
      ≡ count t ((rate_step limit now history).0 ++ rest)
unfolding rate_step
count-rate_step limit now t history rest h =
    elim (Bool-cases (leb limit (length (prune now history)))) [
      | inl e ↦ rw e omega (
        arith,
        count-append t history rest,
        count-append t (prune now history) rest,
        count-prune t now history h,
      )
      | inr e ↦ rw e omega (
        arith,
        count-append t history (now ∷ rest),
        count-append t (now ∷ []) rest,
        count-append t (prune now history) (now ∷ [] ++ rest),
        count-append t (prune now history ++ now ∷ []) rest,
        count-append t (prune now history) (now ∷ []),
        count-prune t now history h,
      )
    ]

count-accepted :
    (limit t start : ℕ) (history ts : List ℕ)
    → length history ≤ limit
    → IsFrom start ts
    → count t (history ++ accepted limit history ts) ≤ limit
unfolding accepted
count-accepted limit t start history [] h from =
    omega (arith, count-append t history [], count-le t history)
count-accepted limit t start history (now ∷ ts) h from = elim (Bool-cases (leb now t)) [
  | inl e ↦
      subst (λ (n : ℕ). n ≤ limit)
        (sym (
          count-rate_step limit now t history (accepted limit (rate_step limit now history).0 ts)
            (leb→le now t e)))
        (count-accepted limit t now (rate_step limit now history).0 ts
          (length-rate_step limit now history h) from.1)
  | inr e ↦ omega (
    arith,
    count-append t history (accepted limit history (now ∷ ts)),
    count-late t (accepted limit history (now ∷ ts))
        (accepted-late limit now t history (now ∷ ts) (ground arith) (omega arith, from.1)),
    count-le t history,
  )
]

-- If the checks of one sender are made one after another, on a clock that does not run backwards,
-- then however often it asks, the rate check lets at most the limit through within any sixty
-- seconds.
pub rate_bound :
    (limit t start : ℕ) (ts : List ℕ) → IsFrom start ts → count t (accepted limit [] ts) ≤ limit
rate_bound limit t start ts from = count-accepted limit t start [] ts (omega arith) from
