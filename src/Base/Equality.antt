-- ===== src/Base/Equality.antt =====
-- Python's `==` and `in`, for every type whose equality is decided.
use Prim.Native.String.{String}
use mathlib.Core.Path.{◌≡◌, refl, sym, subst, ◌∙◌, ap, ap₂}
use mathlib.Core.Logic.{ite, dite, inl, inr}
use mathlib.Core.Bool.{Bool, true, false, ◌||◌, Bool-discrete}
use mathlib.Core.Option.{Option, none, some, none-ne-some, some-ne-none, some-injective}
use mathlib.Core.List.{List, [], ◌∷◌, ◌++◌}
use native.Mathlib.Omega.{arith}
use mega_deepagents.Base.Tests.{Bool-cases}
use text.Mathlib.Text
use text.Mathlib.TextEquality.{eq_iff}

pub record Eq {ℓ} (A : Type ℓ) : Type ℓ where
  pub dec : Discrete A

module _ {ℓ} {A : Type ℓ} ⦃e : Eq A⦄ where
  infix 50 ◌==◌
  abbrev pub ◌==◌ : A → A → Bool
  a == b = ite (e.dec a b) true false

  -- `a in xs`
  abbrev pub contains : List A → A → Bool
  contains [] a = false
  contains (x ∷ xs) a = a == x || contains xs a

  option_dec : Discrete (Option A)
  option_dec none none = yes refl
  option_dec none (some b) = no (none-ne-some b)
  option_dec (some a) none = no (some-ne-none a)
  option_dec (some a) (some b) =
      dite (e.dec a b) (λ p. yes (ap some p)) (λ n. no (λ p. n (some-injective a b p)))

  instance unfoldable pub option_eq : Eq (Option A)
  unfolding option_dec
  option_eq = record { dec = option_dec }

  pub eq_self : (a : A) → (a == a) ≡ true
  eq_self a = ground arith

  pub eq→path : (a b : A) → (a == b) ≡ true → a ≡ b
  eq→path a b h = ground arith

module _ {ℓ} {A : Type ℓ} ⦃e : Eq A⦄ where
  pub some-eq : (a b : A) → (some a == some b) ≡ (a == b)
  some-eq a b = elim (Bool-cases (a == b)) [
    | inl h ↦
        subst (λ (x : A). (some a == some x) ≡ (a == x)) (eq→path a b h)
          (eq_self (some a) ∙ sym (eq_self a))
    | inr h ↦ elim (Bool-cases (some a == some b)) [
      | inl h' ↦
          let p = some-injective a b (eq→path (some a) (some b) h') in
          h' ∙ sym (subst (λ (x : A). (a == x) ≡ true) p (eq_self a))
      | inr h' ↦ h' ∙ sym h
    ]
  ]

  pub contains-append :
      (xs ys : List A) (a : A) → contains (xs ++ ys) a ≡ (contains xs a || contains ys a)
  contains-append [] ys a = refl
  contains-append (x ∷ xs) ys a = ground (arith, contains-append xs ys a)

module _ {ℓ κ} {A : Type ℓ} {B : Type κ} ⦃e : Eq A⦄ ⦃f : Eq B⦄ where
  pair_dec : Discrete (A × B)
  pair_dec (a, b) (c, d) =
      dite (e.dec a c)
        (λ p.
          dite (f.dec b d) (λ q. yes (ap₂ (λ (x : A) (y : B). let r : A × B = (x, y) in r) p q))
            (λ n. no (λ r. n (ap (λ (t : A × B). t.1) r))))
        (λ n. no (λ r. n (ap (λ (t : A × B). t.0) r)))

  instance unfoldable pub pair_eq : Eq (A × B)
  unfolding pair_dec
  pair_eq = record { dec = pair_dec }

-- Shut in proofs, where a split on `s == t` yields the equation or its negation.
instance unfoldable pub string_eq : Eq String
string_eq = record {
  dec = λ s t.
      dite (Bool-discrete (Text.◌==◌ s t) true) (λ same. yes ((eq_iff s t).0 same))
        (λ differ. no (λ p. differ ((eq_iff s t).1 p)));
}
