-- ===== src/Scheduler/Lists.antt =====
-- What `keep`, `map`, `any` and `sort_by` leave of a list.
use mega_deepagents.Base.{
  Bool, true, false, ◌||◌, List, [], ◌∷◌, ◌++◌, ◌≡◌, ◌≤◌, refl, arith, inl, inr, Bool-cases, All,
  keep, any, map, length, ap,
}
use mega_deepagents.Base.Lists.{insert_by, sort_by}

module _ {ℓ κ} {A : Type ℓ} (P : A → Type κ) (before : A → A → Bool) where
  insert_by-All : (x : A) (ys : List A) → P x → All P ys → All P (insert_by before x ys)
  unfolding insert_by
  insert_by-All x [] p h = (p, tt)
  insert_by-All x (y ∷ ys) p h = elim (Bool-cases (before y x)) [
    | inl e ↦ rw e (h.0, insert_by-All x ys p h.1)
    | inr e ↦ rw e (p, h)
  ]

  pub sort_by-All : (xs : List A) → All P xs → All P (sort_by before xs)
  unfolding sort_by
  sort_by-All [] h = tt
  sort_by-All (x ∷ xs) h = insert_by-All x (sort_by before xs) h.0 (sort_by-All xs h.1)

pub map-All {ℓ κ μ} :
    {A : Type ℓ} {B : Type κ} (P : B → Type μ) (f : A → B) (xs : List A)
    → All (λ x. P (f x)) xs
    → All P (map f xs)
map-All P f [] h = tt
map-All P f (x ∷ xs) h = (h.0, map-All P f xs h.1)

pub insert_by-nil {ℓ} :
    {A : Type ℓ} (before : A → A → Bool) (x : A) (ys : List A) → ¬ (insert_by before x ys ≡ [])
unfolding insert_by
insert_by-nil before x [] e = cc
insert_by-nil before x (y ∷ ys) e = elim (Bool-cases (before y x)) [
  | inl c ↦ cc (rw c at e)
  | inr c ↦ cc (rw c at e)
]

pub sort_by-nil {ℓ} :
    {A : Type ℓ} (before : A → A → Bool) (xs : List A) → sort_by before xs ≡ [] → xs ≡ []
unfolding sort_by
sort_by-nil before [] e = refl
sort_by-nil before (x ∷ xs) e = absurd (insert_by-nil before x (sort_by before xs) e)

pub map-All' {ℓ κ μ} :
    {A : Type ℓ} {B : Type κ} (P : B → Type μ) (f : A → B) (xs : List A)
    → All P (map f xs)
    → All (λ x. P (f x)) xs
map-All' P f [] h = tt
map-All' P f (x ∷ xs) h = (h.0, map-All' P f xs h.1)

pub keep_all {ℓ} : {A : Type ℓ} (xs : List A) → keep (λ x. true) xs ≡ xs
keep_all [] = refl
keep_all (x ∷ xs) = ap (λ ys. x ∷ ys) (keep_all xs)

pub any-append {ℓ} :
    {A : Type ℓ} (p : A → Bool) (xs ys : List A) → any p (xs ++ ys) ≡ (any p xs || any p ys)
any-append p [] ys = refl
any-append p (x ∷ xs) ys = ground (arith, any-append p xs ys)

pub keep-any {ℓ} :
    {A : Type ℓ} (p q : A → Bool) (xs : List A) → any p (keep q xs) ≡ true → any p xs ≡ true
keep-any p q [] h = cc h
keep-any p q (x ∷ xs) h = elim (Bool-cases (q x)) [
  | inl e ↦ ground (arith, keep-any p q xs)
  | inr e ↦ ground (arith, keep-any p q xs)
]

pub keep-length {ℓ} : {A : Type ℓ} (q : A → Bool) (xs : List A) → length (keep q xs) ≤ length xs
keep-length q [] = omega arith
keep-length q (x ∷ xs) = elim (Bool-cases (q x)) [
  | inl e ↦ rw e (omega (arith, keep-length q xs))
  | inr e ↦ rw e (omega (arith, keep-length q xs))
]

pub length-map {ℓ κ} :
    {A : Type ℓ} {B : Type κ} (f : A → B) (xs : List A) → length (map f xs) ≡ length xs
length-map f [] = refl
length-map f (x ∷ xs) = omega (arith, length-map f xs)

pub keep-nil {ℓ} :
    {A : Type ℓ} (p : A → Bool) (xs : List A) → keep p xs ≡ [] → All (λ x. p x ≡ false) xs
keep-nil p [] e = tt
keep-nil p (x ∷ xs) e = elim (Bool-cases (p x)) [
  | inl h ↦ absurd (cc (rw h at e))
  | inr h ↦ (h, keep-nil p xs (rw h at e))
]

pub keep-passes {ℓ} : {A : Type ℓ} (p : A → Bool) (xs : List A) → All (λ x. p x ≡ true) (keep p xs)
keep-passes p [] = tt
keep-passes p (x ∷ xs) = elim (Bool-cases (p x)) [
  | inl h ↦ rw h (h, keep-passes p xs)
  | inr h ↦ rw h (keep-passes p xs)
]
