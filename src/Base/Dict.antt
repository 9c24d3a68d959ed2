-- ===== src/Base/Dict.antt =====
-- Python's `dict`, in insertion order: an update keeps the entry's place, a new key goes last.
use mathlib.Core.Path.{◌≡◌, refl}
use mathlib.Core.Bool.{Bool}
use mathlib.Core.Option.{Option, none, some}
use mathlib.Core.List.{List, [], ◌∷◌}
use native.Mathlib.Omega.{arith}
use mega_deepagents.Base.Tests.{if◌then◌else◌, is_some}
use mega_deepagents.Base.Equality.{Eq, ◌==◌}

abbrev pub Dict {ℓ κ} : Type ℓ → Type κ → Type (ℓ ⊔ κ)
Dict K V = List (K × V)

module _ {ℓ κ} {K : Type ℓ} {V : Type κ} where
  abbrev pub keys : Dict K V → List K
  keys [] = []
  keys ((k, v) ∷ d) = k ∷ keys d

  abbrev pub values : Dict K V → List V
  values [] = []
  values ((k, v) ∷ d) = v ∷ values d

  -- A predicate on every entry.
  abbrev pub AllEntries {μ} : (K → V → Type μ) → Dict K V → Type μ
  AllEntries P [] = Unit
  AllEntries P ((k, v) ∷ d) = P k v × AllEntries P d

module _ {ℓ κ} {K : Type ℓ} {V : Type κ} ⦃e : Eq K⦄ where
  -- `d.get(k)`
  unfoldable pub lookup : K → Dict K V → Option V
  lookup k [] = none
  lookup k ((j, v) ∷ d) = if k == j then some v else lookup k d

  -- `d[k] = v`
  unfoldable pub insert : K → V → Dict K V → Dict K V
  insert k v [] = (k, v) ∷ []
  insert k v ((j, w) ∷ d) = if k == j then (j, v) ∷ d else (j, w) ∷ insert k v d

  -- `d.pop(k, None)`. Every entry of the key goes; a real dict has at most one.
  unfoldable pub erase : K → Dict K V → Dict K V
  erase k [] = []
  erase k ((j, w) ∷ d) = let rest = erase k d in if k == j then rest else (j, w) ∷ rest

  -- `k in d`
  abbrev pub has_key : K → Dict K V → Bool
  has_key k d = is_some (lookup k d)

  -- Each key stands once.
  abbrev pub NodupKeys : Dict K V → Type κ
  NodupKeys [] = Unit
  NodupKeys ((k, _) ∷ d) = (lookup k d ≡ none) × NodupKeys d

  pub lookup-nil : (k : K) → lookup k [] ≡ none
  unfolding lookup
  lookup-nil k = refl

  pub lookup-insert :
      (j k : K) (v : V) (d : Dict K V)
      → lookup j (insert k v d) ≡ (if j == k then some v else lookup j d)
  unfolding insert lookup
  lookup-insert j k v [] = refl
  lookup-insert j k v (_ ∷ d) = ground (arith, lookup-insert j k v d)

  pub lookup-erase :
      (j k : K) (d : Dict K V) → lookup j (erase k d) ≡ (if j == k then none else lookup j d)
  unfolding erase lookup
  lookup-erase j k [] = ground arith
  lookup-erase j k (_ ∷ d) = ground (arith, lookup-erase j k d)

  pub insert-NodupKeys : (k : K) (v : V) (d : Dict K V) → NodupKeys d → NodupKeys (insert k v d)
  unfolding insert
  insert-NodupKeys k v [] _ = (lookup-nil k, tt)
  insert-NodupKeys k v ((j, _) ∷ d) (fresh, u) =
      ground (arith, insert-NodupKeys k v d u, lookup-insert j k v d)

  pub erase-NodupKeys : (k : K) (d : Dict K V) → NodupKeys d → NodupKeys (erase k d)
  unfolding erase
  erase-NodupKeys k [] _ = tt
  erase-NodupKeys k ((j, _) ∷ d) (fresh, u) =
      ground (arith, erase-NodupKeys k d u, lookup-erase j k d)

  pub AllEntries-insert {μ} :
      (P : K → V → Type μ) (k : K) (v : V) (d : Dict K V)
      → AllEntries P d
      → P k v
      → AllEntries P (insert k v d)
  unfolding insert
  AllEntries-insert P k v [] h p = (p, tt)
  AllEntries-insert P k v ((j, w) ∷ d) h p = ground (arith, AllEntries-insert P k v d h.1 p)

  pub AllEntries-erase {μ} :
      (P : K → V → Type μ) (k : K) (d : Dict K V) → AllEntries P d → AllEntries P (erase k d)
  unfolding erase
  AllEntries-erase P k [] h = tt
  AllEntries-erase P k ((j, w) ∷ d) h = ground (arith, AllEntries-erase P k d h.1)

  pub AllEntries-lookup {μ} :
      (P : K → V → Type μ) (k : K) (d : Dict K V) {v : V}
      → AllEntries P d
      → lookup k d ≡ some v
      → P k v
  unfolding lookup
  AllEntries-lookup P k [] h e = cc
  AllEntries-lookup P k ((j, w) ∷ d) {v} h e = ground (arith, AllEntries-lookup P k d {v = v} h.1)

module _ {ℓ κ} {K : Type ℓ} {V : Type κ} where
  pub AllEntries-map {μ ν} :
      {P : K → V → Type μ} {Q : K → V → Type ν} (d : Dict K V)
      → ((k : K) (v : V) → P k v → Q k v)
      → AllEntries P d
      → AllEntries Q d
  AllEntries-map [] f h = tt
  AllEntries-map ((k, v) ∷ d) f h = (f k v h.0, AllEntries-map d f h.1)

  pub AllEntries-zip {μ ν} :
      (P : K → V → Type μ) (Q : K → V → Type ν) (d : Dict K V)
      → AllEntries P d
      → AllEntries Q d
      → AllEntries (λ k v. P k v × Q k v) d
  AllEntries-zip P Q [] h g = tt
  AllEntries-zip P Q ((k, v) ∷ d) h g = ((h.0, g.0), AllEntries-zip P Q d h.1 g.1)

module _ {ℓ κ} {K : Type ℓ} {V : Type κ} ⦃e : Eq K⦄ where
  lookup-skip :
      (j k : K) (w v : V) (d : Dict K V)
      → lookup j d ≡ none
      → lookup k d ≡ some v
      → lookup k ((j, w) ∷ d) ≡ some v
  unfolding lookup
  lookup-skip j k w v d fresh h = elim (e.dec k j) [ yes p ↦ absurd (cc) | no n ↦ ground arith ]

  lookup-head : (j : K) (w : V) (d : Dict K V) → lookup j ((j, w) ∷ d) ≡ some w
  unfolding lookup
  lookup-head j w d = ground arith

  -- Where each key stands once, the lookup of an entry's key finds that entry.
  pub entries-lookup : (d : Dict K V) → NodupKeys d → AllEntries (λ k v. lookup k d ≡ some v) d
  entries-lookup [] h = tt
  entries-lookup ((j, w) ∷ d) h = (
    lookup-head j w d,
    AllEntries-map d (λ k v p. lookup-skip j k w v d h.0 p) (entries-lookup d h.1),
  )
