-- ===== src/TaskGraph/Reach.antt =====
-- app/multiagent/task_graph.py: `descendants` finds what can be reached.
use mathlib.Core.List.{reverse, reverse-append}
use mega_deepagents.Base.{
  ℕ, zero, suc, ◌+◌, ◌≤◌, String, true, false, ◌||◌, some, List, [], ◌∷◌, ◌++◌, ◌≡◌, ◌∙◌, sym, ap,
  subst, refl, arith, inl, inr, Bool-cases, length, length-append, contains, contains-append, ◌==◌,
  string_eq, eq_self, eq→path, if◌then◌else◌,
}
use mega_deepagents.Base.Dict.{has_key, values}
use mega_deepagents.TaskGraph.Graph.{TaskGraph}
use mega_deepagents.TaskGraph.Search.{Edges, edges, successors, explore, descendants}
use mega_deepagents.TaskGraph.Order.{has_edge}

-- One or more edges lead from `a` to the node.
pub data Reach (es : Edges) (a : String) : String → Type 0 where
  one : {v : String} → has_edge es a v ≡ true → Reach es a v
  step : {u v : String} → Reach es a u → has_edge es u v ≡ true → Reach es a v

contains-successors : (es : Edges) (u v : String) → contains (successors es u) v ≡ has_edge es u v
unfolding successors
contains-successors [] u v = refl
contains-successors ((w, x) ∷ es) u v =
    ground (arith, contains-successors es u v, eq→path v x, eq→path x v)

contains-snoc :
    (xs : List String) (x v : String) → contains (xs ++ x ∷ []) v ≡ (contains xs v || v == x)
contains-snoc xs x v = contains-append xs (x ∷ []) v ∙ ground arith

contains-reverse : (xs : List String) (v : String) → contains (reverse xs) v ≡ contains xs v
contains-reverse [] v = refl
contains-reverse (x ∷ xs) v =
    ap (λ ys. contains ys v) (reverse-append (x ∷ []) xs)
    ∙ contains-snoc (reverse xs) x v
    ∙ ground (arith, contains-reverse xs v)

length-reverse : (xs : List String) → length (reverse xs) ≡ length xs
length-reverse [] = refl
length-reverse (x ∷ xs) =
    ap (λ (ys : List String). length ys) (reverse-append (x ∷ []) xs)
    ∙ omega (arith, length-append (reverse xs) (x ∷ []), length-reverse xs)

-- The edges whose source is not seen.
abbrev unseen : Edges → List String → ℕ
unseen [] seen = 0
unseen ((u, x) ∷ es) seen = let rest = unseen es seen in if contains seen u then rest else suc rest

unseen-cons :
    (es : Edges) (seen : List String) (u : String)
    → contains seen u ≡ false
    → unseen es (u ∷ seen) + length (successors es u) ≡ unseen es seen
unfolding successors
unseen-cons [] seen u h = refl
unseen-cons ((w, x) ∷ es) seen u h =
    ground (arith, unseen-cons es seen u h, eq→path u w, eq→path w u)

unseen-nil : (es : Edges) → unseen es [] ≡ length es
unseen-nil [] = refl
unseen-nil (e ∷ es) = omega (arith, unseen-nil es)

length-successors : (es : Edges) (u : String) → length (successors es u) ≤ length es
unfolding successors
length-successors [] u = omega arith
length-successors (e ∷ es) u = ground (arith, length-successors es u)

module _ (es : Edges) (a : String) where
  record Inv (stack seen : List String) : Type 0 where
    sound_stack : (v : String) → contains stack v ≡ true → Reach es a v
    sound_seen : (v : String) → contains seen v ≡ true → Reach es a v
    first : (v : String) → has_edge es a v ≡ true → (contains stack v || contains seen v) ≡ true
    closed :
        (u v : String)
        → contains seen u ≡ true
        → has_edge es u v ≡ true
        → (contains stack v || contains seen v) ≡ true

  -- What `explore` returns, with its correctness.
  record Explores (fuel : ℕ) (stack seen : List String) : Type 0 where
    out : List String
    returns : explore es fuel stack seen ≡ some out
    inv : Inv [] out

  skip-Inv :
      (u : String) (stack seen : List String)
      → contains seen u ≡ true
      → Inv (u ∷ stack) seen
      → Inv stack seen
  skip-Inv u stack seen old h = record {
    sound_stack = λ v c. h.sound_stack v (ground arith);
    sound_seen = h.sound_seen;
    first = λ v e. ground (arith, h.first v e, eq→path v u);
    closed = λ w v c e. ground (arith, h.closed w v c e, eq→path v u);
  }

  abbrev deeper : String → List String → List String
  deeper u stack = reverse (successors es u) ++ stack

  contains-deeper :
      (u v : String) (stack : List String)
      → contains (deeper u stack) v ≡ (has_edge es u v || contains stack v)
  contains-deeper u v stack =
      contains-append (reverse (successors es u)) stack v
      ∙ ap (λ b. b || contains stack v)
          (contains-reverse (successors es u) v ∙ contains-successors es u v)

  visit-Inv :
      (u : String) (stack seen : List String)
      → Inv (u ∷ stack) seen
      → Inv (deeper u stack) (u ∷ seen)
  visit-Inv u stack seen h =
      let to_u = h.sound_stack u (ground (arith, eq_self u)) in
      record {
        sound_stack = λ v c. elim (Bool-cases (has_edge es u v)) [
          | inl e ↦ step to_u e
          | inr e ↦ h.sound_stack v (ground (arith, contains-deeper u v stack))
        ];
        sound_seen = λ v c. elim (Bool-cases (v == u)) [
          | inl e ↦ subst (Reach es a) (sym (eq→path v u e)) to_u
          | inr e ↦ h.sound_seen v (ground arith)
        ];
        first = λ v e. ground (arith, h.first v e, contains-deeper u v stack);
        closed = λ w v c e. elim (Bool-cases (w == u)) [
          | inl same ↦
              let e' = subst (λ (x : String). has_edge es x v ≡ true) (eq→path w u same) e in
              ground (arith, contains-deeper u v stack)
          | inr other ↦ ground (arith, h.closed w v (ground arith) e, contains-deeper u v stack)
        ];
      }

  explore-Explores :
      (fuel : ℕ) (stack seen : List String)
      → length stack + unseen es seen ≤ fuel
      → Inv stack seen
      → Explores fuel stack seen
  unfolding explore
  explore-Explores fuel [] seen enough h = record { out = seen; returns = refl; inv = h }
  explore-Explores zero (u ∷ stack) seen enough h = absurd (omega (arith, enough))
  explore-Explores (suc fuel) (u ∷ stack) seen enough h = elim (Bool-cases (contains seen u)) [
    | inl old ↦
        let rest =
          explore-Explores fuel stack seen (omega (arith, enough)) (skip-Inv u stack seen old h) in
        record { out = rest.out; returns = rw old rest.returns; inv = rest.inv }
    | inr new ↦
        let rest =
          explore-Explores fuel (deeper u stack) (u ∷ seen)
            (omega (
              arith,
              enough,
              unseen-cons es seen u new,
              length-append (reverse (successors es u)) stack,
              length-reverse (successors es u),
            ))
            (visit-Inv u stack seen h) in
        record { out = rest.out; returns = rw new rest.returns; inv = rest.inv }
  ]

  start-Inv : Inv (reverse (successors es a)) []
  start-Inv = record {
    sound_stack =
        λ v c. one (sym (contains-reverse (successors es a) v ∙ contains-successors es a v) ∙ c);
    sound_seen = λ v c. cc c;
    first = λ v e. ground (arith, contains-reverse (successors es a) v, contains-successors es a v);
    closed = λ u v c e. cc c;
  }

  complete : (out : List String) → Inv [] out → {v : String} → Reach es a v → contains out v ≡ true
  complete out h (one e) = h.first _ e
  complete out h (step r e) = h.closed _ _ (complete out h r) e

-- For a node that the graph holds, descendants returns a set: it contains exactly the nodes
-- that one or more dependency edges lead to from it.
pub descendants-Reach :
    (g : TaskGraph) (id : String)
    → has_key id g.nodes ≡ true
    → (out : List String) × (descendants g id ≡ some out)
      × ((v : String)
          → (contains out v ≡ true → Reach (edges (values g.nodes)) id v)
            × (Reach (edges (values g.nodes)) id v → contains out v ≡ true))
unfolding descendants
descendants-Reach g id held =
    let es = edges (values g.nodes) in
    let run =
      explore-Explores es id (length es + length es) (reverse (successors es id)) []
        (omega (arith, length-reverse (successors es id), length-successors es id, unseen-nil es))
        (start-Inv es id) in
    (run.out, rw held run.returns, λ v. (run.inv.sound_seen v, complete es id run.out run.inv))
