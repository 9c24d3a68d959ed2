-- ===== src/TaskGraph/Kahn.antt =====
-- app/multiagent/task_graph.py: Kahn's loop, for any queue that keeps what is pushed.
use mega_deepagents.Base.{
  ℕ, zero, suc, ◌+◌, ◌≤◌, String, Bool, true, false, not, ◌&&◌, some, List, [], ◌∷◌, ◌≡◌, ◌∙◌, sym,
  ap, refl, arith, if◌then◌else◌, eqb, length, contains, ◌==◌, string_eq, eq_self, eq→path, All,
}
use mega_deepagents.TaskGraph.Search.{Edges, successors, indegree, decrement, relax, visit, kahn}

abbrev pub one_if : Bool → ℕ
one_if true = 1
one_if false = 0

-- How often `v` stands in the list.
abbrev pub occurrences : String → List String → ℕ
occurrences v [] = 0
occurrences v (x ∷ xs) = one_if (v == x) + occurrences v xs

-- The edges into `v` from nodes that are not among `done`.
abbrev pub waiting : Edges → List String → String → ℕ
waiting [] done v = 0
waiting ((u, x) ∷ es) done v = one_if (x == v && not (contains done u)) + waiting es done v

-- The nodes that wait for a dependency.
abbrev pub blocked : List String → (String → ℕ) → ℕ
blocked [] ind = 0
blocked (v ∷ vs) ind = one_if (not (eqb (ind v) 0)) + blocked vs ind

pub waiting-nil : (es : Edges) (v : String) → waiting es [] v ≡ indegree es v
unfolding indegree
waiting-nil [] v = refl
waiting-nil ((u, x) ∷ es) v = ground (arith, waiting-nil es v)

waiting-cons :
    (es : Edges) (done : List String) (u v : String)
    → contains done u ≡ false
    → waiting es (u ∷ done) v + occurrences v (successors es u) ≡ waiting es done v
unfolding successors
waiting-cons [] done u v h = refl
waiting-cons ((w, x) ∷ es) done u v h = ground (arith, waiting-cons es done u v h)

pub occurrences-contains :
    (v : String) (xs : List String) → contains xs v ≡ false → occurrences v xs ≡ 0
occurrences-contains v [] h = refl
occurrences-contains v (x ∷ xs) h = ground (arith, occurrences-contains v xs)

pub contains-occurrences :
    (v : String) (xs : List String) → occurrences v xs ≡ 0 → contains xs v ≡ false
contains-occurrences v [] h = refl
contains-occurrences v (x ∷ xs) h = ground (arith, contains-occurrences v xs)

-- To lower the count of a node that stands once among the nodes.
blocked-absent :
    (v : String) (vs : List String) (ind : String → ℕ)
    → occurrences v vs ≡ 0
    → blocked vs (decrement v ind) ≡ blocked vs ind
unfolding decrement
blocked-absent v [] ind h = refl
blocked-absent v (x ∷ xs) ind h = ground (arith, blocked-absent v xs ind)

blocked-decrement :
    (v : String) (vs : List String) (ind : String → ℕ)
    → occurrences v vs ≡ 1
    → 1 ≤ ind v
    → blocked vs (decrement v ind) + one_if (eqb (decrement v ind v) 0) ≡ blocked vs ind
unfolding decrement
blocked-decrement v [] ind h pos = absurd (omega (arith, h))
blocked-decrement v (x ∷ xs) ind h pos =
    ground (arith, blocked-decrement v xs ind, blocked-absent v xs ind)

-- Every node that waits for nothing is in the queue, or done, once.
abbrev pub Settled : List String → (String → ℕ) → List String → (String → ℕ) → Type 0
Settled nodes ind queue done =
    (v : String) → occurrences v queue + done v ≡ one_if (contains nodes v && eqb (ind v) 0)

-- Every node of `out` comes when nothing that it depends on is left to come.
abbrev pub InOrder : Edges → List String → List String → Type 0
InOrder es done [] = Unit
InOrder es done (u ∷ out) = (waiting es done u ≡ 0) × InOrder es (u ∷ done) out

pub record State (nodes : List String) (es : Edges) (ind : String → ℕ) (queue done : List String)
    : Type 0 where
  pub counted : (v : String) → ind v ≡ waiting es done v
  pub settled : Settled nodes ind queue (λ v. occurrences v done)

-- What the loop returns, and the state in which it ends.
pub record Ends (push : String → List String → List String) (nodes : List String) (es : Edges)
    (fuel : ℕ) (ind : String → ℕ) (queue done : List String) : Type 0 where
  pub out : List String
  pub left : String → ℕ
  pub last : List String
  pub returns : kahn push es fuel ind queue ≡ some out
  pub ordered : InOrder es done out
  pub state : State nodes es left [] last
  pub gathered : (v : String) → occurrences v last ≡ occurrences v out + occurrences v done
  pub measured : length out + blocked nodes left ≡ length queue + blocked nodes ind

module _ (push : String → List String → List String)
    (pushed : (x v : String) (xs : List String)
      → occurrences v (push x xs) ≡ one_if (v == x) + occurrences v xs)
    (grown : (x : String) (xs : List String) → length (push x xs) ≡ suc (length xs))
    (nodes : List String)
    (once : (v : String) → contains nodes v ≡ true → occurrences v nodes ≡ 1) where
  abbrev queue_after : (String → ℕ) → String → List String → List String
  queue_after ind v queue = if eqb (decrement v ind v) 0 then push v queue else queue

  decrement-Settled :
      (v : String) (ind : String → ℕ) (queue : List String) (done : String → ℕ)
      → contains nodes v ≡ true
      → 1 ≤ ind v
      → Settled nodes ind queue done
      → Settled nodes (decrement v ind) (queue_after ind v queue) done
  unfolding decrement
  decrement-Settled v ind queue done node pos settled x =
      ground (arith, settled x, settled v, pushed v x queue, eq→path x v)

  decrement-measure :
      (v : String) (ind : String → ℕ) (queue : List String)
      → contains nodes v ≡ true
      → 1 ≤ ind v
      → length (queue_after ind v queue) + blocked nodes (decrement v ind)
        ≡ length queue + blocked nodes ind
  decrement-measure v ind queue node pos =
      ground (arith, blocked-decrement v nodes ind (once v node) pos, grown v queue)

  decrement-enough :
      (v : String) (vs : List String) (ind : String → ℕ)
      → ((x : String) → occurrences x (v ∷ vs) ≤ ind x)
      → (x : String) → occurrences x vs ≤ decrement v ind x
  unfolding decrement
  decrement-enough v vs ind enough x = ground (arith, enough x)

  record Relaxed (es : Edges) (vs : List String) (ind : String → ℕ) (queue : List String)
      (done : String → ℕ) : Type 0 where
    lowered : (v : String) → (relax push es vs ind queue).0 v + occurrences v vs ≡ ind v
    settled : Settled nodes (relax push es vs ind queue).0 (relax push es vs ind queue).1 done
    measured :
        length (relax push es vs ind queue).1 + blocked nodes (relax push es vs ind queue).0
        ≡ length queue + blocked nodes ind

  lowered-step :
      (v x : String) (vs : List String) (ind : String → ℕ) (n : ℕ)
      → 1 ≤ ind v
      → n + occurrences x vs ≡ decrement v ind x
      → n + occurrences x (v ∷ vs) ≡ ind x
  unfolding decrement
  lowered-step v x vs ind n pos e = ground (arith, eq→path x v)

  relax-Relaxed :
      (es : Edges) (vs : List String) (ind : String → ℕ) (queue : List String) (done : String → ℕ)
      → All (λ v. contains nodes v ≡ true) vs
      → ((x : String) → occurrences x vs ≤ ind x)
      → Settled nodes ind queue done
      → Relaxed es vs ind queue done
  unfolding relax
  relax-Relaxed es [] ind queue done ns enough settled = record {
    lowered = λ v. omega arith;
    settled = settled;
    measured = refl;
  }
  relax-Relaxed es (v ∷ vs) ind queue done ns enough settled =
      let pos : 1 ≤ ind v = omega (arith, enough v, self v vs) in
      let rest =
        relax-Relaxed es vs (decrement v ind) (queue_after ind v queue) done ns.1
          (decrement-enough v vs ind enough)
          (decrement-Settled v ind queue done ns.0 pos settled) in
      record {
        lowered = λ x. lowered-step v x vs ind _ pos (rest.lowered x);
        settled = rest.settled;
        measured = rest.measured ∙ decrement-measure v ind queue ns.0 pos;
      }
    where
      self : (v : String) (vs : List String) → 1 ≤ occurrences v (v ∷ vs)
      self v vs = ground (arith, eq_self v)

  -- The head of the queue waits for nothing and is not done.
  head-ready :
      (es : Edges) (ind : String → ℕ) (u : String) (queue done : List String)
      → State nodes es ind (u ∷ queue) done
      → (ind u ≡ 0) × (contains done u ≡ false)
  head-ready es ind u queue done st = (
    ground (arith, eq_self u, st.settled u),
    contains-occurrences u done (ground (arith, eq_self u, st.settled u)),
  )

  module _ (es : Edges)
      (targets : (u : String) → All (λ v. contains nodes v ≡ true) (successors es u)) where
    popped-Relaxed :
        (ind : String → ℕ) (u : String) (queue done : List String)
        → State nodes es ind (u ∷ queue) done
        → Relaxed es (successors es u) ind queue (λ v. occurrences v (u ∷ done))
    popped-Relaxed ind u queue done st =
        relax-Relaxed es (successors es u) ind queue (λ v. occurrences v (u ∷ done)) (targets u)
          (λ x.
            omega
              (arith, st.counted x, waiting-cons es done u x (head-ready es ind u queue done st).1))
          (λ x. omega (arith, st.settled x))

    popped-State :
        (ind : String → ℕ) (u : String) (queue done : List String)
        → State nodes es ind (u ∷ queue) done
        → State nodes es
            (relax push es (successors es u) ind queue).0
            (relax push es (successors es u) ind queue).1
            (u ∷ done)
    popped-State ind u queue done st =
        let next = popped-Relaxed ind u queue done st in
        record {
          counted = λ v. omega (
            arith,
            next.lowered v,
            st.counted v,
            waiting-cons es done u v (head-ready es ind u queue done st).1,
          );
          settled = next.settled;
        }

    pub kahn-Ends :
        (fuel : ℕ) (ind : String → ℕ) (queue done : List String)
        → State nodes es ind queue done
        → length queue + blocked nodes ind ≤ fuel
        → Ends push nodes es fuel ind queue done
    unfolding kahn
    kahn-Ends fuel ind [] done st enough = record {
      out = [];
      left = ind;
      last = done;
      returns = refl;
      ordered = tt;
      state = st;
      gathered = λ v. omega arith;
      measured = refl;
    }
    kahn-Ends zero ind (u ∷ queue) done st enough = absurd (omega (arith, enough))
    kahn-Ends (suc fuel) ind (u ∷ queue) done st enough =
        let next = popped-Relaxed ind u queue done st in
        let rest =
          kahn-Ends fuel (relax push es (successors es u) ind queue).0
            (relax push es (successors es u) ind queue).1 (u ∷ done)
            (popped-State ind u queue done st) (omega (arith, next.measured, enough)) in
        record {
          out = u ∷ rest.out;
          left = rest.left;
          last = rest.last;
          returns = ap (visit u) rest.returns;
          ordered = (sym (st.counted u) ∙ (head-ready es ind u queue done st).0, rest.ordered);
          state = rest.state;
          gathered = λ v. omega (arith, rest.gathered v);
          measured = omega (arith, rest.measured, next.measured);
        }
