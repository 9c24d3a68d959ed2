-- ===== src/TaskGraph/FreshId.antt =====
-- app/multiagent/task_graph.py: the loop of `add_repair_task` that looks for an id ends, and finds one
-- that the graph does not have.
use Prim.Native.String.{◌++◌ as join}
use text.Mathlib.TextLemmas.{append_cancel_left}
use native.Mathlib.Decide.{dec_lt}
use mega_deepagents.Base.{
  ℕ, zero, suc, ◌+◌, ◌<◌, ◌≤◌, String, true, false, some, [], ◌∷◌, ◌≡◌, ◌⊎◌, refl, arith, length,
  ◌==◌, string_eq, eq→path, Bool-cases, inl, inr,
}
use mega_deepagents.Base.Dict.{Dict, lookup, has_key, erase, lookup-erase}
use mega_deepagents.Base.Decimal.{decimal, decimal-injective}
use mega_deepagents.TaskGraph.Node.{TaskNode}
use mega_deepagents.TaskGraph.Graph.{TaskGraph}
use mega_deepagents.TaskGraph.Repair.{versioned, candidate, first_free, repair_id}

candidate-injective :
    (target : String) (version i j : ℕ)
    → candidate target version (suc i) ≡ candidate target version (suc j)
    → i ≡ j
unfolding candidate
candidate-injective target version i j h = pred_eq (
    decimal-injective (suc i) (suc j) (
      append_cancel_left "_" (decimal (suc i)) (decimal (suc j)) (
        append_cancel_left (versioned target version) (join "_" (decimal (suc i)))
          (join "_" (decimal (suc j))) h)))
  where
    pred_eq : suc i ≡ suc j → i ≡ j
    pred_eq e = omega arith

length-erase-le : (k : String) (d : Dict String TaskNode) → length (erase k d) ≤ length d
unfolding erase
length-erase-le k [] = omega arith
length-erase-le k ((j, n) ∷ d) = ground (arith, length-erase-le k d)

length-erase :
    (k : String) (d : Dict String TaskNode) → has_key k d ≡ true → length (erase k d) < length d
unfolding erase lookup
length-erase k [] h = cc h
length-erase k ((j, n) ∷ d) h = ground (arith, length-erase k d, length-erase-le k d)

-- As many different keys as these are held, so the dictionary is as long.
distinct_keys :
    (f : ℕ → String)
    → ((i j : ℕ) → f i ≡ f j → i ≡ j)
    → (k : ℕ) (d : Dict String TaskNode) → ((i : ℕ) → i < k → has_key (f i) d ≡ true)
    → k ≤ length d
distinct_keys f inj zero d h = omega arith
distinct_keys f inj (suc k) d h =
    omega
      (arith, length-erase (f k) d (h k (omega arith)), distinct_keys f inj k (erase (f k) d) kept)
  where
    kept : (i : ℕ) → i < k → has_key (f i) (erase (f k) d) ≡ true
    kept i lt = elim (Bool-cases (f i == f k)) [
      | inl same ↦ absurd (omega (arith, inj i k (eq→path (f i) (f k) same)))
      | inr other ↦ ground (arith, lookup-erase (f i) (f k) d, h i (omega arith))
    ]

first_free-found :
    (d : Dict String TaskNode) (name : ℕ → String) (fuel i : ℕ)
    → ((id : String) × (first_free d name fuel i ≡ some id) × (has_key id d ≡ false))
      ⊎ ((j : ℕ) → i ≤ j → j < i + fuel → has_key (name j) d ≡ true)
unfolding first_free
first_free-found d name zero i = inr (λ j le lt. absurd (omega arith))
first_free-found d name (suc fuel) i = elim (Bool-cases (has_key (name i) d)) [
  | inr free ↦ inl (name i, rw free refl, free)
  | inl held ↦ elim (first_free-found d name fuel (suc i)) [
    | inl (id, found, free) ↦ inl (id, rw held found, free)
    | inr all ↦ inr (λ j le lt. elim (dec_lt i j) [
      | yes later ↦ all j later (omega arith)
      | no here ↦ let same : i ≡ j = omega arith in rw (← same) held
    ])
  ]
]

-- The loop ends with an id that is no node's.
pub repair_id-fresh :
    (g : TaskGraph) (target : String)
    → (id : String) × (repair_id g target ≡ some id) × (has_key id g.nodes ≡ false)
unfolding repair_id
repair_id-fresh g target =
    elim (first_free-found g.nodes (candidate target g.version) (suc (suc (length g.nodes))) 0) [
      | inl ok ↦ ok
      | inr taken ↦ absurd (
          omega (
            arith,
            distinct_keys (λ i. candidate target g.version (suc i))
                (candidate-injective target g.version) (suc (length g.nodes)) g.nodes
                (λ i lt. taken (suc i) (omega arith) (omega arith)),
          ))
    ]
