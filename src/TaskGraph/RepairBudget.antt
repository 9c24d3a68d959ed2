-- ===== src/TaskGraph/RepairBudget.antt =====
-- app/multiagent/task_graph.py: the bounds of the budget that `add_repair_task` gives to the node.
use mega_deepagents.Base.{
  ℕ, zero, suc, ◌≤◌, true, ◌≡◌, ◌∙◌, sym, arith, max, leb, leb→le, Bool-cases, inl, inr,
}
use mega_deepagents.TaskGraph.Node.{TaskNode}
use mega_deepagents.TaskGraph.Repair.{or_number, repair_attempts}

or_number-le : (n k m : ℕ) → n ≤ m → k ≤ m → or_number n k ≤ m
or_number-le zero k m h h' = h'
or_number-le (suc n) k m h h' = h

le-or_number : (n k : ℕ) → n ≤ or_number n k
le-or_number zero k = omega arith
le-or_number (suc n) k = omega arith

leb-le_iff : (a b c : ℕ) → (a ≤ c → b ≤ c) → (b ≤ c → a ≤ c) → leb a c ≡ leb b c
leb-le_iff a b c h h' = elim (Bool-cases (leb a c)) [
  | inl e ↦ ground (arith, h (leb→le a c e))
  | inr e ↦ elim (Bool-cases (leb b c)) [
    | inl e' ↦ ground (arith, h' (leb→le b c e'))
    | inr e' ↦ e ∙ sym e'
  ]
]

pub repair_attempts-le :
    (t : TaskNode) → t.budget.max_attempts ≤ 10 → leb (repair_attempts t) 10 ≡ leb t.max_attempts 10
unfolding repair_attempts
repair_attempts-le t h =
    leb-le_iff (repair_attempts t) t.max_attempts 10
      (λ few. omega (arith, le-or_number t.max_attempts 4))
      (λ few. omega (
        arith,
        or_number-le t.max_attempts 4 10 few (omega arith),
        or_number-le t.budget.max_attempts 4 10 h (omega arith),
      ))

pub repair_calls-le : (n : ℕ) → n ≤ 200 → leb (max (or_number n 40) 80) 200 ≡ true
repair_calls-le n h =
    leb-le_iff (max (or_number n 40) 80) 0 200 (λ _. omega arith)
      (λ _. omega (arith, or_number-le n 40 200 h (omega arith)))
