-- ===== src/TaskService/Outcomes.antt =====
-- app/multiagent/transactional_task_service.py: what a chain of steps that returns tells of each step,
-- and what a graph that validates is.
use mega_deepagents.Base.{Bool, true, false, ◌≡◌, refl, ap, subst, Option, none, some}
use mega_deepagents.TaskGraph.Graph
use mega_deepagents.TaskGraph.Graph.{TaskGraph, Result, check_all_dependencies_exist}
use mega_deepagents.TaskGraph.Search.{then_run, refuse_cycle, has_cycle, validate}
use mega_deepagents.TaskGraph.Order.{IsKeyed}
use mega_deepagents.TaskGraph.Ranks.{IsPlan}
use mega_deepagents.TaskService.Store.{
  ServiceResult, success, failure, ServiceError, ◌>>=◌, require, found, of_result,
}

success_or {ℓ} : {A : Type ℓ} → A → ServiceResult A → A
success_or d (success a) = a
success_or d (failure e) = d

pub success-injective {ℓ} : {A : Type ℓ} (a b : A) → success a ≡ success b → a ≡ b
unfolding success_or
success-injective a b h = ap (success_or a) h

-- If the step returns, what it returns satisfies the predicate.
pub data Ensures {ℓ κ} {A : Type ℓ} (P : A → Type κ) : ServiceResult A → Type (ℓ ⊔ κ) where
  returns : {a : A} → P a → Ensures P (success a)
  raises : {e : ServiceError} → Ensures P (failure e)

pub then-Ensures {ℓ κ μ} :
    {A : Type ℓ} {B : Type κ} {P : B → Type μ} (m : ServiceResult A) (f : A → ServiceResult B)
    → ((a : A) → m ≡ success a → Ensures P (f a))
    → Ensures P (m >>= f)
unfolding ◌>>=◌
then-Ensures (success a) f h = h a refl
then-Ensures (failure e) f h = raises

pub weaken {ℓ κ μ} :
    {A : Type ℓ} {P : A → Type κ} {Q : A → Type μ} {m : ServiceResult A}
    → ((a : A) → P a → Q a)
    → Ensures P m
    → Ensures Q m
weaken f (returns {a = x} p) = returns (f x p)
weaken f raises = raises

pub ensured {ℓ κ} :
    {A : Type ℓ} {P : A → Type κ} {m : ServiceResult A} (a : A) → Ensures P m → m ≡ success a → P a
ensured {P = P} a (returns {a = x} p) h = subst P (success-injective x a h) p
ensured a raises h = cc

pub require-eq-success : (b : Bool) (e : ServiceError) → require b e ≡ success tt → b ≡ true
require-eq-success true e h = refl
require-eq-success false e h = cc

pub found-eq-success {ℓ} :
    {A : Type ℓ} (o : Option A) (e : ServiceError) {a : A} → found o e ≡ success a → o ≡ some a
found-eq-success none e h = cc
found-eq-success (some x) e {a} h = ap some (success-injective x a h)

pub of_result-eq-success {ℓ} :
    {A : Type ℓ} (r : Result A) {a : A} → of_result r ≡ success a → r ≡ Graph.ok a
of_result-eq-success (Graph.ok x) {a} h = ap Graph.ok (success-injective x a h)
of_result-eq-success (Graph.raise e) h = cc

validated :
    (c : Result (Unit {0})) (h : Result Bool) (u : Unit {0})
    → then_run c (λ _. then_run h (refuse_cycle (Graph.ok tt))) ≡ Graph.ok u
    → (c ≡ Graph.ok tt) × (h ≡ Graph.ok false)
validated (Graph.ok tt) (Graph.ok false) u e = (refl, refl)
validated (Graph.ok tt) (Graph.ok true) u e = cc
validated (Graph.ok tt) (Graph.raise x) u e = cc
validated (Graph.raise x) h u e = cc

pub validate-IsPlan :
    (g : TaskGraph) {u : Unit {0}} → IsKeyed g → validate g ≡ Graph.ok u → IsPlan g
unfolding validate
validate-IsPlan g {u} k h =
    let (complete, acyclic) = validated (check_all_dependencies_exist g) (has_cycle g) u h in
    record { keyed = k; complete = complete; acyclic = acyclic }
