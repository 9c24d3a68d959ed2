-- ===== src/PlanApproval/Gate.antt =====
-- app/multiagent/plan_approval.py: histories of `submit` and `decide`, and who approved what.
use mega_deepagents.Base.{
  ℕ, String, Bool, true, false, not, ◌&&◌, ◌||◌, Option, none, some, List, [], ◌∷◌, ◌≡◌, arith,
  length, Bool-cases, Option-cases, inl, inr, string_eq, is_some, leb, All,
}
use mega_deepagents.Base.Dict.{lookup, AllEntries, AllEntries-insert, AllEntries-lookup}
use mega_deepagents.PlanApproval.Service
use mega_deepagents.PlanApproval.Service.{
  Plans, TeammatePlan, PlanStatus, is_empty, is_principal, assess, settle, save,
}

pub data PlanCall : Type 0 where
  submit : TeammatePlan → PlanCall
  decide : (plan_id : String) (approved : Bool) (decided_by feedback : String) → PlanCall

unfoldable pub plan_call : Plans → ℕ → PlanCall → Plans
plan_call plans now (submit plan) = (Service.submit plans plan now).0
plan_call plans now (decide id approved by feedback) =
    (Service.decide plans id approved by feedback now).0

unfoldable pub plan_calls : Plans → List (ℕ × PlanCall) → Plans
unfolding plan_call
plan_calls plans [] = plans
plan_calls plans ((now, c) ∷ cs) = plan_calls (plan_call plans now c) cs

abbrev pub is_approved : PlanStatus → Bool
is_approved PlanStatus.plan_approved = true
is_approved _ = false

abbrev pub principal_named : Option String → Bool
principal_named none = false
principal_named (some by) = is_principal by

-- An approved plan has a principal and a time of decision.
abbrev pub is_accounted : TeammatePlan → Bool
is_accounted p =
    not (is_approved p.status) || (principal_named p.decided_by && is_some p.decided_at)

assess-accounted : (now : ℕ) (p : TeammatePlan) → is_accounted (assess now p) ≡ true
unfolding assess is_principal
assess-accounted now p = ground arith

settle-accounted :
    (approved : Bool) (by feedback : String) (now : ℕ) (p : TeammatePlan)
    → is_principal by ≡ true
    → is_accounted (settle approved by feedback now p) ≡ true
unfolding settle
settle-accounted approved by feedback now p h = ground arith

-- What an automatic approval asks of a plan.
abbrev pub is_harmless : TeammatePlan → Bool
is_harmless p =
    not (is_empty p.steps)
    && not (is_empty p.test_strategy)
    && is_empty p.risks
    && leb (length p.files) 10

abbrev pub is_justified : TeammatePlan → Bool
is_justified p = not (is_approved p.status) || is_harmless p

assess-justified : (now : ℕ) (p : TeammatePlan) → is_justified (assess now p) ≡ true
unfolding assess
assess-justified now p = ground arith

-- The call is no decision by a principal.
abbrev pub is_unprivileged : PlanCall → Bool
is_unprivileged (submit p) = true
is_unprivileged (decide id approved by feedback) = not (is_principal by)

-- A property of plans that submissions establish, and the decisions that the calls make.
module _ (P : TeammatePlan → Bool)
    (submitted : (now : ℕ) (p : TeammatePlan) → P (assess now p) ≡ true) where
  Holds : Plans → Type 0
  Holds plans = AllEntries (λ k p. P p ≡ true) plans

  submit-Holds :
      (plans : Plans) (now : ℕ) (p : TeammatePlan)
      → Holds plans
      → Holds (Service.submit plans p now).0
  unfolding Holds Service.submit save
  submit-Holds plans now p h =
      AllEntries-insert (λ k p. P p ≡ true) (assess now p).plan_id (assess now p) plans h
        (submitted now p)

  refused-Holds :
      (plans : Plans) (now : ℕ) (id by feedback : String) (approved : Bool)
      → is_principal by ≡ false
      → Holds plans
      → Holds (Service.decide plans id approved by feedback now).0
  unfolding Service.decide
  refused-Holds plans now id by feedback approved e h = rw e h

  decide-Holds :
      (plans : Plans) (now : ℕ) (id by feedback : String) (approved : Bool)
      → ((p : TeammatePlan) → P (settle approved by feedback now p) ≡ true)
      → Holds plans
      → Holds (Service.decide plans id approved by feedback now).0
  unfolding Holds Service.decide Service.get save
  decide-Holds plans now id by feedback approved settled h = elim (Bool-cases (is_principal by)) [
    | inl e ↦ elim (Option-cases (lookup id plans)) [
      | inl missing ↦ rw (e, missing) h
      | inr (p, found) ↦
          rw (e, found)
            (AllEntries-insert (λ k p. P p ≡ true) p.plan_id (settle approved by feedback now p)
              plans h (settled p))
    ]
    | inr e ↦ rw e h
  ]

call-accounted :
    (plans : Plans) (now : ℕ) (c : PlanCall)
    → Holds is_accounted assess-accounted plans
    → Holds is_accounted assess-accounted (plan_call plans now c)
unfolding plan_call
call-accounted plans now (submit p) h = submit-Holds is_accounted assess-accounted plans now p h
call-accounted plans now (decide id approved by feedback) h = elim (Bool-cases (is_principal by)) [
  | inl e ↦
      decide-Holds is_accounted assess-accounted plans now id by feedback approved
        (λ p. settle-accounted approved by feedback now p e) h
  | inr e ↦ refused-Holds is_accounted assess-accounted plans now id by feedback approved e h
]

call-justified :
    (plans : Plans) (now : ℕ) (c : PlanCall)
    → is_unprivileged c ≡ true
    → Holds is_justified assess-justified plans
    → Holds is_justified assess-justified (plan_call plans now c)
unfolding plan_call
call-justified plans now (submit p) u h = submit-Holds is_justified assess-justified plans now p h
call-justified plans now (decide id approved by feedback) u h =
    refused-Holds is_justified assess-justified plans now id by feedback approved (ground arith) h

accounted_from :
    (cs : List (ℕ × PlanCall)) (plans : Plans)
    → Holds is_accounted assess-accounted plans
    → Holds is_accounted assess-accounted (plan_calls plans cs)
unfolding plan_calls
accounted_from [] plans h = h
accounted_from ((now, c) ∷ cs) plans h =
    accounted_from cs (plan_call plans now c) (call-accounted plans now c h)

justified_from :
    (cs : List (ℕ × PlanCall)) (plans : Plans)
    → All (λ (e : ℕ × PlanCall). is_unprivileged e.1 ≡ true) cs
    → Holds is_justified assess-justified plans
    → Holds is_justified assess-justified (plan_calls plans cs)
unfolding plan_calls
justified_from [] plans u h = h
justified_from ((now, c) ∷ cs) plans u h =
    justified_from cs (plan_call plans now c) u.1 (call-justified plans now c u.0 h)

-- After any history of submissions and decisions on an empty table, a plan that is found there
-- is not approved, or it names a decider whom the service accepts and has a time of decision.
pub approved-accounted :
    (cs : List (ℕ × PlanCall)) (id : String) {p : TeammatePlan}
    → lookup id (plan_calls [] cs) ≡ some p
    → is_accounted p ≡ true
unfolding Holds
approved-accounted cs id e =
    AllEntries-lookup (λ k p. is_accounted p ≡ true) id (plan_calls [] cs) (accounted_from cs [] tt)
      e

-- After any history of submissions and decisions on an empty table in which no decision is
-- made by a decider whom the service accepts, an approved plan has steps and a test strategy,
-- no risks, and at most ten files.
pub approved-justified :
    (cs : List (ℕ × PlanCall)) (id : String) {p : TeammatePlan}
    → All (λ (e : ℕ × PlanCall). is_unprivileged e.1 ≡ true) cs
    → lookup id (plan_calls [] cs) ≡ some p
    → is_approved p.status ≡ true
    → is_harmless p ≡ true
unfolding Holds
approved-justified cs id {p} u e a =
    let j =
      AllEntries-lookup (λ k p. is_justified p ≡ true) id (plan_calls [] cs)
        (justified_from cs [] u tt) e in
    harmless p a j
  where
    harmless :
        (p : TeammatePlan)
        → is_approved p.status ≡ true
        → is_justified p ≡ true
        → is_harmless p ≡ true
    harmless p a j = rw a at j
