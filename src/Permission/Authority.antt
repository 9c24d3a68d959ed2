-- ===== src/Permission/Authority.antt =====
-- app/multiagent/permission.py: histories of the broker's calls, and where authority comes from.
use mega_deepagents.Base.{
  ℕ, String, Bool, true, false, not, Option, none, some, List, [], ◌∷◌, ◌≡◌, refl, arith, keep,
  Bool-cases, inl, inr, string_eq, All, subst, sym,
}
use mega_deepagents.Base.Dict.{has_key, values, AllEntries, AllEntries-insert}
use mega_deepagents.Permission.Request.{
  PermissionKind, PermissionDecision, PermissionRequest, PermissionPolicy, PolicyOutcome,
  new_request, evaluate,
}
use mega_deepagents.Permission.Broker
use mega_deepagents.Permission.Broker.{
  Requests, Verdict, is_approved, is_principal, insert_request, update, matches, matching_grant,
  newest_first, first_usable, blocked, submit, mark_used, by_grant,
}

-- What a tool gives to `authorize` and `request`.
pub record Ask : Type 0 where
  pub request_id : String
  pub run_id : String
  pub agent_id : String
  pub kind : PermissionKind
  pub operation : String
  pub parameters : String
  pub reason : String
  -- The answer of the lifecycle hooks.
  pub hook : Option String

pub data PermissionCall : Type 0 where
  authorize : PermissionPolicy → Ask → PermissionCall
  file_request : Ask → PermissionCall
  decide :
      (request_id : String) (decision : PermissionDecision) (by reason : String) → PermissionCall

-- The call is no decision by a principal.
abbrev pub is_unprivileged : PermissionCall → Bool
is_unprivileged (decide id decision by reason) = not (is_principal by)
is_unprivileged _ = true

Unapproved : Requests → Type 0
Unapproved rows = AllEntries (λ k r. is_approved r.status ≡ false) rows

insert_request-Unapproved :
    (r : PermissionRequest) (rows : Requests)
    → is_approved r.status ≡ false
    → Unapproved rows
    → Unapproved (insert_request r rows)
unfolding insert_request Unapproved
insert_request-Unapproved r rows e h = elim (Bool-cases (has_key r.request_id rows)) [
  | inl taken ↦ rw taken h
  | inr free ↦
      rw free (AllEntries-insert (λ k r. is_approved r.status ≡ false) r.request_id r rows h e)
]

update-Unapproved :
    (r : PermissionRequest) (rows : Requests)
    → is_approved r.status ≡ false
    → Unapproved rows
    → Unapproved (update r rows)
unfolding update Unapproved
update-Unapproved r rows e h = elim (Bool-cases (has_key r.request_id rows)) [
  | inl held ↦
      rw held (AllEntries-insert (λ k r. is_approved r.status ≡ false) r.request_id r rows h e)
  | inr absent ↦ rw absent h
]

submit-Unapproved :
    (rows : Requests) (r : PermissionRequest) (hook : Option String) (now : ℕ)
    → is_approved r.status ≡ false
    → Unapproved rows
    → Unapproved (submit rows r hook now).0
unfolding blocked
submit-Unapproved rows r none now e h = insert_request-Unapproved r rows e h
submit-Unapproved rows r (some feedback) now e h =
    update-Unapproved (blocked feedback now r) (insert_request r rows) refl
      (insert_request-Unapproved r rows e h)

no_match :
    (r : PermissionRequest) (rows : Requests)
    → Unapproved rows
    → keep (matches r) (values rows) ≡ []
unfolding Unapproved matches
no_match r [] h = refl
no_match r ((k, g) ∷ rows) h = ground (arith, no_match r rows)

no_grant :
    (r : PermissionRequest) (rows : Requests) → Unapproved rows → matching_grant rows r ≡ none
unfolding matching_grant
no_grant r rows h = rw (no_match r rows h) refl

asked-same : (rows : Requests) (r : PermissionRequest) → (Broker.asked (rows, r)).0 ≡ rows
asked-same rows r = ground arith

by_policy-Unapproved :
    (rows : Requests) (r : PermissionRequest) (hook : Option String) (now : ℕ) (o : PolicyOutcome)
    → is_approved r.status ≡ false
    → Unapproved rows
    → Unapproved (Broker.by_policy rows r hook now o).0
by_policy-Unapproved rows r hook now PolicyOutcome.allow e h = h
by_policy-Unapproved rows r hook now PolicyOutcome.refuse e h = h
by_policy-Unapproved rows r hook now PolicyOutcome.request e h =
    let (rows', r') = submit rows r hook now in
    subst (λ (x : Requests). Unapproved x) (sym (asked-same rows' r'))
      (submit-Unapproved rows r hook now e h)

by_policy-allowed :
    (rows : Requests) (r : PermissionRequest) (hook : Option String) (now : ℕ) (o : PolicyOutcome)
    → (Broker.by_policy rows r hook now o).1 ≡ Verdict.allowed
    → o ≡ PolicyOutcome.allow
by_policy-allowed rows r hook now o h = ground arith

decide_refused :
    (rows : Requests) (id : String) (decision : PermissionDecision) (by reason : String) (now : ℕ)
    → is_principal by ≡ false
    → (Broker.decide rows id decision by reason now).0 ≡ rows
unfolding Broker.decide
decide_refused rows id decision by reason now e = rw e refl

module _ (digest : PermissionKind → String → String → String) where
  abbrev pub build : ℕ → Ask → PermissionRequest
  build now a =
      new_request digest a.request_id a.run_id a.agent_id a.kind a.operation a.parameters a.reason
        now

  unfoldable pub broker_call : Requests → ℕ → PermissionCall → Requests
  broker_call rows now (authorize p a) = (Broker.authorize rows p (build now a) a.hook now).0
  broker_call rows now (file_request a) = (Broker.file_request rows (build now a) a.hook now).0
  broker_call rows now (decide id decision by reason) =
      (Broker.decide rows id decision by reason now).0

  unfoldable pub broker_calls : Requests → List (ℕ × PermissionCall) → Requests
  unfolding broker_call
  broker_calls rows [] = rows
  broker_calls rows ((now, c) ∷ cs) = broker_calls (broker_call rows now c) cs

  build-pending : (now : ℕ) (a : Ask) → is_approved (build now a).status ≡ false
  unfolding new_request
  build-pending now a = refl

  call-Unapproved :
      (rows : Requests) (now : ℕ) (c : PermissionCall)
      → is_unprivileged c ≡ true
      → Unapproved rows
      → Unapproved (broker_call rows now c)
  unfolding broker_call Broker.authorize Broker.file_request Broker.decide
  call-Unapproved rows now (authorize p a) u h =
      let r = build now a in
      subst (λ (o : Option PermissionRequest). Unapproved (by_grant rows p r a.hook now o).0)
        (sym (no_grant r rows h))
        (by_policy-Unapproved rows r a.hook now (evaluate p r.kind) (build-pending now a) h)
  call-Unapproved rows now (file_request a) u h =
      submit-Unapproved rows (build now a) a.hook now (build-pending now a) h
  call-Unapproved rows now (decide id decision by reason) u h =
      elim (Bool-cases (is_principal by)) [
        | inl e ↦ cc (e, u)
        | inr e ↦
            subst (λ (x : Requests). Unapproved x)
              (sym (decide_refused rows id decision by reason now e)) h
      ]

  calls-Unapproved :
      (cs : List (ℕ × PermissionCall)) (rows : Requests)
      → All (λ (e : ℕ × PermissionCall). is_unprivileged e.1 ≡ true) cs
      → Unapproved rows
      → Unapproved (broker_calls rows cs)
  unfolding broker_calls
  calls-Unapproved [] rows u h = h
  calls-Unapproved ((now, c) ∷ cs) rows u h =
      calls-Unapproved cs (broker_call rows now c) u.1 (call-Unapproved rows now c u.0 h)

  -- After any history of authorize, request and decide on an empty table in which no decision is
  -- made by a user or lead principal, authorize allows an operation only if the policy allows
  -- its kind.
  pub authority_from_principals :
      (cs : List (ℕ × PermissionCall)) (p : PermissionPolicy) (a : Ask) (now : ℕ)
      → All (λ (e : ℕ × PermissionCall). is_unprivileged e.1 ≡ true) cs
      → (Broker.authorize (broker_calls [] cs) p (build now a) a.hook now).1 ≡ Verdict.allowed
      → evaluate p a.kind ≡ PolicyOutcome.allow
  unfolding Broker.authorize Unapproved new_request
  authority_from_principals cs p a now u h =
      let rows = broker_calls [] cs in
      by_policy-allowed rows (build now a) a.hook now (evaluate p a.kind)
        (rw (no_grant (build now a) rows (calls-Unapproved cs [] u tt)) at h)
