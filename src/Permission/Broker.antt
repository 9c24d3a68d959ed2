-- ===== src/Permission/Broker.antt =====
-- app/multiagent/permission.py: `PermissionBroker` over its table of requests. What the lifecycle
-- hooks answer to a new request is an argument: the feedback of one that blocks it, if one does.
-- The audit's events are left out.
use text.Mathlib.Text.{starts_with}
use mega_deepagents.Base.{
  ℕ, String, Bool, true, false, ◌&&◌, ◌||◌, Option, none, some, List, [], ◌∷◌, if◌then◌else◌, leb,
  ltb, keep, is_none, ◌==◌, string_eq,
}
use mega_deepagents.Base.Lists.{sort_by}
use mega_deepagents.Base.Dict.{Dict, lookup, insert, has_key, values}
use mega_deepagents.Permission.Request.{
  PermissionKind, PermissionDecision, PermissionRequest, PermissionPolicy, PolicyOutcome,
  RequestStatus, approve_once, approve_for_run, deny, deny_with_feedback, pending, approved, denied,
  allow, request, refuse, evaluate,
}
use mega_deepagents.Permission.Request

abbrev pub Requests : Type 0
Requests = Dict String PermissionRequest

pub data Verdict : Type 0 where
  allowed : Verdict
  -- PermissionDenied, with the kind and the operation, or with a hook's feedback
  denied_by_policy : PermissionKind → String → Verdict
  denied_by_hook : String → Verdict
  -- PermissionRequired
  permission_required : PermissionRequest → Verdict

pub data Decided : Type 0 where
  decided : PermissionRequest → Decided
  -- PermissionError
  not_a_principal : Decided
  -- KeyError
  no_such_request : String → Decided

abbrev pub is_pending : RequestStatus → Bool
is_pending pending = true
is_pending _ = false

abbrev pub is_approved : RequestStatus → Bool
is_approved approved = true
is_approved _ = false

abbrev pub is_for_run : Option PermissionDecision → Bool
is_for_run (some approve_for_run) = true
is_for_run _ = false

abbrev pub is_once : Option PermissionDecision → Bool
is_once (some approve_once) = true
is_once _ = false

-- `_insert`, which ignores a request whose id is taken.
unfoldable pub insert_request : PermissionRequest → Requests → Requests
insert_request r rows = if has_key r.request_id rows then rows else insert r.request_id r rows

-- `_update`, which changes a row that is there.
unfoldable pub update : PermissionRequest → Requests → Requests
update r rows = if has_key r.request_id rows then insert r.request_id r rows else rows

abbrev mark_found : Requests → ℕ → Option PermissionRequest → Requests
mark_found rows now none = rows
mark_found rows now (some r) = update (record r { used_at = some now }) rows

-- `_mark_used`
unfoldable pub mark_used : Requests → String → ℕ → Requests
unfolding update
mark_used rows request_id now = mark_found rows now (lookup request_id rows)

-- The rows that the query of `_matching_grant` selects.
unfoldable pub matches : PermissionRequest → PermissionRequest → Bool
matches r g =
    (g.run_id == r.run_id)
    && (g.agent_id == r.agent_id)
    && (g.fingerprint == r.fingerprint)
    && is_approved g.status

unfoldable pub insert_newest : PermissionRequest → List PermissionRequest → List PermissionRequest
insert_newest g [] = g ∷ []
insert_newest g (h ∷ hs) =
    let rest = insert_newest g hs in if leb h.created_at g.created_at then g ∷ h ∷ hs else h ∷ rest

-- `ORDER BY created_at DESC`
unfoldable pub newest_first : List PermissionRequest → List PermissionRequest
unfolding insert_newest
newest_first [] = []
newest_first (g ∷ gs) = insert_newest g (newest_first gs)

-- The first grant that may still be used.
unfoldable pub first_usable : List PermissionRequest → Option PermissionRequest
first_usable [] = none
first_usable (g ∷ gs) =
    let rest = first_usable gs in
    if is_for_run g.decision || is_none g.used_at then some g else rest

-- `_matching_grant`
unfoldable pub matching_grant : Requests → PermissionRequest → Option PermissionRequest
unfolding matches newest_first first_usable
matching_grant rows r = first_usable (newest_first (keep (matches r) (values rows)))

-- `result.feedback or "PermissionRequested hook denied"`
abbrev feedback_text : String → String
feedback_text feedback = if feedback == "" then "PermissionRequested hook denied" else feedback

-- `_emit_requested_hook` when a hook blocks the request.
unfoldable pub blocked : String → ℕ → PermissionRequest → PermissionRequest
blocked feedback now r = record r {
  status = denied;
  decision = some deny_with_feedback;
  decided_by = some "policy:hook";
  decision_reason = feedback_text feedback;
  decided_at = some now;
}

-- `_insert` and the hook.
abbrev pub submit : Requests → PermissionRequest → Option String → ℕ → Requests × PermissionRequest
submit rows r none now = (insert_request r rows, r)
submit rows r (some feedback) now =
    (update (blocked feedback now r) (insert_request r rows), blocked feedback now r)

abbrev pub asked : Requests × PermissionRequest → Requests × Verdict
asked (rows, r) = elim r.status [
  | RequestStatus.denied ↦ (rows, denied_by_hook r.decision_reason)
  | _ ↦ (rows, permission_required r)
]

abbrev pub by_policy :
    Requests → PermissionRequest → Option String → ℕ → PolicyOutcome → Requests × Verdict
by_policy rows r hook now allow = (rows, allowed)
by_policy rows r hook now refuse = (rows, denied_by_policy r.kind r.operation)
by_policy rows r hook now request = asked (submit rows r hook now)

abbrev pub by_grant :
    Requests
    → PermissionPolicy
    → PermissionRequest
    → Option String
    → ℕ
    → Option PermissionRequest
    → Requests × Verdict
by_grant rows p r hook now none = by_policy rows r hook now (evaluate p r.kind)
by_grant rows p r hook now (some g) =
    (if is_once g.decision then mark_used rows g.request_id now else rows, allowed)

-- `authorize`, given the request that it builds.
unfoldable pub authorize :
    Requests → PermissionPolicy → PermissionRequest → Option String → ℕ → Requests × Verdict
unfolding matching_grant evaluate mark_used insert_request update blocked
authorize rows p r hook now = by_grant rows p r hook now (matching_grant rows r)

-- `request`, given the request that it builds.
unfoldable pub file_request :
    Requests → PermissionRequest → Option String → ℕ → Requests × PermissionRequest
unfolding insert_request update blocked
file_request rows r hook now = submit rows r hook now

unfoldable pub is_principal : String → Bool
is_principal by = by == "user" || starts_with by "user:" || by == "lead" || starts_with by "lead:"

abbrev approves : PermissionDecision → Bool
approves approve_once = true
approves approve_for_run = true
approves _ = false

unfoldable pub settle :
    PermissionDecision → String → String → ℕ → PermissionRequest → PermissionRequest
settle decision by reason now r = record r {
  status = if approves decision then approved else denied;
  decision = some decision;
  decided_by = some by;
  decision_reason = reason;
  scope = if is_for_run (some decision) then Request.run else Request.once;
  decided_at = some now;
}

abbrev decide_found :
    Requests
    → String
    → PermissionDecision
    → String
    → String
    → ℕ
    → Option PermissionRequest
    → Requests × Decided
decide_found rows id decision by reason now none = (rows, no_such_request id)
decide_found rows id decision by reason now (some r) =
    if is_pending r.status
    then (update (settle decision by reason now r) rows, decided (settle decision by reason now r))
    else (rows, decided r)

unfoldable pub decide :
    Requests → String → PermissionDecision → String → String → ℕ → Requests × Decided
unfolding is_principal settle update
decide rows id decision by reason now =
    if is_principal by
    then decide_found rows id decision by reason now (lookup id rows)
    else (rows, not_a_principal)

-- `list_pending`; the rows in the order of their creation
unfoldable pub list_pending : Requests → String → List PermissionRequest
list_pending rows run_id =
    sort_by (λ q r. ltb q.created_at r.created_at)
      (keep (λ r. r.run_id == run_id && is_pending r.status) (values rows))
