-- ===== src/RetryPolicy/Policy.antt =====
-- app/runtime/reliability.py: `RetryPolicy`. Delays are whole milliseconds, so that `round(delay, 3)`
-- is the identity; `lower` stands for Python's `str.lower`, which is not code of the repository.
use text.Mathlib.Text.{find?}
use mega_deepagents.Base.{
  ℕ, ◌-◌, ◌*◌, ◌^◌, min, max, String, Bool, true, false, not, ◌&&◌, Option, none, some, List, [],
  ◌∷◌, any, if◌then◌else◌, ltb, is_some,
}

pub data FailureCategory : Type 0 where
  transient rate_limited timeout authentication permission contract cancelled unknown :
      FailureCategory

pub data DecisionReason : Type 0 where
  retry_budget_available retry_budget_exhausted : DecisionReason
  -- `f"{category.value}_requires_intervention"`
  requires_intervention : FailureCategory → DecisionReason

pub record RetryDecision : Type 0 where
  pub category : FailureCategory
  pub retryable : Bool
  pub delay : ℕ
  pub reason : DecisionReason

pub record RetryPolicy : Type 0 where
  pub base_delay : ℕ
  pub max_delay : ℕ
  pub rate_limit_base_delay : ℕ
  pub rate_limit_max_delay : ℕ

abbrev pub rate_limit_markers : List String
rate_limit_markers =
    "429" ∷ "rate limit" ∷ "rate_limit" ∷ "too many requests" ∷ "quota temporarily" ∷ []

abbrev pub timeout_markers : List String
timeout_markers =
    "timeout" ∷ "timed out" ∷ "deadline exceeded" ∷ "read timeout" ∷ "connect timeout" ∷ []

abbrev pub transient_markers : List String
transient_markers =
    "connection reset" ∷ "connection aborted" ∷ "connection refused" ∷ "temporarily unavailable"
    ∷ "service unavailable" ∷ "bad gateway" ∷ "gateway timeout" ∷ "remote protocol" ∷ "network"
    ∷ "502" ∷ "503" ∷ "504" ∷ []

abbrev pub auth_markers : List String
auth_markers = "401" ∷ "invalid api key" ∷ "authentication" ∷ "unauthorized" ∷ []

abbrev pub permission_markers : List String
permission_markers =
    "permission required" ∷ "permission denied" ∷ "approval required" ∷ "forbidden" ∷ "403" ∷ []

abbrev pub contract_markers : List String
contract_markers =
    "validation error" ∷ "invalid request" ∷ "schema" ∷ "output contract"
    ∷ "dependency_not_verified" ∷ "artifact_integrity_failed" ∷ []

abbrev pub cancel_markers : List String
cancel_markers = "cancelled" ∷ "canceled" ∷ "agent_stopped" ∷ []

-- `any(marker in value for marker in markers)`
unfoldable pub mentions : List String → String → Bool
mentions markers value = any (λ marker. is_some (find? value marker)) markers

-- `or default if None`
abbrev pub default_to : ℕ → Option ℕ → ℕ
default_to d none = d
default_to d (some n) = n

-- `__init__`: each cap is at least its base.
unfoldable pub new_policy : ℕ → ℕ → Option ℕ → Option ℕ → RetryPolicy
new_policy base cap limit_base limit_cap = record {
  base_delay = base;
  max_delay = max base cap;
  rate_limit_base_delay = default_to 15000 limit_base;
  rate_limit_max_delay = max (default_to 15000 limit_base) (default_to 300000 limit_cap);
}

-- The categories that are left to a person.
unfoldable pub needs_intervention : FailureCategory → Bool
needs_intervention FailureCategory.authentication = true
needs_intervention FailureCategory.permission = true
needs_intervention FailureCategory.contract = true
needs_intervention FailureCategory.cancelled = true
needs_intervention _ = false

unfoldable pub base_of : RetryPolicy → FailureCategory → ℕ
base_of p FailureCategory.rate_limited = p.rate_limit_base_delay
base_of p _ = p.base_delay

unfoldable pub cap_of : RetryPolicy → FailureCategory → ℕ
cap_of p FailureCategory.rate_limited = p.rate_limit_max_delay
cap_of p _ = p.max_delay

abbrev pub delay_for : RetryPolicy → FailureCategory → ℕ → ℕ
delay_for p c attempt = min (cap_of p c) (base_of p c * 2 ^ (attempt - 1))

-- The body of `decide` once the failure is classified.
unfoldable pub decide_as : RetryPolicy → FailureCategory → ℕ → ℕ → RetryDecision
decide_as p c attempt max_attempts =
    let has_budget = ltb attempt max_attempts in
    let retryable = has_budget && not (needs_intervention c) in
    record {
      category = c;
      retryable = retryable;
      delay = if retryable then delay_for p c attempt else 0;
      reason =
          if retryable
          then retry_budget_available
          else if not has_budget
          then retry_budget_exhausted
          else requires_intervention c;
    }

module _ (lower : String → String) where
  unfoldable pub classify : String → FailureCategory
  classify error =
      let value = lower error in
      if mentions cancel_markers value
      then FailureCategory.cancelled
      else if mentions auth_markers value
      then FailureCategory.authentication
      else if mentions permission_markers value
      then FailureCategory.permission
      else if mentions rate_limit_markers value
      then FailureCategory.rate_limited
      else if mentions timeout_markers value
      then FailureCategory.timeout
      else if mentions transient_markers value
      then FailureCategory.transient
      else if mentions contract_markers value
      then FailureCategory.contract
      else FailureCategory.unknown

  unfoldable pub decide : RetryPolicy → String → ℕ → ℕ → RetryDecision
  decide p error attempt max_attempts = decide_as p (classify error) attempt max_attempts
