-- ===== src/RetryPolicy/Backoff.antt =====
-- app/runtime/reliability.py: the delays that `decide` orders, and what it never retries.
use mega_deepagents.Base.{
  ℕ, suc, ◌-◌, ◌*◌, ◌^◌, min, ◌≤◌, String, true, false, Option, ◌≡◌, arith, ◌||◌,
}
use native.Mathlib.Nat.{one-le-pow, mul-le-mul_left, two-pow-succ}
use mega_deepagents.RetryPolicy.Policy.{
  RetryPolicy, FailureCategory, new_policy, classify, decide, decide_as, needs_intervention,
  base_of, cap_of, mentions, cancel_markers, auth_markers, permission_markers,
}

base-le-cap :
    (b m : ℕ) (lb lm : Option ℕ) (c : FailureCategory)
    → base_of (new_policy b m lb lm) c ≤ cap_of (new_policy b m lb lm) c
unfolding base_of cap_of new_policy
base-le-cap b m lb lm FailureCategory.rate_limited = omega arith
base-le-cap b m lb lm FailureCategory.transient = omega arith
base-le-cap b m lb lm FailureCategory.timeout = omega arith
base-le-cap b m lb lm FailureCategory.authentication = omega arith
base-le-cap b m lb lm FailureCategory.permission = omega arith
base-le-cap b m lb lm FailureCategory.contract = omega arith
base-le-cap b m lb lm FailureCategory.cancelled = omega arith
base-le-cap b m lb lm FailureCategory.unknown = omega arith

at-least_base : (base cap n : ℕ) → base ≤ cap → base ≤ min cap (base * 2 ^ n)
at-least_base base cap n h = omega (arith, mul-le-mul_left base (one-le-pow n 2 (omega arith)))

-- Under a policy that the constructor built, a retry waits at least the base delay of the
-- error's category and at most its cap.
pub decide_bounded :
    (lower : String → String) (b m : ℕ) (lb lm : Option ℕ) (error : String)
    (attempt max_attempts : ℕ)
    → (decide lower (new_policy b m lb lm) error attempt max_attempts).retryable ≡ true
    → (base_of (new_policy b m lb lm) (classify lower error)
        ≤ (decide lower (new_policy b m lb lm) error attempt max_attempts).delay)
      × ((decide lower (new_policy b m lb lm) error attempt max_attempts).delay
          ≤ cap_of (new_policy b m lb lm) (classify lower error))
unfolding decide decide_as
decide_bounded lower b m lb lm error attempt max_attempts h =
    let c = classify lower error in
    let p = new_policy b m lb lm in
    rw h (
      at-least_base (base_of p c) (cap_of p c) (attempt - 1) (base-le-cap b m lb lm c),
      omega arith,
    )

base-doubled : (base n : ℕ) → base * 2 ^ suc n ≡ 2 * (base * 2 ^ n)
base-doubled base n = grind (arith, two-pow-succ n)

doubled :
    (base limit n : ℕ) → min limit (base * 2 ^ suc n) ≡ min limit (2 * min limit (base * 2 ^ n))
doubled base limit n = omega (arith, base-doubled base n)

-- Where an attempt from the second on is retried, its delay is twice the delay of the attempt
-- before it, cut at the cap of the error's category.
pub decide_doubles :
    (lower : String → String) (p : RetryPolicy) (error : String) (n max_attempts : ℕ)
    → (decide lower p error (suc (suc n)) max_attempts).retryable ≡ true
    → (decide lower p error (suc (suc n)) max_attempts).delay
      ≡ min
          (cap_of p (classify lower error))
          (2 * (decide lower p error (suc n) max_attempts).delay)
unfolding decide decide_as
decide_doubles lower p error n max_attempts h =
    ground (arith, doubled (base_of p (classify lower error)) (cap_of p (classify lower error)) n)

-- An error that mentions a cancellation, an authentication or a permission marker is not
-- retried, whatever else it mentions.
pub decide-intervention :
    (lower : String → String) (p : RetryPolicy) (error : String) (attempt max_attempts : ℕ)
    → (mentions cancel_markers (lower error)
        || mentions auth_markers (lower error)
        || mentions permission_markers (lower error))
      ≡ true
    → (decide lower p error attempt max_attempts).retryable ≡ false
unfolding decide decide_as classify needs_intervention
decide-intervention lower p error attempt max_attempts h = ground arith
