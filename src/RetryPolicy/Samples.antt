-- ===== src/RetryPolicy/Samples.antt =====
-- app/runtime/reliability.py: the default policy on some errors. They are in lower case, where
-- `str.lower` is the identity.
use mega_deepagents.Base.{◌≤◌, String, true, ◌||◌, none, ◌≡◌, refl}
use mega_deepagents.RetryPolicy.Policy.{
  RetryPolicy, FailureCategory, new_policy, classify, decide, base_of, cap_of, mentions,
  cancel_markers, auth_markers, permission_markers,
}
use mega_deepagents.RetryPolicy.Backoff

abbrev same : String → String
same s = s

abbrev standard : RetryPolicy
standard = new_policy 2000 60000 none none

abbrev throttled : String
throttled = "http 429: rate limit reached"

retried : (decide same standard throttled 3 4).retryable ≡ true
unfolding decide mega_deepagents.RetryPolicy.Policy.decide_as
    mega_deepagents.RetryPolicy.Policy.needs_intervention classify mentions
retried = refl

-- A rate limited failure of the third attempt waits for a minute.
waits : (decide same standard throttled 3 4).delay ≡ 60000
unfolding decide mega_deepagents.RetryPolicy.Policy.decide_as
    mega_deepagents.RetryPolicy.Policy.needs_intervention classify mentions cap_of new_policy
    base_of
waits = refl

decide_bounded_example :
    (base_of standard (classify same throttled) ≤ (decide same standard throttled 3 4).delay)
    × ((decide same standard throttled 3 4).delay ≤ cap_of standard (classify same throttled))
decide_bounded_example = Backoff.decide_bounded same 2000 60000 none none throttled 3 4 retried

marked :
    (mentions cancel_markers "401 after a network timeout"
      || mentions auth_markers "401 after a network timeout"
      || mentions permission_markers "401 after a network timeout")
    ≡ true
unfolding mentions
marked = refl
