-- ===== src/Termination/Success.antt =====
-- app/multiagent/termination.py: what a run that is decided COMPLETED shows.
use mega_deepagents.Base.{
  Bool, true, false, ◌&&◌, ◌||◌, Option, none, some, List, any, ◌≡◌, ◌==◌, string_eq,
}
use mega_deepagents.Termination.Rules.{
  TeamPhase, MessageType, SharedTeamState, TerminationRules, is_final, is_completed,
}
use mega_deepagents.Termination.Check.{
  TextMethods, has_text, all_steps_completed, review_passed, Checked,
}

-- The test's answer is known in each branch.
-- What a completed run shows: an output, a final message, all steps of the plan under the policy that
-- asks for them, or a review that it passed.
abbrev pub shows_success :
    TextMethods → TerminationRules → SharedTeamState → List MessageType → Bool
shows_success t rules s ms =
    has_text s.final_output
    || any is_final ms
    || (rules.policy == "all_steps_completed" && all_steps_completed t s)
    || review_passed s

abbrev pub completes : Option TeamPhase → Bool
completes none = false
completes (some phase) = is_completed phase

-- A decision that completes the run is one of a run that shows its success.
data Justified (success : Bool) : Checked → Type 0 where
  not_complete : {r : Checked} → completes r.1.final_phase ≡ false → Justified success r
  shown : {r : Checked} → success ≡ true → Justified success r
