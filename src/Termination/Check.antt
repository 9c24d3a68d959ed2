-- ===== src/Termination/Check.antt =====
-- app/multiagent/termination.py: `check` and `_extract_steps_from_plan`. Python's `splitlines`,
-- `strip` and `lstrip("-*0123456789. ")` are parameters.
use Prim.Native.String.{◌++◌ as join}
use mega_deepagents.Base.{
  ℕ, ◌+◌, String, Bool, true, false, not, ◌&&◌, ◌||◌, Option, none, some, List, [], ◌∷◌, any, all,
  leb, ltb, if◌then◌else◌, contains, ◌==◌, string_eq,
}
use mega_deepagents.Base.Decimal.{decimal}
use mega_deepagents.Termination.Rules.{
  TeamPhase, MessageType, SharedTeamState, TerminationRules, StallCounts, TerminationDecision,
  stop_with, go_on, open_issues, has_open_blocking_issues, ended_in, is_closing, is_final, is_error,
  is_no_op,
}

-- The methods of texts that are used.
pub record TextMethods : Type 0 where
  pub splitlines : String → List String
  pub strip : String → String
  pub lstrip_marks : String → String

abbrev pub is_nil {ℓ} : {A : Type ℓ} → List A → Bool
is_nil [] = true
is_nil (_ ∷ _) = false

-- A text or None, as a test.
abbrev pub has_text : Option String → Bool
has_text none = false
has_text (some text) = not (text == "")

unfoldable pub extract_lines : TextMethods → List String → List String
extract_lines t [] = []
extract_lines t (line ∷ lines) =
    let rest = extract_lines t lines in
    let s = t.strip line in if s == "" then rest else t.strip (t.lstrip_marks s) ∷ rest

-- `_extract_steps_from_plan`
unfoldable pub extract_steps_from_plan : TextMethods → String → List String
unfolding extract_lines
extract_steps_from_plan t plan = if plan == "" then [] else extract_lines t (t.splitlines plan)

-- The plan has steps, none of them open, and no question or issue is.
unfoldable pub all_steps_completed : TextMethods → SharedTeamState → Bool
unfolding extract_steps_from_plan open_issues
all_steps_completed t s =
    not (s.plan == "")
    && is_nil s.open_questions
    && is_nil (open_issues s)
    && all (contains s.completed_steps) (extract_steps_from_plan t s.plan)

abbrev pub review_passed : SharedTeamState → Bool
review_passed s =
    (elim s.review_status [ none ↦ false | some text ↦ text == "passed" ]) && is_closing s.phase

abbrev pub Checked : Type 0
Checked = StallCounts × TerminationDecision

-- An `if`, shut so that a proof meets the tests one by one.
unfoldable pub choose : Bool → Checked → Checked → Checked
choose b x y = if b then x else y

-- The tests after the counters.
unfoldable pub check_last :
    TerminationRules → StallCounts → SharedTeamState → List MessageType → Checked
unfolding has_open_blocking_issues
check_last rules c s ms =
    choose (any is_error ms) (c, stop_with "error_message" TeamPhase.failed)
      (choose (has_open_blocking_issues s && ltb rules.max_review_cycles s.review_cycles)
        (c, stop_with "blocking_issue_unresolved" TeamPhase.failed) (c, go_on "continue"))

-- The rounds in which all messages are empty actions.
unfoldable pub check_no_op :
    TerminationRules → StallCounts → SharedTeamState → List MessageType → Checked
unfolding check_last
check_no_op rules c s ms =
    let counted = record c { no_op_count = c.no_op_count + 1 } in
    choose (not (is_nil ms) && all is_no_op ms)
      (choose (leb rules.max_stale_rounds counted.no_op_count)
        (counted, stop_with "stale_no_op" TeamPhase.failed) (check_last rules counted s ms))
      (check_last rules (record c { no_op_count = 0 }) s ms)

-- The rounds that delivered nothing.
unfoldable pub check_delivery :
    TerminationRules → StallCounts → SharedTeamState → List MessageType → Option Bool → Checked
unfolding check_no_op
check_delivery rules c s ms none = check_no_op rules c s ms
check_delivery rules c s ms (some productive) =
    let counted = record c { unproductive_count = c.unproductive_count + 1 } in
    choose (not productive && not (has_text s.final_output))
      (choose (leb rules.max_stale_rounds counted.unproductive_count)
        (counted, stop_with "stale_no_progress" TeamPhase.failed) (check_no_op rules counted s ms))
      (check_no_op rules (record c { unproductive_count = 0 }) s ms)

abbrev cycles_text : ℕ → String
cycles_text cycles = join "max_review_cycles_exceeded (" (join (decimal cycles) ")")

-- The tests before the counters, for a phase that has not ended.
unfoldable pub check_open :
    TextMethods
    → TerminationRules
    → StallCounts
    → SharedTeamState
    → List MessageType
    → ℕ
    → Option Bool
    → Checked
unfolding all_steps_completed check_delivery decimal
check_open t rules c s ms round productive =
    choose s.cancel_requested (c, stop_with "cancel_requested" TeamPhase.cancelled)
      (choose (rules.policy == "manual_only") (c, go_on "manual_only")
        (choose (leb s.max_rounds round)
          (choose (has_text s.final_output || review_passed s)
            (c, stop_with "max_rounds_with_success" TeamPhase.completed)
            (c, stop_with "max_rounds" TeamPhase.incomplete))
          (choose (has_text s.final_output) (c, stop_with "final_output_set" TeamPhase.completed)
            (choose (any is_final ms) (c, stop_with "final_message_produced" TeamPhase.completed)
              (choose (rules.policy == "all_steps_completed" && all_steps_completed t s)
                (c, stop_with "all_steps_completed" TeamPhase.completed)
                (choose (rules.review_required && review_passed s)
                  (c, stop_with "review_passed" TeamPhase.completed)
                  (choose (rules.review_required && ltb rules.max_review_cycles s.review_cycles)
                    (c, stop_with (cycles_text s.review_cycles) TeamPhase.failed)
                    (check_delivery rules c s ms productive))))))))

abbrev pub unless_ended : Option String → StallCounts → TeamPhase → Checked → Checked
unless_ended none c phase rest = rest
unless_ended (some text) c phase rest = (c, stop_with (join "phase_already_" text) phase)

-- `check`
unfoldable pub check :
    TextMethods
    → TerminationRules
    → StallCounts
    → SharedTeamState
    → List MessageType
    → ℕ
    → Option Bool
    → Checked
unfolding check_open
check t rules c s ms round productive =
    unless_ended (ended_in s.phase) c s.phase (check_open t rules c s ms round productive)
