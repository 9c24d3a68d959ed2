-- ===== src/Termination/Samples.antt =====
-- app/multiagent/termination.py: a run that delivers nothing, and one that has its output.
use mega_deepagents.Base.{
  ℕ, String, Bool, true, false, Option, none, some, List, [], ◌∷◌, ◌≡◌, refl, arith, string_eq,
  ◌==◌,
}
use mega_deepagents.Termination.Rules.{
  TeamPhase, MessageType, SharedTeamState, TerminationRules, StallCounts, no_stalls,
}
use mega_deepagents.Termination.Check.{TextMethods}
use mega_deepagents.Termination.Success
use mega_deepagents.Termination.Stalls
use mega_deepagents.Termination.Stalls.{Round, ends_within}

-- Texts of one line, without blanks.
abbrev plain : TextMethods
plain = record { splitlines = λ text. text ∷ []; strip = λ text. text; lstrip_marks = λ text. text }

abbrev rules : TerminationRules
rules = record {
  policy = "all_steps_completed";
  max_stale_rounds = 2;
  review_required = true;
  max_review_cycles = 3;
}

abbrev executing : SharedTeamState
executing = record {
  phase = TeamPhase.executing;
  plan = "build";
  max_rounds = 20;
  open_questions = [];
  issues = [];
  completed_steps = [];
  review_status = none;
  review_cycles = 0;
  final_output = none;
  cancel_requested = false;
}

abbrev built : SharedTeamState
built = record executing { completed_steps = "build" ∷ [] }

abbrev idle_rounds : List Round
idle_rounds =
    (executing, MessageType.progress ∷ [], 1) ∷ (executing, MessageType.answer ∷ [], 2) ∷ []

automatic : ◌==◌ {A = String} "all_steps_completed" "manual_only" ≡ false
unfolding mega_deepagents.Base.Equality.string_eq
automatic = refl

-- One round without progress before them.
abbrev stalled_once : StallCounts
stalled_once = record no_stalls { unproductive_count = 1 }

stalled_run_ends_example : ends_within plain rules stalled_once idle_rounds ≡ true
stalled_run_ends_example =
    Stalls.stalled_run_ends plain rules idle_rounds stalled_once automatic (omega arith)
      (omega arith)
