-- ===== src/Termination/Rules.antt =====
-- app/multiagent/termination.py, and what it reads of app/multiagent/state.py and
-- app/multiagent/messages.py: the state of the team, the messages of a round, the checker and its
-- decisions. A message is its type, and of an issue its status and severity are kept.
use mega_deepagents.Base.{ℕ, String, Bool, true, false, ◌&&◌, Option, none, some, List, any, keep}

pub data TeamPhase : Type 0 where
  created planning discussing executing reviewing repairing finalizing : TeamPhase
  completed failed cancelled incomplete timed_out waiting_human : TeamPhase

pub data MessageType : Type 0 where
  user_request plan delegation question answer observation tool_result : MessageType
  proposal critique revision_plan revision_done review_request review_result : MessageType
  handoff decision state_update artifact_created final error blocking_issue : MessageType
  test_request test_result research_request task_assignment progress no_op : MessageType

pub data IssueSeverity : Type 0 where
  low medium high blocker : IssueSeverity

pub data IssueStatus : Type 0 where
  opened in_progress resolved wont_fix : IssueStatus

pub record TeamIssue : Type 0 where
  pub status : IssueStatus
  pub severity : IssueSeverity

pub record SharedTeamState : Type 0 where
  pub phase : TeamPhase
  pub plan : String
  pub max_rounds : ℕ
  pub open_questions : List String
  pub issues : List TeamIssue
  pub completed_steps : List String
  pub review_status : Option String
  pub review_cycles : ℕ
  pub final_output : Option String
  pub cancel_requested : Bool

-- The fields that the constructor sets once.
pub record TerminationRules : Type 0 where
  pub policy : String
  pub max_stale_rounds : ℕ
  pub review_required : Bool
  pub max_review_cycles : ℕ

-- The counters of the checker, which its calls change.
pub record StallCounts : Type 0 where
  pub no_op_count : ℕ
  pub unproductive_count : ℕ

abbrev pub no_stalls : StallCounts
no_stalls = record { no_op_count = 0; unproductive_count = 0 }

pub record TerminationDecision : Type 0 where
  pub should_terminate : Bool
  pub reason : String
  pub final_phase : Option TeamPhase

abbrev pub stop_with : String → TeamPhase → TerminationDecision
stop_with reason phase = record {
  should_terminate = true;
  reason = reason;
  final_phase = some phase;
}

abbrev pub go_on : String → TerminationDecision
go_on reason = record { should_terminate = false; reason = reason; final_phase = none }

abbrev pub is_open : TeamIssue → Bool
is_open i = elim i.status [ IssueStatus.opened ↦ true | _ ↦ false ]

abbrev pub is_severe : TeamIssue → Bool
is_severe i = elim i.severity [
  | IssueSeverity.high ↦ true
  | IssueSeverity.blocker ↦ true
  | _ ↦ false
]

-- `open_issues`
unfoldable pub open_issues : SharedTeamState → List TeamIssue
open_issues s = keep is_open s.issues

-- `has_open_blocking_issues`
unfoldable pub has_open_blocking_issues : SharedTeamState → Bool
has_open_blocking_issues s = any (λ i. is_open i && is_severe i) s.issues

-- The phases in which the check ends at once, and their texts.
abbrev pub ended_in : TeamPhase → Option String
ended_in TeamPhase.completed = some "completed"
ended_in TeamPhase.failed = some "failed"
ended_in TeamPhase.cancelled = some "cancelled"
ended_in _ = none

-- `state.phase in (TeamPhase.REVIEWING, TeamPhase.FINALIZING)`
abbrev pub is_closing : TeamPhase → Bool
is_closing TeamPhase.reviewing = true
is_closing TeamPhase.finalizing = true
is_closing _ = false

abbrev pub is_completed : TeamPhase → Bool
is_completed TeamPhase.completed = true
is_completed _ = false

abbrev pub is_final : MessageType → Bool
is_final MessageType.final = true
is_final _ = false

abbrev pub is_error : MessageType → Bool
is_error MessageType.error = true
is_error _ = false

abbrev pub is_no_op : MessageType → Bool
is_no_op MessageType.no_op = true
is_no_op _ = false
