-- ===== src/Termination/Stalls.antt =====
-- app/multiagent/termination.py: rounds without progress end.
use mega_deepagents.Base.{
  ℕ, suc, ◌+◌, ◌≤◌, ◌<◌, String, Bool, true, false, ◌||◌, Option, none, some, List, [], ◌∷◌, ◌≡◌,
  refl, arith, ◌==◌, string_eq, length,
}
use mega_deepagents.Termination.Rules.{
  TeamPhase, MessageType, SharedTeamState, TerminationRules, StallCounts, ended_in,
}
use mega_deepagents.Termination.Check.{
  TextMethods, has_text, Checked, choose, check_last, check_no_op, check_delivery, check_open,
  unless_ended, check,
}

-- The test's answer is known in each branch.
-- A round without progress ends the run, or is counted, with more to go to the limit.
data Stalls (rules : TerminationRules) (count : ℕ) : Checked → Type 0 where
  ends : {r : Checked} → r.1.should_terminate ≡ true → Stalls rules count r
  counts :
      {r : Checked}
      → r.0.unproductive_count ≡ suc count
      → suc count < rules.max_stale_rounds
      → Stalls rules count r

choose-Stalls :
    {rules : TerminationRules} {count : ℕ} (b : Bool) (x y : Checked)
    → (b ≡ true → Stalls rules count x)
    → (b ≡ false → Stalls rules count y)
    → Stalls rules count (choose b x y)
unfolding choose
choose-Stalls true x y f g = f refl
choose-Stalls false x y f g = g refl

check_last-Stalls :
    (rules : TerminationRules) (count : ℕ) (c : StallCounts) (s : SharedTeamState)
    (ms : List MessageType)
    → c.unproductive_count ≡ suc count
    → suc count < rules.max_stale_rounds
    → Stalls rules count (check_last rules c s ms)
unfolding check_last
check_last-Stalls rules count c s ms e l =
    choose-Stalls _ _ _ (λ _. ends refl)
      (λ _. choose-Stalls _ _ _ (λ _. ends refl) (λ _. counts e l))

check_no_op-Stalls :
    (rules : TerminationRules) (count : ℕ) (c : StallCounts) (s : SharedTeamState)
    (ms : List MessageType)
    → c.unproductive_count ≡ suc count
    → suc count < rules.max_stale_rounds
    → Stalls rules count (check_no_op rules c s ms)
unfolding check_no_op
check_no_op-Stalls rules count c s ms e l =
    choose-Stalls _ _ _
      (λ _. choose-Stalls _ _ _ (λ _. ends refl) (λ _. check_last-Stalls rules count _ s ms e l))
      (λ _. check_last-Stalls rules count _ s ms e l)

check_delivery-Stalls :
    (rules : TerminationRules) (c : StallCounts) (s : SharedTeamState) (ms : List MessageType)
    → has_text s.final_output ≡ false
    → Stalls rules c.unproductive_count (check_delivery rules c s ms (some false))
unfolding check_delivery
check_delivery-Stalls rules c s ms none_yet =
    choose-Stalls _ _ _
      (λ _.
        choose-Stalls _ _ _ (λ _. ends refl)
          (λ few.
            check_no_op-Stalls rules c.unproductive_count _ s ms (omega arith) (ground arith)))
      (λ e. cc (rw none_yet at e))

check_open-Stalls :
    (t : TextMethods) (rules : TerminationRules) (c : StallCounts) (s : SharedTeamState)
    (ms : List MessageType) (round : ℕ)
    → (rules.policy == "manual_only") ≡ false
    → Stalls rules c.unproductive_count (check_open t rules c s ms round (some false))
unfolding check_open
check_open-Stalls t rules c s ms round automatic =
    choose-Stalls _ _ _ (λ _. ends refl)
      (λ _.
        choose-Stalls _ _ _ (λ e. cc (rw automatic at e))
          (λ _.
            choose-Stalls _ _ _ (λ _. choose-Stalls _ _ _ (λ _. ends refl) (λ _. ends refl))
              (λ _.
                choose-Stalls _ _ _ (λ _. ends refl)
                  (λ none_yet.
                    choose-Stalls _ _ _ (λ _. ends refl)
                      (λ _.
                        choose-Stalls _ _ _ (λ _. ends refl)
                          (λ _.
                            choose-Stalls _ _ _ (λ _. ends refl)
                              (λ _.
                                choose-Stalls _ _ _ (λ _. ends refl)
                                  (λ _. check_delivery-Stalls rules c s ms none_yet))))))))

unless_ended-Stalls :
    (rules : TerminationRules) (count : ℕ) (o : Option String) (c : StallCounts) (phase : TeamPhase)
    (rest : Checked)
    → Stalls rules count rest
    → Stalls rules count (unless_ended o c phase rest)
unless_ended-Stalls rules count none c phase rest j = j
unless_ended-Stalls rules count (some text) c phase rest j = ends refl

-- A round: the state, the messages and the number of it.
abbrev pub Round : Type 0
Round = SharedTeamState × List MessageType × ℕ

-- The rounds of a team that delivers nothing: the check of one of them ends the run.
unfoldable pub ends_within : TextMethods → TerminationRules → StallCounts → List Round → Bool
unfolding check
ends_within t rules c [] = false
ends_within t rules c ((s, ms, round) ∷ rounds) =
    let r = check t rules c s ms round (some false) in
    r.1.should_terminate || ends_within t rules r.0 rounds

or_right : (a b : Bool) → b ≡ true → (a || b) ≡ true
or_right a b h = ground arith

ends_or_counts :
    (rules : TerminationRules) (count : ℕ) (r : Checked) (later : Bool)
    → Stalls rules count r
    → (r.0.unproductive_count ≡ suc count → suc count < rules.max_stale_rounds → later ≡ true)
    → (r.1.should_terminate || later) ≡ true
ends_or_counts rules count r later (ends e) f = rw e refl
ends_or_counts rules count r later (counts e l) f = or_right _ later (f e l)

-- If the policy is not manual_only, and a checker has counted fewer rounds without progress than the
-- limit (none, as a fresh one, or some of an earlier part of the run), then of any rounds that follow
-- and deliver nothing, as many as are missing to the limit, whatever their states and messages are,
-- the check of one ends the run.
pub stalled_run_ends :
    (t : TextMethods) (rules : TerminationRules) (rounds : List Round) (c : StallCounts)
    → (rules.policy == "manual_only") ≡ false
    → c.unproductive_count < rules.max_stale_rounds
    → rules.max_stale_rounds ≤ c.unproductive_count + length rounds
    → ends_within t rules c rounds ≡ true
unfolding ends_within
stalled_run_ends t rules [] c automatic less enough = absurd (omega arith)
stalled_run_ends t rules ((s, ms, round) ∷ rounds) c automatic less enough =
    let r = check t rules c s ms round (some false) in
    ends_or_counts rules c.unproductive_count r (ends_within t rules r.0 rounds)
      (unless_ended-Stalls rules c.unproductive_count (ended_in s.phase) c s.phase _
        (check_open-Stalls t rules c s ms round automatic))
      (λ e l.
        stalled_run_ends t rules rounds r.0 automatic (omega (arith, e, l))
          (omega (arith, e, enough)))
