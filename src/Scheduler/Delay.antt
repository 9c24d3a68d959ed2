-- ===== src/Scheduler/Delay.antt =====
-- app/multiagent/parallel_scheduler.py: `_next_retry_delay` wakes the loop for each retry.
use mathlib.Core.List.{Memᴰ}
use mathlib.Core.List.Memᴰ
use mega_deepagents.Base.{
  ℕ, true, String, Option, none, some, List, [], ◌∷◌, ◌≡◌, ◌≤◌, refl, arith, ◌-◌, min, max, inl,
  inr, Bool-cases, Option-cases, leb,
}
use mega_deepagents.TaskBoard.Task.{BoardTask, is_pending}
use mega_deepagents.TaskBoard.Store.{Board, raw_list_by_run}
use mega_deepagents.Scheduler.Idle.{earlier, soonest_delay, next_retry_delay}

-- A delay of at most five seconds, which is not longer than that, but for the shortest wait.
abbrev pub IsAtMost : ℕ → Option ℕ → Type 0
IsAtMost bound o = (d : ℕ) × (o ≡ some d) × (d ≤ 5_000) × (d ≤ max 50 bound)

IsAtMost-mono : (m n : ℕ) (o : Option ℕ) → m ≤ n → IsAtMost m o → IsAtMost n o
IsAtMost-mono m n o h (d, e, cap, bound) = (d, e, cap, omega arith)

earlier-left : (soonest n : ℕ) → earlier (some soonest) n ≤ soonest
earlier-left soonest n = ground arith

earlier-right : (o : Option ℕ) (n : ℕ) → earlier o n ≤ n
earlier-right none n = omega arith
earlier-right (some soonest) n = ground arith

soonest_delay-some :
    (now soonest : ℕ) (ts : List BoardTask) → IsAtMost soonest (soonest_delay now (some soonest) ts)
unfolding soonest_delay
soonest_delay-some now soonest [] = (min soonest 5_000, refl, omega arith, omega arith)
soonest_delay-some now soonest (t ∷ ts) = elim (Bool-cases (is_pending t.status)) [
  | inr e ↦ rw e (soonest_delay-some now soonest ts)
  | inl e ↦ elim (Option-cases t.next_attempt_at) [
    | inl never ↦ rw (e, never) (soonest_delay-some now soonest ts)
    | inr (due, at) ↦ elim (Bool-cases (leb due now)) [
      | inl past ↦ rw (e, at, past) ((50, refl, omega arith, omega arith))
      | inr ahead ↦
          rw (e, at, ahead)
            (IsAtMost-mono _ soonest _ (earlier-left soonest (due - now))
              (soonest_delay-some now (earlier (some soonest) (due - now)) ts))
    ]
  ]
]

-- The first task waits itself.
soonest_delay-head :
    (now : ℕ) (o : Option ℕ) (due : ℕ) (t : BoardTask) (ts : List BoardTask)
    → is_pending t.status ≡ true
    → t.next_attempt_at ≡ some due
    → IsAtMost (due - now) (soonest_delay now o (t ∷ ts))
unfolding soonest_delay
soonest_delay-head now o due t ts e at = elim (Bool-cases (leb due now)) [
  | inl past ↦ rw (e, at, past) ((50, refl, omega arith, omega arith))
  | inr ahead ↦
      rw (e, at, ahead)
        (IsAtMost-mono _ (due - now) _ (earlier-right o (due - now))
          (soonest_delay-some now (earlier o (due - now)) ts))
]

-- Another one does, and what is found with any earlier delay is short enough for it.
soonest_delay-tail :
    (bound now : ℕ) (o : Option ℕ) (t : BoardTask) (ts : List BoardTask)
    → ((o : Option ℕ) → IsAtMost bound (soonest_delay now o ts))
    → IsAtMost bound (soonest_delay now o (t ∷ ts))
unfolding soonest_delay
soonest_delay-tail bound now o t ts rest = elim (Bool-cases (is_pending t.status)) [
  | inr e ↦ rw e (rest o)
  | inl e ↦ elim (Option-cases t.next_attempt_at) [
    | inl never ↦ rw (e, never) (rest o)
    | inr (due, at) ↦ elim (Bool-cases (leb due now)) [
      | inl past ↦ rw (e, at, past) ((50, refl, omega arith, omega arith))
      | inr ahead ↦ rw (e, at, ahead) (rest (some (earlier o (due - now))))
    ]
  ]
]

soonest_delay-member :
    (now : ℕ) {due : ℕ} {t : BoardTask} (ts : List BoardTask)
    → Memᴰ t ts
    → is_pending t.status ≡ true
    → t.next_attempt_at ≡ some due
    → (o : Option ℕ) → IsAtMost (due - now) (soonest_delay now o ts)
soonest_delay-member now {due} {t} [] m waits at o = absurd (Memᴰ.not-nil m)
soonest_delay-member now {due} {t} (u ∷ ts) (Memᴰ.head same) waits at o =
    soonest_delay-head now o due u ts (rw same at waits) (rw same at at)
soonest_delay-member now {due} {t} (u ∷ ts) (Memᴰ.tail m) waits at o =
    soonest_delay-tail (due - now) now o u ts (soonest_delay-member now ts m waits at)

-- If a task of the run is PENDING with a time for its next attempt, _next_retry_delay returns a
-- delay of at most five seconds, which does not pass that time, or is at most 50 milliseconds.
pub next_retry_delay-on_time :
    (b : Board) (run : String) (now : ℕ) (t : BoardTask) (due : ℕ)
    → Memᴰ t (raw_list_by_run b run)
    → is_pending t.status ≡ true
    → t.next_attempt_at ≡ some due
    → (d : ℕ) × (next_retry_delay b run now ≡ some d) × (d ≤ 5_000) × (d ≤ max 50 (due - now))
unfolding next_retry_delay
next_retry_delay-on_time b run now t due m waits at =
    soonest_delay-member now (raw_list_by_run b run) m waits at none
