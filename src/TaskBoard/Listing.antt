-- ===== src/TaskBoard/Listing.antt =====
-- app/multiagent/task_board.py: what `list_claimable` lists can be claimed.
use mega_deepagents.Base.{
  All-keep, ℕ, String, true, some, List, [], ◌∷◌, ◌≡◌, refl, subst, ap, Bool-cases, Option-cases,
  inl, inr, string_eq, pair_eq, All, All-map, keep, all, both, both_true, ltb,
}
use mega_deepagents.Base.Dict.{Dict, lookup, AllEntries-lookup}
use mega_deepagents.TaskBoard.Task.{BoardTask, is_pending}
use mega_deepagents.TaskBoard.Store.{
  Key, Board, key_of, run_keys, raw_get, raw_list_by_run, present,
}
use mega_deepagents.TaskBoard.Worker.{claim, is_done}
use mega_deepagents.TaskBoard.Query.{
  list_pending, list_claimable, is_claimable, sort_by_priority, insert_by_priority,
}
use mega_deepagents.TaskBoard.WellFormed.{IsWellFormed, run_keys-All}
use mega_deepagents.TaskBoard.Invariant.{IsSound}
use mega_deepagents.TaskBoard.Claiming.{claim-success_iff, authority}

module _ {κ} (P : BoardTask → Type κ) where
  All-insert_by_priority :
      (t : BoardTask) (us : List BoardTask) → P t → All P us → All P (insert_by_priority t us)
  unfolding insert_by_priority
  All-insert_by_priority t [] p h = (p, tt)
  All-insert_by_priority t (u ∷ us) p h = elim (Bool-cases (ltb t.priority u.priority)) [
    | inl e ↦ rw e (h.0, All-insert_by_priority t us p h.1)
    | inr e ↦ rw e (p, h)
  ]

  All-sort_by_priority : (ts : List BoardTask) → All P ts → All P (sort_by_priority ts)
  unfolding sort_by_priority
  All-sort_by_priority [] h = tt
  All-sort_by_priority (t ∷ ts) h =
      All-insert_by_priority t (sort_by_priority ts) h.0 (All-sort_by_priority ts h.1)

  All-present :
      (d : Dict Key BoardTask) (ks : List Key)
      → All (λ k. (t : BoardTask) → lookup k d ≡ some t → P t) ks
      → All P (present d ks)
  unfolding present
  All-present d [] h = tt
  All-present d (k ∷ ks) h = elim (Option-cases (lookup k d)) [
    | inl e ↦ rw e (All-present d ks h.1)
    | inr (t, e) ↦ rw e (h.0 t e, All-present d ks h.1)
  ]

-- A task of the run `run` that the board holds.
abbrev pub OfRun : Board → String → BoardTask → Type 0
OfRun b run t = lookup (run, t.task_id) b.tasks ≡ some t

found-OfRun :
    {b : Board} (run : String) (k : Key) (t : BoardTask)
    → IsWellFormed b
    → k.0 ≡ run
    → lookup k b.tasks ≡ some t
    → OfRun b run t
found-OfRun {b} run k t w own e =
    let p = AllEntries-lookup (λ k t. k ≡ key_of t) k b.tasks w.keyed e in
    subst (λ (j : Key). lookup j b.tasks ≡ some t) (λ i. (own i, (p i).1)) e

pub raw_list_by_run-OfRun :
    {b : Board} (run : String) → IsWellFormed b → All (OfRun b run) (raw_list_by_run b run)
unfolding raw_list_by_run
raw_list_by_run-OfRun {b} run w =
    All-present (OfRun b run) b.tasks (run_keys b run)
      (All-map (run_keys b run) (λ k own t e. found-OfRun run k t w own e) (run_keys-All run w))

-- A dependency that has succeeded in memory has succeeded in the authority.
done-authority :
    {b : Board} (k : Key)
    → IsWellFormed b
    → is_done (lookup k b.tasks) ≡ true
    → is_done (lookup k (authority b)) ≡ true
done-authority {b} k w h = elim (Bool-cases b.persist_enabled) [
  | inl on ↦ elim (Option-cases (lookup k b.tasks)) [
    | inl e ↦ cc
    | inr (t, e) ↦ simp (on, w.durable on k t e) (rw e at h)
  ]
  | inr off ↦ simp off h
]

all_done-authority :
    {b : Board} (run : String) (deps : List String)
    → IsWellFormed b
    → all (λ d. is_done (lookup (run, d) b.tasks)) deps ≡ true
    → all (λ d. is_done (lookup (run, d) (authority b))) deps ≡ true
all_done-authority run [] w h = refl
all_done-authority {b} run (d ∷ ds) w h =
    let (first, others) = both (is_done (lookup (run, d) b.tasks)) _ h in
    both_true _ _ (done-authority (run, d) w first) (all_done-authority run ds w others)

pub listed-claim :
    {b : Board} (run agent : String) (capabilities : List String) (now : ℕ) (t : BoardTask)
    → IsSound b
    → OfRun b run t
    → is_pending t.status ≡ true
    → is_claimable b run capabilities t ≡ true
    → (claim b t.task_id agent (some run) now).1.success ≡ true
unfolding is_claimable raw_get
listed-claim {b} run agent capabilities now t s e waiting fits =
    let w = s.well_formed in
    let own = AllEntries-lookup (λ k t. k ≡ key_of t) (run, t.task_id) b.tasks w.keyed e in
    let done = all_done-authority run t.dependencies w (both _ _ fits).0 in
    (claim-success_iff t.task_id agent (some run) now s e).1 (
      waiting,
      subst (λ (r : String). all (λ d. is_done (lookup (r, d) (authority b))) t.dependencies ≡ true)
          (ap (λ (k : Key). k.0) own) done,
    )

-- On a sound board, a claim of any task that list_claimable lists, by any agent at that
-- moment, succeeds.
pub list_claimable_sound :
    {b : Board} (run agent : String) (capabilities : List String) (now : ℕ)
    → IsSound b
    → All
        (λ t. (claim b t.task_id agent (some run) now).1.success ≡ true)
        (list_claimable b run capabilities now)
unfolding list_claimable
list_claimable_sound {b} run agent capabilities now s = All-sort_by_priority _ _ (
    All-map (keep (is_claimable b run capabilities) (list_pending b run now))
      (λ t h. listed-claim run agent capabilities now t s h.0.0 (both _ _ h.0.1).0 h.1)
      (All-keep _ (is_claimable b run capabilities) (list_pending b run now) (
        All-keep (OfRun b run) _ (raw_list_by_run b run)
          (raw_list_by_run-OfRun run s.well_formed))))
