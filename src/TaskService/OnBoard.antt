-- ===== src/TaskService/OnBoard.antt =====
-- app/multiagent/transactional_task_service.py and app/multiagent/task_board.py: every node of a
-- stored plan has its row in the table of the board's tasks.
use mega_deepagents.Base.{
  ℕ, String, Bool, true, Option, none, some, ◌≡◌, ◌∙◌, refl, sym, ap, subst, string_eq, pair_eq,
  Bool-cases, inl, inr, ◌==◌, if◌then◌else◌, eq→path, is_none,
}
use mega_deepagents.Base.Dict.{Dict, lookup, has_key, insert, lookup-insert, AllEntries-lookup}
use mathlib.Core.Path.{subst₂}
use mathlib.Core.Option.{some-injective}
use mega_deepagents.TaskBoard.Task.{BoardTask}
use mega_deepagents.TaskBoard.Store.{Board, Key, key_of, raw_get}
use mega_deepagents.TaskGraph.Node.{TaskNode}
use mega_deepagents.TaskGraph.Graph.{TaskGraph}
use mega_deepagents.TaskService.Store.{
  Payload, TaskGraphMutation, ServiceState, ServiceResult, found, no_graph,
}
use mega_deepagents.TaskService.Mutate.{Effects}
use mega_deepagents.TaskService.Apply.{
  apply, commit_mutation, prepare, finish, write, publish, publish_board, resync_dependencies,
  insert_new, update_rows,
}
use mega_deepagents.TaskService.Outcomes.{
  Ensures, returns, raises, then-Ensures, ensured, found-eq-success,
}
use mega_deepagents.TaskService.Extends.{IsExtended, apply_mutation-IsExtended}
use mega_deepagents.TaskService.Plans.{IsPlanned, apply-cases}
use mega_deepagents.TaskService.Rows.{
  Rows, Within, Cover, insert_new-Within, insert_new-has_key, update_rows-Within, add_all-Within,
  add_if-Within, add-Within,
}

abbrev pub IsCovered : ServiceState → Type 0
IsCovered s =
    (run_id : String) (g : TaskGraph)
    → lookup run_id s.snapshots ≡ some g
    → Cover run_id g.nodes s.board.rows

-- One graph is stored, with rows for its nodes, and no row goes.
pub stored-IsCovered :
    (s s' : ServiceState) (run_id : String) (g : TaskGraph)
    → IsCovered s
    → s'.snapshots ≡ insert run_id g s.snapshots
    → Within s.board.rows s'.board.rows
    → Cover run_id g.nodes s'.board.rows
    → IsCovered s'
stored-IsCovered s s' run_id g c same grows new run g' h id held =
    elim (Bool-cases (run == run_id)) [
      | inl here ↦
          let g≡g' = some-injective g g' (sym (stored ∙ rw here refl) ∙ h) in
          subst (λ (r : String). has_key (r, id) s'.board.rows ≡ true)
            (sym (eq→path run run_id here))
            (new id (subst (λ (x : TaskGraph). has_key id x.nodes ≡ true) (sym g≡g') held))
      | inr other ↦ grows (run, id) (c run g' (sym (stored ∙ rw other refl) ∙ h) id held)
    ]
  where
    stored : lookup run s'.snapshots ≡ (if run == run_id then some g else lookup run s.snapshots)
    stored =
        ap (λ (d : Dict String TaskGraph). lookup run d) same
        ∙ lookup-insert run run_id g s.snapshots

publish_board-Within :
    (run_id : String) (payload : Payload) (e : Effects) (o : Option BoardTask) (b : Board)
    → Within b.rows (publish_board run_id payload e o b).rows
publish_board-Within run_id payload e (some t) b j h =
    add_all-Within e.board_updates _ j
      (add_if-Within (is_none (raw_get b t.task_id (some run_id))) t b j h)
publish_board-Within run_id (Payload.add_dependency task dependency) e none b j h =
    resync (raw_get b task (some run_id))
  where
    resync : (o : Option BoardTask) → has_key j (resync_dependencies e.graph o b).rows ≡ true
    resync none = h
    resync (some t) = add-Within _ b j h
publish_board-Within run_id (Payload.create_task n) e none b j h = h
publish_board-Within run_id (Payload.update_task task changes) e none b j h = h
publish_board-Within run_id (Payload.repair_task target objective caps) e none b j h = h
publish_board-Within run_id Payload.plan_revision e none b j h = h

-- What the transaction writes extends the graph that it found.
abbrev Extending : ServiceState → TaskGraphMutation → Effects → Type 0
Extending s m e = (g : TaskGraph) × (lookup m.run_id s.snapshots ≡ some g) × IsExtended m.run_id g e

pub prepare-Extending :
    (allows : TaskNode → Bool) (s : ServiceState) (m : TaskGraphMutation) (now : ℕ)
    → IsPlanned s
    → Ensures (Extending s m) (prepare allows s m now)
unfolding prepare
prepare-Extending allows s m now p =
    then-Ensures (found (lookup m.run_id s.snapshots) (no_graph m.run_id)) _ (λ g there.
      let held = found-eq-success _ _ there in
      then-Ensures _ _ (λ _ _. then-Ensures _ _ (λ e made. then-Ensures _ _ (λ _ _. returns (
        g,
        held,
        ensured e
            (apply_mutation-IsExtended allows s.board m.run_id g m.payload now
              (AllEntries-lookup _ m.run_id s.snapshots p held))
            made,
      )))))

finish-IsCovered :
    (s : ServiceState) (m : TaskGraphMutation) (o : ServiceResult Effects)
    → IsCovered s
    → Ensures (Extending s m) o
    → IsCovered (finish s m o).0
unfolding write publish
finish-IsCovered s m o c (returns {a = e} (g, held, x)) =
    stored-IsCovered s (publish m e (write s m e)) m.run_id e.graph c refl
      (λ j h. published j (written j h)) covered
  where
    rows : Rows
    rows = update_rows e.board_updates (insert_new e.board_task s.board.rows)

    written : Within s.board.rows rows
    written j h =
        update_rows-Within e.board_updates _ j (insert_new-Within e.board_task s.board.rows j h)

    published : Within rows (publish m e (write s m e)).board.rows
    published = publish_board-Within m.run_id m.payload e e.board_task _

    inserted :
        (t : BoardTask) (id : String)
        → e.board_task ≡ some t
        → key_of t ≡ (m.run_id, id)
        → has_key (m.run_id, id) (insert_new e.board_task s.board.rows) ≡ true
    inserted t id made named =
        subst₂ (λ (o : Option BoardTask) (k : Key). has_key k (insert_new o s.board.rows) ≡ true)
          (sym made) named (insert_new-has_key t s.board.rows)

    covered : Cover m.run_id e.graph.nodes (publish m e (write s m e)).board.rows
    covered id h = elim (x.covers id h) [
      | inl old ↦ published _ (written _ (c m.run_id g held id old))
      | inr (t, made, named) ↦
          published _ (update_rows-Within e.board_updates _ _ (inserted t id made named))
    ]
finish-IsCovered s m o c raises = c

pub commit_mutation-IsCovered :
    (allows : TaskNode → Bool) (s : ServiceState) (m : TaskGraphMutation) (now : ℕ)
    → IsPlanned s
    → IsCovered s
    → IsCovered (commit_mutation allows s m now).0
unfolding commit_mutation
commit_mutation-IsCovered allows s m now p c =
    finish-IsCovered s m _ c (prepare-Extending allows s m now p)

pub apply-IsCovered :
    (allows : TaskNode → Bool) (s : ServiceState) (m : TaskGraphMutation) (now : ℕ)
    → IsPlanned s
    → IsCovered s
    → IsCovered (apply allows s m now).0
apply-IsCovered allows s m now p c = elim (apply-cases allows s m now) [
  | inl e ↦ subst IsCovered (sym e) c
  | inr e ↦ subst IsCovered (sym e) (commit_mutation-IsCovered allows s m now p c)
]
