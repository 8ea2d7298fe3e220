-- ===== src/Workflow/Alignment/Advance.antt =====
-- `advance_workflow` of backend/app/services/orchestration.py and the statuses of the steps.
use open_slt.Prelude.{
  if◌then◌else◌, ◌∙◌, find, true, false, not, ◌≡◌, ◌⊎◌, inl, inr, refl, some, none, arith, List,
  if-both,
}
use open_slt.Status.{
  RunStatus, StepStatus, awaiting_review, awaiting_step_start, awaiting_step_completion, completed,
}
use open_slt.Errors.{when, Action, pure}
use open_slt.Domain.{RunStep, TestRun, wiring_confirmation, report_generation}
use open_slt.RunState.{by_service}
use open_slt.RunState.Table.{run_edge}
use open_slt.Session.{Session, is_unfinished, set_status, current_step, node_is, run_is}
use open_slt.Session.Ends.{Ends, goes_on}
use open_slt.Workflow.{
  await_wiring, start_capture, start_next, is_automatic, advance_to, advance_workflow,
}
use open_slt.Workflow.Alignment.{Aligned, Stands, AllDone}
use open_slt.Workflow.Alignment.Shape.{
  At-first, AllDone-current, AllDone-NoneRunning, AtStep, AtStep-At, aligned,
}
use open_slt.Workflow.Alignment.Effects.{set_status-Ends}
use open_slt.Workflow.Alignment.Waiting.{
  IsBetween, start_review, completion_start, completion_completed, pending_unfinished,
  completion_review, await_wiring-Ends, start_capture-Ends, await_review-Ends, review_done-Ends,
  complete_run-Ends,
}

module _ (E : TestRun → Type 0) where
  next_needs :
      (c : RunStep) (s : Session)
      → Stands awaiting_step_start (AtStep c.id StepStatus.pending) s.run
      → current_step s.run ≡ some c
      → c.status ≡ StepStatus.pending
      → Ends Aligned E (
          (if node_is wiring_confirmation c
              then await_wiring c
              else if is_automatic c
              then start_capture c
              else pure tt)
            s)
  next_needs c s h f k =
      if-both (λ (m : Action Session Unit). Ends Aligned E (m s)) (node_is wiring_confirmation c)
        (await_wiring-Ends E c s h k)
        (if-both (λ (m : Action Session Unit). Ends Aligned E (m s)) (is_automatic c)
          (start_capture-Ends E c s h f k)
          (aligned awaiting_step_start s.run
            (h.0, (h.1.0, AtStep-At c.id StepStatus.pending s.run.steps h.1.1))))

  -- `transition_run(run, "awaiting_step_start")` unless the run is there
  to_start-Ends :
      (r : RunStatus) (P : List RunStep → Type 0) (s : Session)
      → (r ≡ awaiting_step_start) ⊎ (r ≡ awaiting_step_completion)
      → Stands r P s.run
      → Ends
          (λ _. Stands awaiting_step_start P)
          E
          (when
            (not (run_is awaiting_step_start s.run))
            (set_status by_service awaiting_step_start)
            s)
  to_start-Ends r P s w h = elim w [
    | inl e ↦ rw (there (h.1.0 ∙ e)) (h.0, (h.1.0 ∙ e, h.1.1))
    | inr e ↦ rw (elsewhere (h.1.0 ∙ e)) (
        set_status-Ends E by_service awaiting_step_completion awaiting_step_start P s
          (h.0, (h.1.0 ∙ e, h.1.1)) completion_start)
  ]
    where
      there : s.run.status ≡ awaiting_step_start → run_is awaiting_step_start s.run ≡ true
      there e = ground (arith, e)

      elsewhere : s.run.status ≡ awaiting_step_completion → run_is awaiting_step_start s.run ≡ false
      elsewhere e = ground (arith, e)

  -- from a place between two steps whose first unfinished step is `c`
  start_next-Ends :
      (r : RunStatus) (c : RunStep) (s : Session)
      → (r ≡ awaiting_step_start) ⊎ (r ≡ awaiting_step_completion)
      → Stands r (AtStep c.id StepStatus.pending) s.run
      → current_step s.run ≡ some c
      → c.status ≡ StepStatus.pending
      → Ends Aligned E (start_next c s)
  unfolding start_next
  start_next-Ends r c s w h f k =
      goes_on (λ _. Stands awaiting_step_start here) Aligned E _
        (when (not (run_is awaiting_step_start s.run)) (set_status by_service awaiting_step_start)
          s)
        (to_start-Ends r here s w (h.0, (h.1.0, (h.1.1, f))))
        (λ _ s' q. next_needs c s' (q.0, (q.1.0, q.1.1.0)) q.1.1.1 k)
    where
      here : List RunStep → Type 0
      here steps = AtStep c.id StepStatus.pending steps × (find is_unfinished steps ≡ some c)

  advance_to-Ends :
      (r : RunStatus) (c : RunStep) (s : Session)
      → (r ≡ awaiting_step_start) ⊎ (r ≡ awaiting_step_completion)
      → run_edge r awaiting_review ≡ true
      → Stands r (AtStep c.id StepStatus.pending) s.run
      → current_step s.run ≡ some c
      → c.status ≡ StepStatus.pending
      → Ends Aligned E (advance_to (some c) s)
  unfolding advance_to
  advance_to-Ends r c s w e h f k =
      if-both (Ends Aligned E) (node_is report_generation c) (await_review-Ends E r c s h e k)
        (start_next-Ends r c s w h f k)

  AllDone-Ends :
      (s : Session)
      → Stands awaiting_step_completion AllDone s.run
      → Ends Aligned E (advance_to none s)
  unfolding advance_to
  AllDone-Ends s h =
      if-both (Ends Aligned E) _
        (complete_run-Ends E AllDone s AllDone-NoneRunning (
          set_status-Ends E by_service awaiting_step_completion completed AllDone s h
            completion_completed))
        (review_done-Ends E s h)

  -- The run advances from either place.
  pub advance_workflow-Ends : (s : Session) → IsBetween s.run → Ends Aligned E (advance_workflow s)
  unfolding advance_workflow
  advance_workflow-Ends s (inl h) =
      let (c, f, k, a) =
        At-first awaiting_step_start StepStatus.pending s.run pending_unfinished h in
      rw f (advance_to-Ends awaiting_step_start c s (inl refl) start_review a f k)
  advance_workflow-Ends s (inr (w, (e, inl d))) =
      rw (AllDone-current s.run.steps d) (AllDone-Ends s (w, (e, d)))
  advance_workflow-Ends s (inr (w, (e, inr p))) =
      let (c, f, k, a) =
        At-first awaiting_step_completion StepStatus.pending s.run pending_unfinished (w, (e, p)) in
      rw f (advance_to-Ends awaiting_step_completion c s (inr refl) completion_review a f k)
