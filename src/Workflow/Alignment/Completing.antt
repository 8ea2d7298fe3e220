-- ===== src/Workflow/Alignment/Completing.antt =====
-- `complete_workflow_step` of backend/app/services/orchestration.py and the statuses of the steps.
use open_slt.Prelude.{
  ◌==◌, ◌∙◌, [], ◌∷◌, ◌++◌, ℕ, true, false, not, ◌&&◌, ◌||◌, ◌≡◌, ◌≢◌, inr, refl, some, none, arith,
  Option, find, if-cases, if-both,
}
use open_slt.Status.{StepStatus, StepStatus-discrete, awaiting_step_completion, paused}
use open_slt.Errors.{pure, Action, Result, raised, ok}
use open_slt.Domain.{
  order_preparation, data_statistics, wiring_confirmation, RunStep, TestRun, slnic_merge_capture,
}
use open_slt.RunState.{step_transitions}
use open_slt.RunState.Table.{step_edge}
use open_slt.Session.{
  node_is, Session, step_completed, log_published, set_step_status, write_step, put_step,
  append_log, publish_status, current_step, has_step_id, run_is, step_is, is_set,
}
use open_slt.Session.Ends.{Ends, goes_on}
use open_slt.Workflow.{is_automatic, advance_workflow}
use open_slt.Workflow.Completion.{
  with_artifact, collect_missing, confirmed_by_actor, finished, step_progress, complete_current,
  complete_checked, complete_workflow_step, is_current, order_unresolved, statistics_stale,
  wiring_incomplete,
}
use open_slt.Workflow.Alignment.{Aligned, Stands, At, IsAligned}
use open_slt.Workflow.Alignment.Shape.{
  AtStep-current, AtStep, AtStep-At, At-succeeded, aligned, stands, At-first,
}
use open_slt.Workflow.Alignment.Effects.{set_step_status-Ends, put_step-Stands}
use open_slt.Workflow.Alignment.Beginning.{StepStands}
use open_slt.Workflow.Alignment.Waiting.{IsBetween}
use open_slt.Workflow.Alignment.Advance.{advance_workflow-Ends}

waiting_succeeded : step_edge StepStatus.waiting StepStatus.succeeded ≡ true
unfolding step_transitions StepStatus-discrete
waiting_succeeded = refl

succeeded_IsBetween :
    (i : ℕ) (run : TestRun)
    → Stands awaiting_step_completion (AtStep i StepStatus.succeeded) run
    → IsBetween run
succeeded_IsBetween i run h =
    inr (h.0, (h.1.0, At-succeeded run.steps (AtStep-At i StepStatus.succeeded run.steps h.1.1)))

waiting-IsAligned :
    (i : ℕ) (run : TestRun)
    → Stands awaiting_step_completion (AtStep i StepStatus.waiting) run
    → IsAligned run
waiting-IsAligned i run q =
    aligned awaiting_step_completion run
      (q.0, (q.1.0, AtStep-At i StepStatus.waiting run.steps q.1.1))

collect_missing-Ends :
    (collect : RunStep → Result ℕ) (i : ℕ) (step : RunStep) (s : Session)
    → step.id ≡ i
    → step.status ≡ StepStatus.waiting
    → Stands awaiting_step_completion (AtStep i StepStatus.waiting) s.run
    → Ends
        (StepStands awaiting_step_completion StepStatus.waiting i)
        IsAligned
        (collect_missing collect step s)
unfolding collect_missing with_artifact
collect_missing-Ends collect i step s d k h =
    if-both
      (λ (m : Action Session RunStep).
        Ends (StepStands awaiting_step_completion StepStatus.waiting i) IsAligned (m s))
      (node_is slnic_merge_capture step && not (is_set step.result_summary.artifact_id))
      {y = pure step} (fetched (collect step)) ((d, k), h)
  where
    fetched :
        (r : Result ℕ)
        → Ends
            (StepStands awaiting_step_completion StepStatus.waiting i)
            IsAligned
            (with_artifact step r s)
    fetched (ok a) = ((d, k), h)
    fetched (raised e) = waiting-IsAligned i s.run h

confirmed-id :
    (actor : ℕ) (step : RunStep)
    → ((confirmed_by_actor actor step).id ≡ step.id)
      × ((confirmed_by_actor actor step).status ≡ step.status)
unfolding confirmed_by_actor
confirmed-id actor step =
    if-both (λ (x : RunStep). (x.id ≡ step.id) × (x.status ≡ step.status)) _ (refl, refl)
      (refl, refl)

finished-same :
    (now actor : ℕ) (step : RunStep)
    → ((finished now actor step).id ≡ step.id) × ((finished now actor step).status ≡ step.status)
unfolding finished
finished-same now actor step =
    confirmed-id actor (record step { progress = 100; finished_at = some now })

waiting_unfinished : StepStatus.waiting ≢ StepStatus.succeeded
waiting_unfinished e = ground (arith, e)

complete_current-Ends :
    (E : TestRun → Type 0) (collect : RunStep → Result ℕ) (actor : ℕ) (i : ℕ) (step : RunStep)
    (s : Session)
    → Ends
        (StepStands awaiting_step_completion StepStatus.waiting i)
        E
        (collect_missing collect step s)
    → Ends Aligned E (complete_current collect actor step s)
unfolding complete_current write_step step_progress append_log publish_status
complete_current-Ends E collect actor i step s h =
    goes_on (StepStands awaiting_step_completion StepStatus.waiting i) Aligned E _
      (collect_missing collect step s) h
      (λ a s' g.
        goes_on (StepStands awaiting_step_completion StepStatus.succeeded i) Aligned E _
          (set_step_status a StepStatus.succeeded (record s' { run = put_step a s'.run }))
          (set_step_status-Ends E awaiting_step_completion i StepStatus.waiting StepStatus.succeeded
            a (record s' { run = put_step a s'.run })
            (put_step-Stands awaiting_step_completion i StepStatus.waiting StepStatus.waiting a
              s'.run g.1 g.0.0 g.0.1)
            g.0.0 g.0.1 waiting_succeeded)
          (λ b s'' q.
            goes_on Aligned Aligned E _ (advance_workflow (done b s''))
              (advance_workflow-Ends E (done b s'')
                (succeeded_IsBetween i (done b s'').run (finished_Stands b s''.run q)))
              (λ _ _ p. p)))
  where
    done : RunStep → Session → Session
    done b s'' = record s'' {
      run = step_progress b.position (put_step (finished s.now actor b) s''.run);
      logs = s''.logs ++ (record { event = step_completed; step_id = some b.id }) ∷ [];
      published =
          s''.published
          ++ log_published (record { event = step_completed; step_id = some b.id }) ∷ [];
    }

    finished_Stands :
        (b : RunStep) (run : TestRun)
        → StepStands awaiting_step_completion StepStatus.succeeded i b run
        → Stands awaiting_step_completion
            (AtStep i StepStatus.succeeded)
            (put_step (finished s.now actor b) run)
    finished_Stands b run q =
        put_step-Stands awaiting_step_completion i StepStatus.succeeded StepStatus.succeeded
          (finished s.now actor b) run q.1 ((finished-same s.now actor b).0 ∙ q.0.0)
          ((finished-same s.now actor b).1 ∙ q.0.1)

complete_checked-Ends :
    (collect : RunStep → Result ℕ) (i actor : ℕ) (o : Option RunStep) (s : Session)
    → IsAligned s.run
    → Stands awaiting_step_completion (At StepStatus.waiting) s.run
    → Ends Aligned IsAligned (complete_checked collect actor o s)
unfolding complete_checked
complete_checked-Ends collect i actor none s same h = same
complete_checked-Ends collect i actor (some step) s same h =
    let (c, f, k, a) =
      At-first awaiting_step_completion StepStatus.waiting s.run waiting_unfinished h in
    if-cases (Ends Aligned IsAligned)
      (not (is_current step (current_step s.run)) || not (step_is StepStatus.waiting step))
      (λ _. same)
      (λ e. if-both (Ends Aligned IsAligned) (order_unresolved step) same (
        if-both (Ends Aligned IsAligned) (statistics_stale step) same (
          if-both (Ends Aligned IsAligned) (wiring_incomplete step) same (
            complete_current-Ends IsAligned collect actor c.id step s
              (collect_missing-Ends collect c.id step s (is_it c f e) (waits e) a)))))
  where
    is_it :
        (c : RunStep)
        → current_step s.run ≡ some c
        → (not (is_current step (current_step s.run)) || not (step_is StepStatus.waiting step))
          ≡ false
        → step.id ≡ c.id
    is_it c f e = ground (arith, f, e)

    waits :
        (not (is_current step (current_step s.run)) || not (step_is StepStatus.waiting step))
          ≡ false
        → step.status ≡ StepStatus.waiting
    waits e = ground (arith, e)

-- `complete_workflow_step` keeps the run aligned, on every branch.
pub complete_workflow_step-Aligned :
    (collect : RunStep → Result ℕ) (i actor : ℕ) (s : Session)
    → IsAligned s.run
    → Ends Aligned IsAligned (complete_workflow_step collect i actor s)
unfolding complete_workflow_step
complete_workflow_step-Aligned collect i actor s h =
    if-cases (Ends Aligned IsAligned)
      (not (is_set s.run.workflow_version_id) || not (run_is awaiting_step_completion s.run))
      (λ _. h)
      (λ e.
        complete_checked-Ends collect i actor (find (has_step_id i) s.run.steps) s h
          (stands awaiting_step_completion s.run not_paused (at_completion e) h))
  where
    not_paused : awaiting_step_completion ≢ paused
    not_paused e = ground (arith, e)

    at_completion :
        (not (is_set s.run.workflow_version_id) || not (run_is awaiting_step_completion s.run))
          ≡ false
        → s.run.status ≡ awaiting_step_completion
    at_completion e = ground (arith, e)

-- what an automatic capture is not
record IsPlain (a : RunStep) : Type 0 where
  no_order : node_is order_preparation a ≡ false
  no_statistics : node_is data_statistics a ≡ false
  no_wiring : node_is wiring_confirmation a ≡ false
  no_capture : node_is slnic_merge_capture a ≡ false

automatic-IsPlain : (a : RunStep) → is_automatic a ≡ true → IsPlain a
automatic-IsPlain a h = record {
  no_order = ground (arith, h);
  no_statistics = ground (arith, h);
  no_wiring = ground (arith, h);
  no_capture = ground (arith, h);
}

module _ (E : TestRun → Type 0) (collect : RunStep → Result ℕ) (i actor : ℕ) (a : RunStep)
    (s : Session) where
  plain_completes :
      IsPlain a
      → a.id ≡ i
      → a.status ≡ StepStatus.waiting
      → Stands awaiting_step_completion (AtStep i StepStatus.waiting) s.run
      → current_step s.run ≡ some a
      → Ends Aligned E (complete_checked collect actor (some a) s)
  unfolding complete_checked collect_missing
  plain_completes p d k h f =
      rw (f, is_it, waits, p.no_order, p.no_statistics, p.no_wiring)
        (complete_current-Ends E collect actor i a s collected)
    where
      is_it : (a.id == a.id) ≡ true
      is_it = ground arith

      waits : step_is StepStatus.waiting a ≡ true
      waits = ground arith

      collected :
          Ends
            (StepStands awaiting_step_completion StepStatus.waiting i)
            E
            (collect_missing collect a s)
      collected = rw p.no_capture ((d, k), h)

  -- A step that is captured automatically is completed without an exception.
  pub automatic_completes :
      is_automatic a ≡ true
      → a.id ≡ i
      → a.status ≡ StepStatus.waiting
      → Stands awaiting_step_completion (AtStep i StepStatus.waiting) s.run
      → find (has_step_id i) s.run.steps ≡ some a
      → Ends Aligned E (complete_workflow_step collect i actor s)
  unfolding complete_workflow_step
  automatic_completes p d k h f =
      rw (h.0.0, at_completion, f) (plain_completes (automatic-IsPlain a p) d k h is_first)
    where
      at_completion : run_is awaiting_step_completion s.run ≡ true
      at_completion = ground (arith, h.1.0)

      is_first : current_step s.run ≡ some a
      is_first = AtStep-current i StepStatus.waiting s.run.steps waiting_unfinished h.1.1 ∙ f
