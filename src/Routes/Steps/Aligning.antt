-- ===== src/Routes/Steps/Aligning.antt =====
-- The requests on one step of a run of a workflow (backend/app/api/routes/runs.py) and the statuses of
-- the steps.
use open_slt.Prelude.{
  ap, ℕ, true, false, not, ◌≡◌, ◌≢◌, ◌∙◌, refl, Option, none, some, if◌then◌else◌, if-cases,
  if-both, find, find-some, arith,
}
use open_slt.Status.{
  RunStatus-discrete, StepStatus, StepStatus-discrete, awaiting_step_completion,
  awaiting_step_retry, paused,
}
use open_slt.Errors.{
  Result, ok, raised, ◌>>=◌, ◌>>◌, raise, workflow_error, parser_terminal_required,
}
use open_slt.Domain.{
  Summary, RunStep, TestRun, order_action_retried, parser_parse, order_preparation,
}
use open_slt.RunState.{by_service, run_transitions, step_transitions}
use open_slt.RunState.Table.{run_edge, step_edge}
use open_slt.Session.{
  Session, run_is, node_is, has_step_id, write_step, put_step, set_status, set_step_status,
}
use open_slt.Session.Ends.{Ends, Ends-forget, Ends-weaken, goes_on}
use open_slt.Workflow.{begin_workflow_step, BeginMode}
use open_slt.Workflow.Completion.{complete_workflow_step, order_unresolved}
use open_slt.Workflow.Alignment.{Aligned, Stands, IsAligned}
use open_slt.Workflow.Alignment.Shape.{AtStep, AtStep-At, At-found, aligned, stands}
use open_slt.Workflow.Alignment.Effects.{set_status-Ends, set_step_status-Ends, put_step-Stands}
use open_slt.Workflow.Alignment.Beginning.{StepStands}
use open_slt.Workflow.Alignment.Completing.{complete_workflow_step-Aligned}
use open_slt.Routes.{request, is_parser, enqueue, step_task}
use open_slt.Routes.Aligning.{committed-IsAligned, begin_enqueue-Ends}
use open_slt.Routes.Steps.{
  StepServices, is_completable, with_outputs, prepare_parser, closed, prepare_order, prepare_step,
  complete_run_step, confirm_run_step, has_lost_action, give_up_action, prepare_retry,
  retry_run_step,
}

-- a step that waits in a run that waits for its completion is the one that the run is at
waiting_here :
    (i : ℕ) (x : RunStep) (s : Session)
    → IsAligned s.run
    → find (has_step_id i) s.run.steps ≡ some x
    → run_is awaiting_step_completion s.run ≡ true
    → x.status ≡ StepStatus.waiting
    → Stands awaiting_step_completion (AtStep x.id StepStatus.waiting) s.run
waiting_here i x s h f r w =
    let g = stands awaiting_step_completion s.run not_paused (ground (arith, r)) h in
    (
      g.0,
      (
        g.1.0,
        At-found StepStatus.waiting x.id x s.run.steps not_succeeded not_pending g.1.1 here w,
      ),
    )
  where
    not_paused : awaiting_step_completion ≢ paused
    not_paused e = ground (arith, e)

    not_succeeded : StepStatus.waiting ≢ StepStatus.succeeded
    not_succeeded e = ground (arith, e)

    not_pending : StepStatus.waiting ≢ StepStatus.pending
    not_pending e = ground (arith, e)

    here : find (has_step_id x.id) s.run.steps ≡ some x
    here =
        ap (λ j. find (has_step_id j) s.run.steps)
          (has_id (find-some (has_step_id i) s.run.steps x f))
        ∙ f
      where
        has_id : has_step_id i x ≡ true → x.id ≡ i
        has_id e = ground (arith, e)

waiting-IsAligned :
    (i : ℕ) (run : TestRun)
    → Stands awaiting_step_completion (AtStep i StepStatus.waiting) run
    → IsAligned run
waiting-IsAligned i run q =
    aligned awaiting_step_completion run
      (q.0, (q.1.0, AtStep-At i StepStatus.waiting run.steps q.1.1))

closed-Ends :
    (r : Result (Unit {0})) (s : Session) → IsAligned s.run → Ends Aligned IsAligned (closed r s)
unfolding closed
closed-Ends (ok _) s h = h
closed-Ends (raised e) s h = h

waiting_failed : step_edge StepStatus.waiting StepStatus.failed ≡ true
unfolding step_transitions StepStatus-discrete
waiting_failed = refl

completion_retry : run_edge awaiting_step_completion awaiting_step_retry ≡ true
unfolding run_transitions RunStatus-discrete
completion_retry = refl

abbrev Anything : TestRun → Type 0
Anything _ = Unit

give_up_action-Ends :
    (x : RunStep) (s : Session)
    → Stands awaiting_step_completion (AtStep x.id StepStatus.waiting) s.run
    → x.status ≡ StepStatus.waiting
    → Ends Aligned Anything (give_up_action x s)
unfolding give_up_action write_step
give_up_action-Ends x s h w =
    goes_on (StepStands awaiting_step_completion StepStatus.failed x.id) Aligned Anything _
      (set_step_status x StepStatus.failed s)
      (set_step_status-Ends Anything awaiting_step_completion x.id StepStatus.waiting
        StepStatus.failed x s h refl w waiting_failed)
      (λ a t g.
        Ends-weaken (λ _. Stands awaiting_step_retry (AtStep x.id StepStatus.failed)) Aligned
          Anything (set_status by_service awaiting_step_retry (told a t))
          (λ _ run q. retry-IsAligned run q)
          (set_status-Ends Anything by_service awaiting_step_completion awaiting_step_retry
            (AtStep x.id StepStatus.failed) (told a t)
            (put_step-Stands awaiting_step_completion x.id StepStatus.failed StepStatus.failed
              (record a { error_message = some order_action_retried }) t.run g.1 g.0.0 g.0.1)
            completion_retry))
  where
    told : RunStep → Session → Session
    told a t = record t {
      run = put_step (record a { error_message = some order_action_retried }) t.run;
    }

    retry-IsAligned :
        (run : TestRun)
        → Stands awaiting_step_retry (AtStep x.id StepStatus.failed) run
        → IsAligned run
    retry-IsAligned run q =
        aligned awaiting_step_retry run
          (q.0, (q.1.0, AtStep-At x.id StepStatus.failed run.steps q.1.1))

module _ (services : StepServices) where
  outputs-Ends :
      (x : RunStep) (r : Result Summary) (s : Session)
      → Stands awaiting_step_completion (AtStep x.id StepStatus.waiting) s.run
      → x.status ≡ StepStatus.waiting
      → Ends Aligned IsAligned (with_outputs x r s)
  unfolding with_outputs write_step
  outputs-Ends x (ok summary) s h w =
      waiting-IsAligned x.id (put_step (record x { result_summary = summary }) s.run) (
        put_step-Stands awaiting_step_completion x.id StepStatus.waiting StepStatus.waiting
          (record x { result_summary = summary }) s.run h refl w)
  outputs-Ends x (raised e) s h w = waiting-IsAligned x.id s.run h

  prepare_parser-Ends :
      (i : ℕ) (x : RunStep) (s : Session)
      → IsAligned s.run
      → find (has_step_id i) s.run.steps ≡ some x
      → Ends Aligned IsAligned (prepare_parser services x s)
  unfolding prepare_parser is_completable
  prepare_parser-Ends i x s h f =
      if-both (Ends Aligned IsAligned) (not (node_is parser_parse x)) h (
        if-cases (Ends Aligned IsAligned) (not (is_completable x s.run)) (λ _. h)
          (λ e. if-both (Ends Aligned IsAligned) (not (services.parser_enabled s.run)) h (
            outputs-Ends x (services.parser_outputs x) s
              (waiting_here i x s h f (is_waiting e) (waits e)) (waits e))))
    where
      waits : not (is_completable x s.run) ≡ false → x.status ≡ StepStatus.waiting
      waits e = ground (arith, e)

      is_waiting :
          not (is_completable x s.run) ≡ false → run_is awaiting_step_completion s.run ≡ true
      is_waiting e = ground (arith, e)

  prepare_order-Ends :
      (x : RunStep) (s : Session)
      → IsAligned s.run
      → Ends Aligned IsAligned (prepare_order services x s)
  unfolding prepare_order
  prepare_order-Ends x s h =
      if-both (Ends Aligned IsAligned) (not (node_is order_preparation x)) h (
        if-both (Ends Aligned IsAligned) (not (is_completable x s.run)) h (
          if-both (Ends Aligned IsAligned) (order_unresolved x) h
            (closed-Ends (services.close_session x) s h)))

  prepare_step-Ends :
      (i : ℕ) (o : Option RunStep) (s : Session)
      → IsAligned s.run
      → find (has_step_id i) s.run.steps ≡ o
      → Ends Aligned IsAligned (prepare_step services o s)
  unfolding prepare_step
  prepare_step-Ends i none s h f = h
  prepare_step-Ends i (some x) s h f =
      goes_on Aligned Aligned IsAligned _ (prepare_parser services x s)
        (prepare_parser-Ends i x s h f) (λ _ t k. prepare_order-Ends x t k)

  pub complete_run_step-IsAligned :
      (i actor : ℕ) (s : Session)
      → IsAligned s.run
      → IsAligned (complete_run_step services i actor s).1.run
  unfolding complete_run_step request
  complete_run_step-IsAligned i actor s h = committed-IsAligned {A = Unit} IsAligned s _ h (
      goes_on Aligned Aligned IsAligned _
        (prepare_step services (find (has_step_id i) s.run.steps) s)
        (prepare_step-Ends i (find (has_step_id i) s.run.steps) s h refl)
        (λ _ t k. complete_workflow_step-Aligned services.collect i actor t k))

  pub confirm_run_step-IsAligned :
      (i actor : ℕ) (s : Session)
      → IsAligned s.run
      → IsAligned (confirm_run_step services i actor s).1.run
  unfolding confirm_run_step request
  confirm_run_step-IsAligned i actor s h =
      committed-IsAligned IsAligned s (complete_workflow_step services.collect i actor s) h
        (complete_workflow_step-Aligned services.collect i actor s h)

  prepare_retry-Ends :
      (i : ℕ) (o : Option RunStep) (s : Session)
      → IsAligned s.run
      → find (has_step_id i) s.run.steps ≡ o
      → Ends Aligned Anything (prepare_retry services o s)
  unfolding prepare_retry has_lost_action
  prepare_retry-Ends i none s h f = h
  prepare_retry-Ends i (some x) s h f =
      if-cases (Ends Aligned Anything) (has_lost_action x s.run)
        (λ e. given_up e (services.close_session x)) (λ _. h)
    where
      waits : has_lost_action x s.run ≡ true → x.status ≡ StepStatus.waiting
      waits e = ground (arith, e)

      is_waiting : has_lost_action x s.run ≡ true → run_is awaiting_step_completion s.run ≡ true
      is_waiting e = ground (arith, e)

      given_up :
          has_lost_action x s.run ≡ true
          → (r : Result (Unit {0})) → Ends Aligned Anything ((closed r >> give_up_action x) s)
      given_up e (ok u) =
          unfold closed in
          give_up_action-Ends x s (waiting_here i x s h f (is_waiting e) (waits e)) (waits e)
      given_up e (raised x') = unfold closed in tt

  pub retry_run_step-IsAligned :
      (i : ℕ) (s : Session) → IsAligned s.run → IsAligned (retry_run_step services i s).1.run
  unfolding retry_run_step request
  retry_run_step-IsAligned i s h =
      committed-IsAligned {A = Unit} Anything s
        (if is_parser (find (has_step_id i) s.run.steps)
          then raise (workflow_error parser_terminal_required 409) s
          else (prepare_retry services (find (has_step_id i) s.run.steps)
                >> (begin_workflow_step i BeginMode.retry >>= λ step. enqueue (step_task step)))
              s)
        h
        (if-both (Ends Aligned Anything) (is_parser (find (has_step_id i) s.run.steps))
          {x = raise (workflow_error parser_terminal_required 409) s} tt
          (goes_on Aligned Aligned Anything _
            (prepare_retry services (find (has_step_id i) s.run.steps) s)
            (prepare_retry-Ends i (find (has_step_id i) s.run.steps) s h refl)
            (λ _ t k.
              Ends-forget Aligned IsAligned
                ((begin_workflow_step i BeginMode.retry >>= λ step. enqueue (step_task step)) t)
                (begin_enqueue-Ends BeginMode.retry i t k))))
