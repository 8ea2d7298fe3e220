-- ===== src/Routes/Pausing.antt =====
-- Pausing and resuming a run (`run_pause` and `run_resume` of backend/app/api/routes/runs.py).
use open_slt.Prelude.{ℕ, true, false, ◌≡◌, refl, arith, ◌∙◌, if-both, some, ap, none, ◌+◌}
use open_slt.Status.{RunStatus, paused}
use open_slt.Errors.{Result, ok}
use open_slt.Domain.{TestRun, TaskType, resume_run_key}
use open_slt.RunState.Table.{run_edge, edge-paused, paused-edge}
use open_slt.RunState.Transitions.{advanced}
use open_slt.Tasks.{Enqueue, enqueue_task, is_supported}
use open_slt.Session.{Session}
use open_slt.Session.Effects.{set_status_edge}
use open_slt.Routes.{
  run_pause, run_resume, pause_from, is_pausable_run, by_api, resume_to, unpaused, enqueue_resumed,
  enqueue, committed, run_is, run_task,
}

-- What a request leaves alone when it enqueues a task.
pub record IsQuiet (r : Result (Unit {0}) × Session) (s : Session) : Type 0 where
  pub succeeds : r.0 ≡ ok tt
  pub same_run : r.1.run ≡ s.run
  pub same_locks : r.1.locks ≡ s.locks

pub enqueue-IsQuiet :
    (task : TestRun → Enqueue) (s : Session)
    → is_supported (task s.run).task_type ≡ true
    → IsQuiet (enqueue task s) s
unfolding enqueue enqueue_task
enqueue-IsQuiet task s h = ground arith

pub enqueue_resumed-IsQuiet :
    (previous : RunStatus) (s : Session) → IsQuiet (enqueue_resumed previous s) s
unfolding enqueue_resumed is_supported
enqueue_resumed-IsQuiet previous s =
    if-both (λ r. IsQuiet r s) _
      (enqueue-IsQuiet (run_task TaskType.start_run resume_run_key false) s refl)
      (record { succeeds = refl; same_run = refl; same_locks = refl })

unfoldable pub paused_session : ℕ → Session → Session
paused_session actor s = record s {
  run = advanced (by_api actor "run paused") (pause_from s.run) paused;
}

pub pause :
    (actor : ℕ) (s : Session)
    → is_pausable_run s.run ≡ true
    → run_pause actor s ≡ (ok tt, paused_session actor s)
unfolding run_pause paused_session pause_from
pause actor s h = rw h (
    rw
      (set_status_edge (by_api actor "run paused") paused (record s { run = pause_from s.run })
        (edge-paused s.run.status ∙ h))
      refl)

unfoldable pub resumed_session : ℕ → RunStatus → Session → Session
resumed_session actor previous s = record s {
  run = unpaused (advanced (by_api actor "run resumed") s.run previous);
}

resume_to_edge :
    (actor : ℕ) (previous : RunStatus) (s : Session)
    → run_edge s.run.status previous ≡ true
    → resume_to actor (some previous) s
      ≡ enqueue_resumed previous (resumed_session actor previous s)
unfolding resume_to resumed_session
resume_to_edge actor previous s h =
    rw (set_status_edge (by_api actor "run resumed") previous s h) refl

pub resume :
    (actor : ℕ) (previous : RunStatus) (s : Session)
    → s.run.status ≡ paused
    → s.run.paused_from ≡ some previous
    → run_edge paused previous ≡ true
    → run_resume actor s ≡ committed s (enqueue_resumed previous (resumed_session actor previous s))
unfolding run_resume
resume actor previous s st pf edge = rw is_paused (
    ap (λ o. committed s (resume_to actor o s)) pf
    ∙ ap (committed s) (resume_to_edge actor previous s (rw st edge)))
  where
    is_paused : run_is paused s.run ≡ true
    is_paused = ground arith

pub committed-IsQuiet :
    (before s : Session) (r : Result (Unit {0}) × Session)
    → IsQuiet r s
    → IsQuiet (committed before r) s
unfolding committed
committed-IsQuiet before s r q = ground arith

-- A run that is in a pausable status is paused and then resumed: both requests succeed, in between
-- the run is `paused`, and afterwards it is in the status it was in, remembers none, and has the
-- same steps and the same locks as before, its history being longer by two.
pub run_pause-run_resume :
    (a b : ℕ) (s : Session)
    → is_pausable_run s.run ≡ true
    → let (r, p) = run_pause a s in
      let (r', u) = run_resume b p in
      (r ≡ ok tt)
      × (p.run.status ≡ paused)
      × (r' ≡ ok tt)
      × (u.run.status ≡ s.run.status)
      × (u.run.paused_from ≡ none)
      × (u.run.steps ≡ s.run.steps)
      × (u.locks ≡ s.locks)
      × (u.run.status_version ≡ s.run.status_version + 2)
run_pause-run_resume a b s h =
    rw
      (
        pause a s h,
        resume b s.run.status (paused_session a s) (unfold paused_session in refl)
            (unfold paused_session pause_from in refl) edge,
      )
      (
        refl,
        unfold paused_session in refl,
        quiet.succeeds,
        ap (λ r. r.status) quiet.same_run ∙ unfold resumed_session unpaused in refl,
        ap (λ r. r.paused_from) quiet.same_run ∙ unfold resumed_session unpaused in refl,
        ap (λ r. r.steps) quiet.same_run
            ∙ unfold resumed_session unpaused paused_session pause_from in refl,
        quiet.same_locks ∙ unfold resumed_session paused_session in refl,
        ap (λ r. r.status_version) quiet.same_run ∙ versions,
      )
  where
    edge : run_edge paused s.run.status ≡ true
    edge = ground (arith, paused-edge s.run.status)

    versions :
        (resumed_session b s.run.status (paused_session a s)).run.status_version
        ≡ s.run.status_version + 2
    versions = unfold resumed_session unpaused paused_session pause_from in omega arith

    quiet :
        IsQuiet
          (committed
            (paused_session a s)
            (enqueue_resumed s.run.status (resumed_session b s.run.status (paused_session a s))))
          (resumed_session b s.run.status (paused_session a s))
    quiet =
        committed-IsQuiet (paused_session a s) _ _ (
          enqueue_resumed-IsQuiet s.run.status
            (resumed_session b s.run.status (paused_session a s)))
