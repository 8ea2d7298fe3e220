-- ===== src/RunState/Reach.antt =====
-- The statuses that a run does not leave (backend/app/services/run_state.py).
use open_slt.Prelude.{Bool, true, false, ◌≡◌, refl, List, [], ◌∷◌, arith}
use open_slt.Status.{RunStatus, RunStatus-discrete, completed, cancelled, timed_out}
use open_slt.Domain.{TestRun}
use open_slt.RunState.{Origin, run_transitions}
use open_slt.RunState.Table.{run_edge}
use open_slt.RunState.Transitions.{attempt, attempts, attempt_cases}

-- The statuses that end a run for good.
abbrev pub is_final : RunStatus → Bool
is_final completed = true
is_final cancelled = true
is_final timed_out = true
is_final _ = false

final_edge : (s t : RunStatus) → is_final s ≡ true → run_edge s t ≡ false
unfolding run_transitions RunStatus-discrete
final_edge completed t h = refl
final_edge cancelled t h = refl
final_edge timed_out t h = refl
final_edge _ t h = cc

attempt_final :
    (run : TestRun) (q : Origin × RunStatus) → is_final run.status ≡ true → attempt run q ≡ run
attempt_final run q h = ground (arith, attempt_cases run q, final_edge run.status q.1 h)

-- A run that is completed, cancelled or timed out stays exactly as it is, whatever transitions are
-- requested afterwards.
pub attempts_final :
    (run : TestRun) (qs : List (Origin × RunStatus))
    → is_final run.status ≡ true
    → attempts run qs ≡ run
unfolding attempts
attempts_final run [] h = refl
attempts_final run (q ∷ qs) h = rw (attempt_final run q h) (attempts_final run qs h)
