-- ===== src/RunState/Table.antt =====
-- What the transition tables of backend/app/services/run_state.py allow.
use open_slt.Prelude.{Bool, true, not, ◌||◌, ◌≡◌, refl, arith, mem, same, if◌then◌else◌}
use open_slt.Status.{
  RunStatus, RunStatus-discrete, StepStatus, StepStatus-discrete, draft, paused, cancelled,
  timed_out, terminal_run_statuses, pausable_run_statuses,
}
use open_slt.Errors.{Error, ok, raised}
use open_slt.RunState.{
  TransitionTable, has_entry, targets, run_transitions, step_transitions, transition,
}

-- The table has an edge from `s` to `t`.
abbrev pub run_edge : RunStatus → RunStatus → Bool
run_edge s t = mem RunStatus-discrete t (targets RunStatus-discrete s run_transitions)

abbrev pub step_edge : StepStatus → StepStatus → Bool
step_edge s t = mem StepStatus-discrete t (targets StepStatus-discrete s step_transitions)

run_key : (s : RunStatus) → has_entry RunStatus-discrete s run_transitions ≡ true
unfolding run_transitions RunStatus-discrete
run_key draft = refl
run_key _ = refl

step_key : (s : StepStatus) → has_entry StepStatus-discrete s step_transitions ≡ true
unfolding step_transitions StepStatus-discrete
step_key StepStatus.pending = refl
step_key _ = refl

module _ {S : Type 0} (d : Discrete S) (table : TransitionTable S) (invalid : S → S → Error) where
  transition_of_keys :
      (s t : S)
      → has_entry d s table ≡ true
      → has_entry d t table ≡ true
      → transition d table invalid s t
        ≡ (if same d s t || mem d t (targets d s table) then ok t else raised (invalid s t))
  unfolding transition
  transition_of_keys s t h k = ground arith

-- no status lacks a key, so only the edges decide
pub run-transition :
    (invalid : RunStatus → RunStatus → Error) (s t : RunStatus)
    → transition RunStatus-discrete run_transitions invalid s t
      ≡ (if same RunStatus-discrete s t || run_edge s t then ok t else raised (invalid s t))
run-transition invalid s t = transition_of_keys _ _ invalid s t (run_key s) (run_key t)

pub step-transition :
    (invalid : StepStatus → StepStatus → Error) (s t : StepStatus)
    → transition StepStatus-discrete step_transitions invalid s t
      ≡ (if same StepStatus-discrete s t || step_edge s t then ok t else raised (invalid s t))
step-transition invalid s t = transition_of_keys _ _ invalid s t (step_key s) (step_key t)

abbrev pub is_terminal : RunStatus → Bool
is_terminal s = mem RunStatus-discrete s terminal_run_statuses

abbrev pub is_pausable : RunStatus → Bool
is_pausable s = mem RunStatus-discrete s pausable_run_statuses

-- Cancelling and timing out are open to exactly the statuses that are not terminal.
pub edge-cancelled : (s : RunStatus) → run_edge s cancelled ≡ not (is_terminal s)
unfolding run_transitions RunStatus-discrete terminal_run_statuses
edge-cancelled draft = refl
edge-cancelled _ = refl

pub edge-timed_out : (s : RunStatus) → run_edge s timed_out ≡ not (is_terminal s)
unfolding run_transitions RunStatus-discrete terminal_run_statuses
edge-timed_out draft = refl
edge-timed_out _ = refl

-- The pausable statuses are exactly those with an edge into `paused`, and with an edge back.
pub edge-paused : (s : RunStatus) → run_edge s paused ≡ is_pausable s
unfolding run_transitions RunStatus-discrete pausable_run_statuses
edge-paused draft = refl
edge-paused _ = refl

pub paused-edge :
    (s : RunStatus)
    → run_edge paused s
      ≡ is_pausable s
        || (same RunStatus-discrete s cancelled || same RunStatus-discrete s timed_out)
unfolding run_transitions RunStatus-discrete pausable_run_statuses
paused-edge draft = refl
paused-edge _ = refl
