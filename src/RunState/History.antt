-- ===== src/RunState/History.antt =====
-- The status history that `transition_run` of backend/app/services/run_state.py appends to.
use open_slt.Prelude.{ℕ, ◌+◌, if-both, true, ◌≡◌, inl, inr, refl, List, [], ◌∷◌, ◌++◌, arith, same}
use open_slt.Status.{RunStatus, RunStatus-discrete, draft}
use open_slt.Domain.{RunStatusTransition, TestRun}
use open_slt.RunState.{Origin, record_transition}
use open_slt.RunState.Table.{run_edge}
use open_slt.RunState.Transitions.{attempt, attempts, attempt_cases}

-- The records lead from status `s` at version `v` to status `t` at version `w`: each starts where
-- the one before it ended, has the next version, and is an edge of the table.
abbrev pub Chain : RunStatus → ℕ → List RunStatusTransition → RunStatus → ℕ → Type 0
Chain s v [] t w = (s ≡ t) × (v ≡ w)
Chain s v (r ∷ rs) t w =
    (r.from_status ≡ s)
    × (r.status_version ≡ v + 1)
    × (run_edge s r.to_status ≡ true)
    × Chain r.to_status (v + 1) rs t w

-- The history of a run leads from its first status, `draft`, to the status that it has.
abbrev pub HistoryIsComplete : TestRun → Type 0
HistoryIsComplete run = Chain draft 0 run.status_transitions run.status run.status_version

Chain-snoc :
    (s : RunStatus) (v : ℕ) (rs : List RunStatusTransition) (t : RunStatus) (w : ℕ)
    (r : RunStatusTransition)
    → Chain s v rs t w
    → r.from_status ≡ t
    → r.status_version ≡ w + 1
    → run_edge t r.to_status ≡ true
    → Chain s v (rs ++ r ∷ []) r.to_status (w + 1)
Chain-snoc s v [] t w r h from version edge = ground arith
Chain-snoc s v (x ∷ rs) t w r h from version edge =
    (h.0, h.1, h.2, Chain-snoc x.to_status (v + 1) rs t w r h.3 from version edge)

record_transition-HistoryIsComplete :
    (o : Origin) (run : TestRun) (t : RunStatus)
    → run_edge run.status t ≡ true
    → HistoryIsComplete run
    → HistoryIsComplete (record_transition o run t)
unfolding record_transition
record_transition-HistoryIsComplete o run t edge h =
    if-both HistoryIsComplete (same RunStatus-discrete run.status t) h
      (Chain-snoc draft 0 run.status_transitions run.status run.status_version _ h refl refl edge)

attempt-HistoryIsComplete :
    (run : TestRun) (q : Origin × RunStatus)
    → HistoryIsComplete run
    → HistoryIsComplete (attempt run q)
attempt-HistoryIsComplete run q h = elim (attempt_cases run q) [
  | inl e ↦ rw e h
  | inr e ↦ rw e.0 (record_transition-HistoryIsComplete q.0 run q.1 e.1 h)
]

-- Whatever transitions are requested, from whatever services, and whichever of them raise: a run
-- whose history led from `draft` at version 0 to its status still has such a history afterwards.
-- The records are numbered one by one, each starts where the one before it ended, each is an edge
-- of the transition table, and the last one ends in the status and the version that the run has.
pub attempts-HistoryIsComplete :
    (run : TestRun) (qs : List (Origin × RunStatus))
    → HistoryIsComplete run
    → HistoryIsComplete (attempts run qs)
unfolding attempts
attempts-HistoryIsComplete run [] h = h
attempts-HistoryIsComplete run (q ∷ qs) h =
    attempts-HistoryIsComplete (attempt run q) qs (attempt-HistoryIsComplete run q h)
