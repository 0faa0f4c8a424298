-- ===== src/Simulation/TurnGate/Tests.antt =====
-- The gate at concrete inputs.
use atlas_engine.Base.{◌≡◌, refl, arith, false, ◌||◌, ◌&&◌, ◌==◌, ltb, [], ◌∷◌, some}
use atlas_engine.Core.Error.{ok}
use atlas_engine.Simulation.TurnGate.{
  Source, TurnGate, find_source, is_empty, ready, ready_horizon, mark_complete, record_turn, absorb,
  set_bit, shift, retire_before,
}
use atlas_engine.Simulation.TurnGate.Mark.{IsWindow}
use atlas_engine.Simulation.TurnGate.Ready.{
  gate_completed, ready-ready_horizon, mark_complete-gate_completed,
}

-- Turn 6 is in, turn 5 is not.
abbrev early : Source
early = record { id = 2; complete_before = 5; ahead = 2 ∷ 0 ∷ 0 ∷ 0 ∷ [] }

abbrev ahead_of_it : Source
ahead_of_it = record { id = 7; complete_before = 9; ahead = 0 ∷ 0 ∷ 0 ∷ 0 ∷ [] }

abbrev gate : TurnGate
gate = record { expected = early ∷ ahead_of_it ∷ []; ids = 2 ∷ 7 ∷ []; floor = 3 }

early-IsWindow : IsWindow early.ahead
unfolding IsWindow
early-IsWindow = (refl, omega arith)

found : find_source 2 gate.expected ≡ some early
unfolding find_source
found = refl

busy : is_empty gate.expected ≡ false
unfolding is_empty
busy = refl

absorbs_two :
    record_turn early 5 ≡ ok (record early { complete_before = 7; ahead = 0 ∷ 0 ∷ 0 ∷ 0 ∷ [] })
unfolding record_turn absorb set_bit shift
absorbs_two = refl

retire_before_7 : (retire_before gate 7).floor ≡ 7
unfolding retire_before
retire_before_7 = refl

mark_complete-gate_completed_example :
    (new : TurnGate) × (mark_complete gate 2 5 ≡ ok new)
    × (gate_completed new 2 6 ≡ gate_completed gate 2 6 || (2 == 2) && (6 == 5))
mark_complete-gate_completed_example =
    mark_complete-gate_completed gate 2 5 2 6 early found early-IsWindow (omega arith) (omega arith)
      (omega arith) (omega arith)

ready-ready_horizon_example : ready gate 4 ≡ ltb 4 (ready_horizon gate)
ready-ready_horizon_example = ready-ready_horizon gate 4 busy (omega arith) (omega arith)
