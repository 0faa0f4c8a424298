-- ===== src/Simulation/Command/Tests.antt =====
-- The queue at concrete values.
use mathlib.Core.List.{Perm}
use mathlib.Core.List.Perm
use atlas_engine.Base.{ℕ, ◌+◌, ◌≤◌, ◌<◌, ◌≡◌, refl, [], ◌∷◌, ◌++◌, arith, map, All}
use atlas_engine.Base.OrderedMap.{find, put}
use atlas_engine.Base.Lex.{sort_by}
use atlas_engine.Core.Error.{ok}
use atlas_engine.Simulation.Command.{
  Command, Registered, CommandQueue, drain, due, precedes, submit_stamped, admit, handler_for,
  next_sequence,
}
use atlas_engine.Simulation.Command.Order.{key}
use atlas_engine.Simulation.Command.Drain.{Sorted, drain-perm, drain-Sorted, drain_arrival}
use atlas_engine.Simulation.Command.Sequence.{IsValid, submit_stamped-IsValid}

abbrev early : Command
early = record { target = 4; source = 1; sequence = 0; type = 9; payload = [] }

abbrev other : Command
other = record { target = 4; source = 0; sequence = 7; type = 9; payload = 5 ∷ [] }

abbrev future : Command
future = record { target = 6; source = 1; sequence = 1; type = 9; payload = [] }

-- The world is a number, and a command adds its tick.
abbrev adds : Registered ℕ
adds = record { validate = λ p. ok tt; apply = λ w c p. (ok tt, w + c.tick) }

abbrev busy : CommandQueue ℕ
busy = record {
  handlers = (9, adds) ∷ [];
  next_sequences = (0, 8) ∷ (1, 2) ∷ [];
  pending = early ∷ future ∷ other ∷ [];
}

abbrev reordered : CommandQueue ℕ
reordered = record busy { pending = future ∷ early ∷ other ∷ [] }

drain_runs : (drain busy 4).0 ≡ other ∷ early ∷ []
unfolding drain due precedes sort_by
drain_runs = refl

busy-IsValid : IsValid busy
unfolding next_sequence find
busy-IsValid = omega arith

drain-perm_example :
    Perm ((drain busy 4).0 ++ (drain busy 4).1.pending) (early ∷ future ∷ other ∷ [])
drain-perm_example = drain-perm busy 4

drain-Sorted_example :
    Sorted (drain busy 4).0
    × All (λ c. c.target ≤ 4) (drain busy 4).0
    × All (λ c. 4 < c.target) (drain busy 4).1.pending
drain-Sorted_example = drain-Sorted busy 4

drain_arrival_example : map key (drain busy 4).0 ≡ map key (drain reordered 4).0
drain_arrival_example = drain_arrival busy reordered 4 (Perm.swap future early (other ∷ []))

submit_stamped-IsValid_example : IsValid (record busy {
  next_sequences = (0, 8) ∷ (1, 21) ∷ [];
  pending =
      early
      ∷ future
      ∷ other
      ∷ record { target = 5; source = 1; sequence = 20; type = 9; payload = [] }
      ∷ [];
})
unfolding submit_stamped admit handler_for next_sequence find put
submit_stamped-IsValid_example =
    submit_stamped-IsValid busy
      (record { target = 5; source = 1; sequence = 20; type = 9; payload = [] }) busy-IsValid
      (omega arith) refl
