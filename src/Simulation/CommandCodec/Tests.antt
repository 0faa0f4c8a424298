-- ===== src/Simulation/CommandCodec/Tests.antt =====
-- The codec at a concrete command.
use atlas_engine.Base.{◌≡◌, [], ◌∷◌, ◌++◌, arith}
use atlas_engine.Core.Error.{ok}
use atlas_engine.Simulation.SaveStream.RoundTrip.{from}
use atlas_engine.Simulation.SaveStream.{SaveReader}
use atlas_engine.Simulation.Command.{Command}
use atlas_engine.Simulation.CommandCodec.{write_command, read_command, read-write_command}

abbrev order : Command
order = record { target = 12; source = 3; sequence = 5; type = 77; payload = 1 ∷ 2 ∷ 3 ∷ [] }

read-write_command_example :
    let all = write_command [] order ++ (9 ∷ []) in
    read_command (from [] all) ≡ (ok order, from (write_command [] order) all)
read-write_command_example = read-write_command [] (9 ∷ []) order (omega arith)

abbrev short : SaveReader
short = record { bytes = 4 ∷ 0 ∷ 0 ∷ []; offset = 1 }
