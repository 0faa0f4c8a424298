-- ===== src/Lib.antt =====
-- atlas-engine: the deterministic core of the engine, the parts that decide which state a tick
-- produces and on which the lockstep of several machines rests, and two containers beside it.
--
-- The parts. `tick_accumulator` says how many ticks are due from the time that passed; `command` holds the commands that players submitted, and drains those due in a total order
-- that every machine agrees on; `turn_gate` holds a tick back until each source has completed it;
-- `rng` gives a system its random numbers as a function of seed, stream, tick and counter, and names
-- its streams by the hash of `core/hash`; `save_stream` is the byte format of saves, replays and
-- messages, and `command_codec` writes commands in it. `world` holds the tables that a game registers,
-- in an order that does not depend on who registered first, and hashes them; `kernel` runs one tick
-- over all of these: it asks the gate, drains and applies the commands, runs the systems and reports
-- the hashes. `replay` records the commands and the hashes of a run, and runs them again.
-- `net/message` is what two peers say to each other, and `net/session` is one peer of a
-- lockstep session: the handshake, the turns, the comparison of hashes, the finish and the going on
-- without a peer that was lost. `core/handle` is the pool behind the engine's
-- handles. `schedule` groups the systems of a tick into batches that may run side by side. `net/inbox`
-- is the queue between the transport's thread and the main one. `edit/history` is the undo history of
-- the editor.
--
-- The files. Each part is one module with one definition for each operation, which bears the
-- operation's name; child modules hold the proofs and are named for what they prove.
--   Core.Error                  engine/core/include/atlas/core/error.hpp, result.hpp
--   Core.Handle                 engine/core/include/atlas/core/handle.hpp
--   Core.Hash                   engine/core/include/atlas/core/hash.hpp
--   Simulation.TickAccumulator  engine/simulation/src/tick_accumulator.cpp and its header
--   Simulation.SaveStream       engine/simulation/src/save_stream.cpp and its header
--   Simulation.Command          engine/simulation/src/command.cpp and its header
--   Simulation.CommandCodec     engine/simulation/src/command_codec.cpp and its header
--   Simulation.TurnGate         engine/simulation/src/turn_gate.cpp and its header
--   Simulation.Rng              engine/simulation/include/atlas/simulation/rng.hpp
--   Simulation.Schedule         engine/simulation/src/schedule.cpp and its header
--   Simulation.World            engine/simulation/src/world.cpp, its header and that of the tables
--   Simulation.Kernel           engine/simulation/src/kernel.cpp and its header
--   Simulation.Replay           engine/simulation/src/replay.cpp and its header
--   Net.Protocol                engine/net/include/atlas/net/protocol.hpp
--   Net.Message                 engine/net/src/message.cpp and its header
--   Net.Session                 engine/net/src/session.cpp, its header and that of the link
--   Net.Inbox                   engine/net/src/inbox.cpp and its header
--   Edit.History                engine/edit/src/history.cpp and its header
--   Edit.Command                engine/edit/src/command.cpp and its header
--   Edit.Scene                  engine/scene/src/scene.cpp and the header of the components
--   Base                        tests, lists, orders, words and digits that the others share
--
-- State and operations. An object is a record of its members, a call takes it and returns it, and an
-- `Error` is its code: the text and the chain of contexts are for people. A word of 32 or 64 bits is a
-- natural number, with its wrap-around written out. Bytes and characters are numbers. A map is a list
-- in the order of its keys. A handler of a command, a table, the two phases of a system
-- and the link to the other peers are parameters. The history takes any commands; those of the editor
-- that set or remove one component of an entity are one such set. A batch of systems runs in the
-- order of its list, as it does without a worker pool.
--
-- Bounds and fuel. The gate's loop that absorbs completed turns takes 256 steps of fuel, the width
-- of the window, after which no bit is left. The walk over two sorted lists takes the sum of their
-- lengths, and the hash of whole blocks the length of its input, since every step takes something
-- away. The loop that draws again takes a number of draws, and what is said of it holds when one of
-- those draws is accepted, since the code bounds nothing there. A poll reads at most 64 messages of
-- each peer, as the source does; the other loops walk a list.
--
-- Not modelled: the interpolation factor of a plan as a float (its exact numerator is), signed words
-- and floats of the save stream, text for people, locks and the asserts on the calling thread.
-- Of a divergence only its tick is kept: the system that it is attributed to is for people.
-- Outside these parts: saves, the transports below a link, the hierarchy and the files of a scene,
-- with the commands that create, destroy and move an entity in it, scripts, and everything that
-- draws, plays, reads files or talks to the platform.
mod Base
pub mod Core
pub mod Edit
pub mod Net
pub mod Simulation
