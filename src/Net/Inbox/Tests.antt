-- ===== src/Net/Inbox/Tests.antt =====
-- The inbox at a short run.
use atlas_engine.Base.{List, [], ◌∷◌}
use atlas_engine.Net.Inbox.Accounting.{Op, pushes, drains, run, begin, IsTrace, run-begin-IsTrace}

abbrev calls : List Op
calls = pushes (1 ∷ 2 ∷ []) ∷ pushes (3 ∷ []) ∷ drains ∷ pushes (4 ∷ []) ∷ []

run-begin-IsTrace_example : IsTrace (run begin calls)
run-begin-IsTrace_example = run-begin-IsTrace calls
