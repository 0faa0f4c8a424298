-- ===== src/Edit/Command/Reachable.antt =====
-- The history of a scene after any calls: what it holds can be undone and done again.
use atlas_engine.Base.{ℕ, ◌≡◌, true, some, List, ◌∷◌, All}
use atlas_engine.Core.Error.{ok}
use atlas_engine.Edit.Scene.{Scene}
use atlas_engine.Edit.Command.{Edit, apply_edit, edits}
use atlas_engine.Edit.Command.Reversal.{IsFresh, edits-IsReversible}
use atlas_engine.Edit.History.{apart, History, new_history, apply, undo, redo}
use atlas_engine.Edit.History.Laws.{IsValid}
use atlas_engine.Edit.History.Undo.{
  Op, IsNewOp, run, run-new_history-IsValid, undo-redo, apply-undo,
}

-- The history after some calls on a new one.
abbrev pub made_by : Scene → ℕ → List (Op Edit) → History Scene Edit
made_by scene capacity os = run edits (new_history scene capacity) os

-- Whatever calls are made on a new history of a scene, with commands of the eight classes that were
-- not applied before: each command to undo takes the present back to the scene before it and each
-- command to redo goes on from there, the two stacks together stay within the capacity, and an edit
-- that may still grow leaves nothing to redo.
pub run-edits-IsValid :
    (scene : Scene) (capacity : ℕ) (os : List (Op Edit))
    → All (IsNewOp IsFresh) os
    → IsValid edits (made_by scene capacity os)
run-edits-IsValid scene capacity os w =
    run-new_history-IsValid edits scene capacity os edits-IsReversible w

-- Whatever calls were made on a new history of a scene, with commands of the eight classes that were
-- not applied before, if there is something to undo: `undo` succeeds, and a `redo` after it succeeds
-- and brings back the scene and both stacks.
pub undo-redo-edits :
    (scene : Scene) (capacity : ℕ) (os : List (Op Edit)) (c : Edit) (rest : List Edit)
    → All (IsNewOp IsFresh) os
    → (made_by scene capacity os).undo_stack ≡ c ∷ rest
    → let h = made_by scene capacity os in
      let (undone, back) = undo edits h in
      let (redone, again) = redo edits back in
      (undone ≡ true)
      × (redone ≡ true)
      × (again.scene ≡ h.scene)
      × (again.undo_stack ≡ h.undo_stack)
      × (again.redo_stack ≡ h.redo_stack)
undo-redo-edits scene capacity os c rest w e =
    undo-redo edits (made_by scene capacity os) c rest (run-edits-IsValid scene capacity os w) e

-- Whatever calls were made on a new history of a scene, with commands of the eight classes that were
-- not applied before: after an edit on its own that succeeds, with such a command, `undo` succeeds
-- and brings back the scene from before the edit.
pub apply-undo-edits :
    (scene : Scene) (capacity : ℕ) (os : List (Op Edit)) (c d : Edit) (t : Scene)
    → All (IsNewOp IsFresh) os
    → IsFresh c
    → apply_edit c (made_by scene capacity os).scene ≡ ok (d, t)
    → let h = made_by scene capacity os in
      let (status, after) = apply edits h (some c) apart in
      let (undone, back) = undo edits after in
      (status ≡ ok tt) × (after.scene ≡ t) × (undone ≡ true) × (back.scene ≡ h.scene)
apply-undo-edits scene capacity os c d t w new e =
    apply-undo edits (made_by scene capacity os) c d t edits-IsReversible new
      (run-edits-IsValid scene capacity os w) e
