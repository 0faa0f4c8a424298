-- ===== src/Edit/Command/Tests.antt =====
-- A scene of two entities that is edited.
use atlas_engine.Base.{ℕ, ◌≡◌, refl, Bool, true, false, none, some, List, [], ◌∷◌}
use atlas_engine.Core.Error.{ok}
use atlas_engine.Edit.Scene.{LocalTransform, Camera, Entity, Scene, lookup, replace}
use atlas_engine.Edit.Command.{
  Edit, rename, set_camera, apply_edit, revert_edit, edits, rename_component, set_camera_component,
}
use atlas_engine.Edit.Command.Reachable.{
  made_by, run-edits-IsValid, undo-redo-edits, apply-undo-edits,
}
use atlas_engine.Edit.History.{
  apart, with_previous, new_history, apply, undo, redo, keep, record_command, push_undo,
}
use atlas_engine.Edit.History.Laws.{IsValid}
use atlas_engine.Edit.History.Undo.{Op, applies, undoes, run, step}

-- The patterns of the floats 0 and 1.
abbrev at_rest : LocalTransform
at_rest = record {
  position = record { x = 0; y = 0 };
  rotation = 0;
  scale = record { x = 1065353216; y = 1065353216 };
}

abbrev entity : ℕ → Entity
entity id = record {
  id = id;
  name = 104 ∷ [];
  transform = at_rest;
  hierarchy = record { parent = 0; children = [] };
  sprite = none;
  animator = none;
  camera = none;
}

abbrev scene : Scene
scene = record { entities = entity 1 ∷ entity 2 ∷ []; next_id = 3 }

abbrev view : Camera
view = record { zoom = 1065353216; active = true }

abbrev named : Bool → Edit
named captured = rename (record { id = 2; after = 105 ∷ []; before = []; captured = captured })

abbrev sees : Edit
sees = set_camera (record { id = 2; after = some view; before = none; captured = false })

abbrev session : List (Op Edit)
session = applies (some (named false)) apart ∷ applies (some sees) with_previous ∷ undoes ∷ []

run-edits-IsValid_example : IsValid edits (made_by scene 16 session)
run-edits-IsValid_example = run-edits-IsValid scene 16 session (refl, (refl, (tt, tt)))

-- The rename, as it is once it was applied.
abbrev renamed : Edit
renamed = rename (record { id = 2; after = 105 ∷ []; before = 104 ∷ []; captured = true })

named_stack : (made_by scene 16 session).undo_stack ≡ renamed ∷ []
unfolding run step apply keep record_command push_undo new_history undo apply_edit lookup
    rename_component replace set_camera_component revert_edit
named_stack = refl

undo-redo-edits_example :
    let h = made_by scene 16 session in
    let (undone, back) = undo edits h in
    let (redone, again) = redo edits back in
    (undone ≡ true)
    × (redone ≡ true)
    × (again.scene ≡ h.scene)
    × (again.undo_stack ≡ h.undo_stack)
    × (again.redo_stack ≡ h.redo_stack)
undo-redo-edits_example =
    undo-redo-edits scene 16 session renamed [] (refl, (refl, (tt, tt))) named_stack

abbrev seen : Edit
seen = set_camera (record { id = 2; after = some view; before = none; captured = true })

abbrev with_view : Scene
with_view = record {
  entities = entity 1 ∷ (record (entity 2) { name = 105 ∷ []; camera = some view }) ∷ [];
  next_id = 3;
}

sees_again : apply_edit sees (made_by scene 16 session).scene ≡ ok (seen, with_view)
unfolding run step apply keep record_command push_undo new_history undo apply_edit lookup
    rename_component replace set_camera_component revert_edit
sees_again = refl

apply-undo-edits_example :
    let h = made_by scene 16 session in
    let (status, after) = apply edits h (some sees) apart in
    let (undone, back) = undo edits after in
    (status ≡ ok tt) × (after.scene ≡ with_view) × (undone ≡ true) × (back.scene ≡ h.scene)
apply-undo-edits_example =
    apply-undo-edits scene 16 session sees seen with_view (refl, (refl, (tt, tt))) refl sees_again
