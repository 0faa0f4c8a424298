-- ===== src/Edit/Command.antt =====
-- engine/edit/include/atlas/edit/command.hpp and src/command.cpp: the eight commands that set or
-- remove one component of one entity. `Reparent`, `Create` and `Destroy`, which change the hierarchy,
-- are left out. The eight classes have one body over the component that each edits, so a class is a
-- `Component`: how the component is read and written, and what a first application asks of it.
pub mod Laws
pub mod Classes
pub mod Reversal
pub mod Reachable
mod Tests
use atlas_engine.Base.{ℕ, Bool, true, false, not, ◌&&◌, Option, none, some, ◌==◌, if◌then◌else◌}
use atlas_engine.Core.Error.{Result, ok, err, not_found}
use atlas_engine.Simulation.SaveStream.{Bytes}
use atlas_engine.Edit.Scene.{
  LocalTransform, SpriteRenderData, Animator, Camera, Entity, Scene, lookup, replace,
}
use atlas_engine.Edit.History.{Commands}

pub record Component (V : Type 0) : Type 0 where
  pub read : Entity → V
  pub write : V → Entity → Entity
  pub editable : V → Bool

-- The members of a command. For a component that an entity may lack, the image before is optional,
-- and the image after is the component or, for a removal, its absence. `before` means nothing until
-- the image is captured.
pub record Change (V : Type 0) : Type 0 where
  pub id : ℕ
  pub after : V
  pub before : V
  pub captured : Bool

-- The image before is captured by the first application only.
unfoldable pub capture : {V : Type 0} → Component V → Change V → Entity → Change V
capture k c e = if c.captured then c else record c { before = k.read e; captured = true }

unfoldable pub apply_change :
    {V : Type 0} → Component V → Change V → Scene → Result (Change V × Scene)
unfolding capture
apply_change k c s = elim (lookup s c.id) [
  | none ↦ err not_found
  | some e ↦
      if not c.captured && not (k.editable (k.read e))
      then err not_found
      else ok (capture k c e, replace s c.id (k.write c.after))
]

unfoldable pub revert_change : {V : Type 0} → Component V → Change V → Scene → Result Scene
revert_change k c s = elim (lookup s c.id) [
  | none ↦ err not_found
  | some e ↦ ok (replace s c.id (k.write c.before))
]

-- A later change of the same component of the same entity.
unfoldable pub merge_change : {V : Type 0} → Change V → Change V → Option (Change V)
merge_change c d = if not (d.id == c.id) then none else some (record c { after = d.after })

abbrev is_there : {V : Type 0} → Option V → Bool
is_there o = elim o [ some v ↦ true | none ↦ false ]

unfoldable pub rename_component : Component Bytes
rename_component = record {
  read = λ e. e.name;
  write = λ v e. record e { name = v };
  editable = λ v. true;
}

unfoldable pub set_local_transform_component : Component LocalTransform
set_local_transform_component = record {
  read = λ e. e.transform;
  write = λ v e. record e { transform = v };
  editable = λ v. true;
}

unfoldable pub set_sprite_component : Component (Option SpriteRenderData)
set_sprite_component = record {
  read = λ e. e.sprite;
  write = λ v e. record e { sprite = v };
  editable = λ v. true;
}

-- A removal asks for a component to remove.
unfoldable pub remove_sprite_component : Component (Option SpriteRenderData)
remove_sprite_component = record set_sprite_component { editable = is_there }

unfoldable pub set_animator_component : Component (Option Animator)
set_animator_component = record {
  read = λ e. e.animator;
  write = λ v e. record e { animator = v };
  editable = λ v. true;
}

unfoldable pub remove_animator_component : Component (Option Animator)
remove_animator_component = record set_animator_component { editable = is_there }

unfoldable pub set_camera_component : Component (Option Camera)
set_camera_component = record {
  read = λ e. e.camera;
  write = λ v e. record e { camera = v };
  editable = λ v. true;
}

unfoldable pub remove_camera_component : Component (Option Camera)
remove_camera_component = record set_camera_component { editable = is_there }

pub data Edit : Type 0 where
  rename : Change Bytes → Edit
  set_local_transform : Change LocalTransform → Edit
  set_sprite remove_sprite : Change (Option SpriteRenderData) → Edit
  set_animator remove_animator : Change (Option Animator) → Edit
  set_camera remove_camera : Change (Option Camera) → Edit

-- A command of a class from the change that it holds.
abbrev pub as_edit :
    {V : Type 0} → (Change V → Edit) → Result (Change V × Scene) → Result (Edit × Scene)
as_edit make (ok (c, s)) = ok (make c, s)
as_edit make (err e) = err e

unfoldable pub apply_edit : Edit → Scene → Result (Edit × Scene)
unfolding apply_change
apply_edit (rename c) s = as_edit rename (apply_change rename_component c s)
apply_edit (set_local_transform c) s =
    as_edit set_local_transform (apply_change set_local_transform_component c s)
apply_edit (set_sprite c) s = as_edit set_sprite (apply_change set_sprite_component c s)
apply_edit (remove_sprite c) s = as_edit remove_sprite (apply_change remove_sprite_component c s)
apply_edit (set_animator c) s = as_edit set_animator (apply_change set_animator_component c s)
apply_edit (remove_animator c) s =
    as_edit remove_animator (apply_change remove_animator_component c s)
apply_edit (set_camera c) s = as_edit set_camera (apply_change set_camera_component c s)
apply_edit (remove_camera c) s = as_edit remove_camera (apply_change remove_camera_component c s)

unfoldable pub revert_edit : Edit → Scene → Result Scene
unfolding revert_change
revert_edit (rename c) s = revert_change rename_component c s
revert_edit (set_local_transform c) s = revert_change set_local_transform_component c s
revert_edit (set_sprite c) s = revert_change set_sprite_component c s
revert_edit (remove_sprite c) s = revert_change remove_sprite_component c s
revert_edit (set_animator c) s = revert_change set_animator_component c s
revert_edit (remove_animator c) s = revert_change remove_animator_component c s
revert_edit (set_camera c) s = revert_change set_camera_component c s
revert_edit (remove_camera c) s = revert_change remove_camera_component c s

abbrev pub merged_as : {V : Type 0} → (Change V → Edit) → Option (Change V) → Option Edit
merged_as make o = elim o [ some c ↦ some (make c) | none ↦ none ]

-- `dynamic_cast<const Rename*>(&later)`.
unfoldable pub as_rename : Edit → Option (Change Bytes)
as_rename (rename c) = some c
as_rename _ = none

unfoldable pub as_set_local_transform : Edit → Option (Change LocalTransform)
as_set_local_transform (set_local_transform c) = some c
as_set_local_transform _ = none

unfoldable pub as_set_animator : Edit → Option (Change (Option Animator))
as_set_animator (set_animator c) = some c
as_set_animator _ = none

-- A command of the same class, merged.
unfoldable pub merge_with :
    {V : Type 0} → (Change V → Edit) → Change V → Option (Change V) → Option Edit
unfolding merge_change
merge_with make c none = none
merge_with make c (some d) = merged_as make (merge_change c d)

-- The classes without a `merge` of their own have that of `Command`.
unfoldable pub merge_edit : Edit → Edit → Option Edit
unfolding merge_with as_rename as_set_local_transform as_set_animator
merge_edit (rename c) later = merge_with rename c (as_rename later)
merge_edit (set_local_transform c) later =
    merge_with set_local_transform c (as_set_local_transform later)
merge_edit (set_animator c) later = merge_with set_animator c (as_set_animator later)
merge_edit (set_sprite c) later = none
merge_edit (remove_sprite c) later = none
merge_edit (remove_animator c) later = none
merge_edit (set_camera c) later = none
merge_edit (remove_camera c) later = none

-- The commands as the history sees them. A revert that fails has changed nothing.
abbrev pub edits : Commands Scene Edit
edits = record {
  apply = apply_edit;
  revert = revert_edit;
  failed_revert = λ c s. s;
  merge = merge_edit;
}
