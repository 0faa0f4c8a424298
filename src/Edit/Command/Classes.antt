-- ===== src/Edit/Command/Classes.antt =====
-- Each of the eight classes edits one component, by the operations of its changes.
use atlas_engine.Base.{◌≡◌, refl}
use atlas_engine.Edit.Scene.{Scene}
use atlas_engine.Edit.Command.{
  Component, Change, apply_change, revert_change, as_edit, Edit, rename, set_local_transform,
  set_sprite, remove_sprite, set_animator, remove_animator, set_camera, remove_camera, apply_edit,
  revert_edit, rename_component, set_local_transform_component, set_sprite_component,
  remove_sprite_component, set_animator_component, remove_animator_component, set_camera_component,
  remove_camera_component,
}
use atlas_engine.Edit.Command.Laws.{IsComponent}

-- A class of commands: what it edits, and that the operations are those of its changes.
pub record IsClass {V : Type 0} (k : Component V) (make : Change V → Edit) : Type 0 where
  pub component : IsComponent k
  pub applies :
      (c : Change V) (s : Scene) → apply_edit (make c) s ≡ as_edit make (apply_change k c s)
  pub reverts : (c : Change V) (s : Scene) → revert_edit (make c) s ≡ revert_change k c s
  pub injective : (c d : Change V) → make c ≡ make d → c ≡ d

-- Each command is a class of its component.
pub rename-IsClass : IsClass rename_component rename
unfolding rename_component apply_edit revert_edit
rename-IsClass = record {
  component = record {
    read-write = λ v e. refl;
    write-read = λ e. refl;
    write-write = λ v w e. refl;
    keeps_id = λ v e. refl;
  };
  applies = λ c s. refl;
  reverts = λ c s. refl;
  injective = λ c d e. cc;
}

pub set_local_transform-IsClass : IsClass set_local_transform_component set_local_transform
unfolding set_local_transform_component apply_edit revert_edit
set_local_transform-IsClass = record {
  component = record {
    read-write = λ v e. refl;
    write-read = λ e. refl;
    write-write = λ v w e. refl;
    keeps_id = λ v e. refl;
  };
  applies = λ c s. refl;
  reverts = λ c s. refl;
  injective = λ c d e. cc;
}

pub set_sprite-IsClass : IsClass set_sprite_component set_sprite
unfolding set_sprite_component apply_edit revert_edit
set_sprite-IsClass = record {
  component = record {
    read-write = λ v e. refl;
    write-read = λ e. refl;
    write-write = λ v w e. refl;
    keeps_id = λ v e. refl;
  };
  applies = λ c s. refl;
  reverts = λ c s. refl;
  injective = λ c d e. cc;
}

pub remove_sprite-IsClass : IsClass remove_sprite_component remove_sprite
unfolding remove_sprite_component set_sprite_component apply_edit revert_edit
remove_sprite-IsClass = record {
  component = record {
    read-write = λ v e. refl;
    write-read = λ e. refl;
    write-write = λ v w e. refl;
    keeps_id = λ v e. refl;
  };
  applies = λ c s. refl;
  reverts = λ c s. refl;
  injective = λ c d e. cc;
}

pub set_animator-IsClass : IsClass set_animator_component set_animator
unfolding set_animator_component apply_edit revert_edit
set_animator-IsClass = record {
  component = record {
    read-write = λ v e. refl;
    write-read = λ e. refl;
    write-write = λ v w e. refl;
    keeps_id = λ v e. refl;
  };
  applies = λ c s. refl;
  reverts = λ c s. refl;
  injective = λ c d e. cc;
}

pub remove_animator-IsClass : IsClass remove_animator_component remove_animator
unfolding remove_animator_component set_animator_component apply_edit revert_edit
remove_animator-IsClass = record {
  component = record {
    read-write = λ v e. refl;
    write-read = λ e. refl;
    write-write = λ v w e. refl;
    keeps_id = λ v e. refl;
  };
  applies = λ c s. refl;
  reverts = λ c s. refl;
  injective = λ c d e. cc;
}

pub set_camera-IsClass : IsClass set_camera_component set_camera
unfolding set_camera_component apply_edit revert_edit
set_camera-IsClass = record {
  component = record {
    read-write = λ v e. refl;
    write-read = λ e. refl;
    write-write = λ v w e. refl;
    keeps_id = λ v e. refl;
  };
  applies = λ c s. refl;
  reverts = λ c s. refl;
  injective = λ c d e. cc;
}

pub remove_camera-IsClass : IsClass remove_camera_component remove_camera
unfolding remove_camera_component set_camera_component apply_edit revert_edit
remove_camera-IsClass = record {
  component = record {
    read-write = λ v e. refl;
    write-read = λ e. refl;
    write-write = λ v w e. refl;
    keeps_id = λ v e. refl;
  };
  applies = λ c s. refl;
  reverts = λ c s. refl;
  injective = λ c d e. cc;
}
