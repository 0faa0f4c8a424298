-- ===== src/Edit/History.antt =====
-- engine/edit/include/atlas/edit/history.hpp and src/history.cpp, over any scene and any class of
-- commands with the virtual functions of `edit::Command`; Edit.Command has those of the editor that
-- set or remove a component. A failed `apply` changes nothing, so it returns no scene. Both stacks
-- list the latest command first.
pub mod Laws
pub mod Undo
use atlas_engine.Base.{
  ℕ, ◌+◌, Bool, true, false, ◌&&◌, Option, none, some, List, [], ◌∷◌, ltb, ◌==◌, if◌then◌else◌,
  length, u64,
}
use atlas_engine.Core.Error.{Result, Status, ErrorCode, ok, err, invalid_argument}

-- `apply` captures what `revert` needs, and `merge` absorbs a later command: each returns the command
-- as it is afterwards. `failed_revert` is the scene that a revert leaves when it fails.
pub record Commands (Scene Cmd : Type 0) : Type 0 where
  pub apply : Cmd → Scene → Result (Cmd × Scene)
  pub revert : Cmd → Scene → Result Scene
  pub failed_revert : Cmd → Scene → Scene
  pub merge : Cmd → Cmd → Option Cmd

pub data Coalesce : Type 0 where
  apart with_previous : Coalesce

pub record History (Scene Cmd : Type 0) : Type 0 where
  pub scene : Scene
  pub capacity : ℕ
  pub undo_stack : List Cmd
  pub redo_stack : List Cmd
  pub coalescing_open : Bool
  pub revision : ℕ
  pub last_error : Option ErrorCode

abbrev pub is_with_previous : Coalesce → Bool
is_with_previous c = elim c [ with_previous ↦ true | apart ↦ false ]

-- `pop_front` of a stack that lists its latest command first.
pub pop_oldest {ℓ} : {A : Type ℓ} → List A → List A
pop_oldest [] = []
pop_oldest (c ∷ []) = []
pop_oldest (c ∷ d ∷ rest) = c ∷ pop_oldest (d ∷ rest)

-- The stack with one command more, within the capacity.
unfoldable pub push_undo {ℓ} : {A : Type ℓ} → ℕ → A → List A → List A
unfolding pop_oldest
push_undo capacity c undo_stack =
    if ltb capacity (length (c ∷ undo_stack)) then pop_oldest (c ∷ undo_stack) else c ∷ undo_stack

module _ {Scene Cmd : Type 0} where
  unfoldable pub new_history : Scene → ℕ → History Scene Cmd
  new_history scene capacity = record {
    scene = scene;
    capacity = if capacity == 0 then 1 else capacity;
    undo_stack = [];
    redo_stack = [];
    coalescing_open = false;
    revision = 0;
    last_error = none;
  }

  pub clear : History Scene Cmd → History Scene Cmd
  clear h = record h { undo_stack = []; redo_stack = []; coalescing_open = false }

  pub break_coalescing : History Scene Cmd → History Scene Cmd
  break_coalescing h = record h { coalescing_open = false }

  module _ (K : Commands Scene Cmd) where
    -- The latest command, merged with one that comes after it.
    unfoldable pub merge_latest : List Cmd → Cmd → Option (List Cmd)
    merge_latest [] c = none
    merge_latest (latest ∷ rest) c = elim (K.merge latest c) [
      | some merged ↦ some (merged ∷ rest)
      | none ↦ none
    ]

    -- Where the command does not merge, the redo stack is dropped and the command joins the other.
    unfoldable pub record_command : History Scene Cmd → Coalesce → Cmd → History Scene Cmd
    unfolding push_undo
    record_command h coalesce c = record h {
      undo_stack = push_undo h.capacity c h.undo_stack;
      redo_stack = [];
      coalescing_open = is_with_previous coalesce;
    }

    -- What follows a command that applied.
    unfoldable pub keep : History Scene Cmd → Coalesce → Cmd → History Scene Cmd
    unfolding merge_latest record_command
    keep h coalesce c =
        if is_with_previous coalesce && h.coalescing_open
        then elim (merge_latest h.undo_stack c) [
          | some merged ↦ record h { undo_stack = merged }
          | none ↦ record_command h coalesce c
        ]
        else record_command h coalesce c

    unfoldable pub apply : History Scene Cmd → Option Cmd → Coalesce → Status × History Scene Cmd
    unfolding keep
    apply h none coalesce = (err invalid_argument, h)
    apply h (some c) coalesce = elim (K.apply c h.scene) [
      | err e ↦ (err e, h)
      | ok (c', scene) ↦
          (ok tt, keep (record h { scene = scene; revision = u64 (h.revision + 1) }) coalesce c')
    ]

    unfoldable pub undo : History Scene Cmd → Bool × History Scene Cmd
    unfolding clear
    undo h = elim h.undo_stack [
      | [] ↦ (false, h)
      | c ∷ rest ↦ elim (K.revert c h.scene) [
        | err e ↦
            (false, clear (record h { scene = K.failed_revert c h.scene; last_error = some e }))
        | ok scene ↦ (
          true,
          record h {
            scene = scene;
            undo_stack = rest;
            redo_stack = c ∷ h.redo_stack;
            coalescing_open = false;
            revision = u64 (h.revision + 1);
          },
        )
      ]
    ]

    pub redo : History Scene Cmd → Bool × History Scene Cmd
    unfolding clear
    redo h = elim h.redo_stack [
      | [] ↦ (false, h)
      | c ∷ rest ↦ elim (K.apply c h.scene) [
        | err e ↦ (false, clear (record h { last_error = some e }))
        | ok (c', scene) ↦ (
          true,
          record h {
            scene = scene;
            undo_stack = c' ∷ h.undo_stack;
            redo_stack = rest;
            coalescing_open = false;
            revision = u64 (h.revision + 1);
          },
        )
      ]
    ]
