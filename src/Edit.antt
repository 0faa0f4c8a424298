-- ===== src/Edit.antt =====
-- engine/edit: the undo history of a scene.
pub mod History
pub mod Scene
pub mod Command
