-- ===== src/Edit/Scene.antt =====
-- engine/scene/include/atlas/scene/components.hpp and src/scene.cpp: what a scene holds of an entity
-- that an author edits, and its components' getters and setters. The map from an identifier to the
-- library's handle and the registry behind it are one list of entities, looked up by identifier. A
-- float is its 32-bit pattern, since the scene only copies it. The world transform and the animation
-- pose, which are derived and never authored, and the hierarchy's own operations are left out.
pub mod Replace
use atlas_engine.Base.{ℕ, Bool, true, false, Option, none, some, List, [], ◌∷◌, ◌==◌, if◌then◌else◌}
use atlas_engine.Simulation.SaveStream.{Bytes}

pub record Vec2 : Type 0 where
  pub x : ℕ
  pub y : ℕ

pub record Rect : Type 0 where
  pub position : Vec2
  pub size : Vec2

pub record Colour : Type 0 where
  pub r : ℕ
  pub g : ℕ
  pub b : ℕ
  pub a : ℕ

pub record AssetId : Type 0 where
  pub value : ℕ
  pub type : ℕ

pub record LocalTransform : Type 0 where
  pub position : Vec2
  pub rotation : ℕ
  pub scale : Vec2

pub record SpriteRenderData : Type 0 where
  pub texture : AssetId
  pub size : Vec2
  pub uv : Rect
  pub tint : Colour
  pub layer : ℕ
  pub visible : Bool

pub record Animator : Type 0 where
  pub clip : AssetId
  pub start_ms : ℕ
  pub speed : ℕ
  pub playing : Bool
  pub loop : ℕ

pub record Camera : Type 0 where
  pub zoom : ℕ
  pub active : Bool

pub record Hierarchy : Type 0 where
  pub parent : ℕ
  pub children : List ℕ

-- `create` gives each entity a name, a transform and a hierarchy.
pub record Entity : Type 0 where
  pub id : ℕ
  pub name : Bytes
  pub transform : LocalTransform
  pub hierarchy : Hierarchy
  pub sprite : Option SpriteRenderData
  pub animator : Option Animator
  pub camera : Option Camera

pub record Scene : Type 0 where
  pub entities : List Entity
  pub next_id : ℕ

-- `lookup`: the entity of an identifier.
unfoldable pub lookup_in : ℕ → List Entity → Option Entity
lookup_in id [] = none
lookup_in id (e ∷ es) = if e.id == id then some e else lookup_in id es

unfoldable pub lookup : Scene → ℕ → Option Entity
unfolding lookup_in
lookup s id = lookup_in id s.entities

-- What a setter does to the entity of an identifier, and nothing where there is none.
unfoldable pub replace_in : ℕ → (Entity → Entity) → List Entity → List Entity
replace_in id f [] = []
replace_in id f (e ∷ es) = if e.id == id then f e ∷ es else e ∷ replace_in id f es

unfoldable pub replace : Scene → ℕ → (Entity → Entity) → Scene
unfolding replace_in
replace s id f = record s { entities = replace_in id f s.entities }
