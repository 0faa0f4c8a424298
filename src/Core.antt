-- ===== src/Core.antt =====
-- engine/core: the foundations that the other engine modules build on.
pub mod Error
pub mod Handle
pub mod Hash
