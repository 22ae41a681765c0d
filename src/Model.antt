-- ===== src/Model.antt =====
-- The data model of internal/domain/model.
pub mod Base
pub mod Panel
pub mod Chain
pub mod Levels
