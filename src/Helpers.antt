-- ===== src/Helpers.antt =====
-- The utilities that the plugins share (helpers/).
pub mod Base64
mod Tests
