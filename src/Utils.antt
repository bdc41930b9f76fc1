-- ===== src/Utils.antt =====
-- pkg/utils.
pub mod Duration
