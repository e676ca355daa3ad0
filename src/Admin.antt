-- ===== src/Admin.antt =====
-- programs/vow/src/instructions/admin/
pub mod Initialize
pub mod Config
pub mod Apps
