-- ===== src/Config/Validate.antt =====
-- `Config.Validate` and its helpers, check by check in the order of the source.
pub mod Fields
pub mod Storages
pub mod Jobs
pub mod Whole
