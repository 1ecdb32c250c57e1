-- ===== src/Database/Tests.antt =====
-- The dumps of a small database.
