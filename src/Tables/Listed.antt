-- ===== src/Tables/Listed.antt =====
-- The statements of both MySQL drivers that create a table.
