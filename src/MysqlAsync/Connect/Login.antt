-- ===== src/MysqlAsync/Connect/Login.antt =====
-- A login at a server that accepts the first response.
