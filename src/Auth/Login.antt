-- ===== src/Auth/Login.antt =====
-- A user who has registered logs in.
