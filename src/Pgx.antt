-- ===== src/Pgx.antt =====
-- libs/pgx: the migrations that bring the schema up to date.
pub mod Files
pub mod Migrate
