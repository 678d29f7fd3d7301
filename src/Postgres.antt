-- ===== src/Postgres.antt =====
-- pkg/postgres: a client of PostgreSQL, around the library pgx. What pgx answers is an argument.
pub mod Errors
pub mod Config
pub mod Client
mod Tests
