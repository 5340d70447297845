-- ===== src/Repo.antt =====
-- internal/repository/postgres: the repositories over the tables of `Db`.
pub mod Containers
pub mod Jobs
pub mod Files
pub mod Users
pub mod Paging
