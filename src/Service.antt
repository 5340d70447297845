-- ===== src/Service.antt =====
-- internal/service: the services over the repositories.
pub mod Containers
pub mod Jobs
pub mod Files
pub mod Locks
