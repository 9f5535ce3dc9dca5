-- ===== src/Project.antt =====
-- server/service/project.go: the projects.
pub mod Service
pub mod Proofs
