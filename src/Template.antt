-- ===== src/Template.antt =====
-- server/service/template.go: the rewards' templates.
pub mod Config
pub mod Service
pub mod Proofs
pub mod Pages
