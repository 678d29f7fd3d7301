-- ===== src/Apidef.antt =====
-- pkg/apidef/models.go: definitions of APIs.
pub mod Auth
pub mod Transforms
pub mod Definition
mod Tests
