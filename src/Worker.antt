-- ===== src/Worker.antt =====
-- pkg/controller/chi/worker.go: the worker that reconciles one installation at a time.
pub mod Objects
pub mod Purge
pub mod Update
pub mod Resources
pub mod Attributes
