-- ===== src/Cloning.antt =====
-- internal/controller/vmclone_controller.go: the reconcile of a VMClone. Events and logs are left out.
pub mod Types
pub mod Target
pub mod Binding
pub mod Reconcile
pub mod Once
mod Laws
mod Tests
