-- ===== src/Machine.antt =====
-- internal/controller/virtualmachine_controller.go, virtualmachine_image_prepare.go and cloudinit.go: the
-- reconcile of a VirtualMachine.
pub mod Types
pub mod Request
pub mod Env
pub mod Dependencies
pub mod Resources
pub mod Prepare
pub mod Creating
pub mod Running
pub mod Deletion
pub mod Reconcile
pub mod Once
pub mod Samples
mod Tests
