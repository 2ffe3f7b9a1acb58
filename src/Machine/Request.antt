-- ===== src/Machine/Request.antt =====
-- internal/controller/virtualmachine_controller.go: buildCreateRequest, in its parts.
pub mod Contract
pub mod Class
pub mod Source
pub mod Network
pub mod CloudInit
