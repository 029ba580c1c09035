-- ===== src/Firecracker.antt =====
-- The drivers of Firecracker's VMs (internal/firecracker): their network and their connection, and the
-- agent that runs in a VM (cmd/agent).
pub mod Network
pub mod Vsock
pub mod Agent
mod Tests
