-- ===== src/Provision.antt =====
-- Provisioning in the protocol API: protocol-api/src/routes/provision.ts, with lib/ensue.ts,
-- phala/phala-client.ts and the deployer of ironclaw/.
pub mod Jobs
pub mod Flow
pub mod Along
pub mod Compose
pub mod Services
pub mod Phala
pub mod CloudInit
pub mod Droplets
pub mod Workers
pub mod Coordinators
pub mod IronClaw
pub mod Calm
pub mod Provisioned
pub mod Founded
pub mod Deadlines
pub mod Guarded
pub mod Droplet
pub mod Desk
pub mod Starting
pub mod Registering
pub mod Shown
pub mod System
pub mod Sound
pub mod Steady
pub mod Reached
mod Tests
