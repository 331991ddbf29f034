-- ===== src/CloudHypervisor.antt =====
-- pkg/driver/cloudhypervisor: the production driver.
pub mod Pool
pub mod Client
pub mod Driver
pub mod Clone
pub mod Spawn
pub mod Transport
