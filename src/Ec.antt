-- ===== src/Ec.antt =====
-- The embedded controller: the ports, the driver's helper functions, the controller's protocol, and
-- what the helpers achieve with it.
pub mod Ports
pub mod Helper
pub mod Device
pub mod Transfer
pub mod Timeout
