-- ===== src/Touch.antt =====
-- The touch driver, packages/axs-touch/src, for the configuration of axs_config.h: the bus and what is
-- sent over it (`Bus`, `Packet`, `Registers`), touches (`Frame`, `Report`, `Power`), the firmware
-- (`Flash`, `Download`, `Upgrade`), the files for debugging (`Debug`), and the probe (`Probe`).
pub mod Bus
pub mod Packet
pub mod Flash
pub mod Registers
pub mod Download
pub mod Frame
pub mod Report
pub mod Power
pub mod Upgrade
pub mod Debug
pub mod Probe
