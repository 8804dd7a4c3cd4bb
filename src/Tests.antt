-- ===== src/Tests.antt =====
-- Devices to run the drivers against, and runs of the drivers on them.
mod Controller
mod Ec
mod Sio
mod Button
mod Leds
mod Beeper
mod Triggers
mod Nor
mod Touch
mod Power
mod Firmware
mod Debug
mod Probe
