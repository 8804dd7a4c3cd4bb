-- ===== src/Leds.antt =====
-- The LED controller: packages/ugreen-leds-mcu/leds-mcu.c. `Bus` is what the kernel gives, `Frame`
-- the bytes on the wire, `Wire` the transfers, `Device` the LED class operations, `Boards` the
-- products and their LEDs.
pub mod Bus
pub mod Frame
pub mod Wire
pub mod Device
pub mod Boards
pub mod Scan
pub mod Trigger
