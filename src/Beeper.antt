-- ===== src/Beeper.antt =====
-- packages/ugreen-sio/ug_sataio_beeper.c: the beeper with its timer and its /proc file, and the
-- state of the disk slots.
pub mod Speaker
pub mod Timer
pub mod Command
pub mod Steps
pub mod Slots
