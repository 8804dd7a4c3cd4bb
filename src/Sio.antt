-- ===== src/Sio.antt =====
-- packages/ugreen-sio/ug_it55pro_functions.c: fans, power status, wake-up settings, watchdog and
-- backlight, over the helpers of `Ec`.
pub mod Fan
pub mod PowerLevel
pub mod Wakeup
pub mod Watchdog
pub mod Backlight
pub mod Startup
pub mod Module
