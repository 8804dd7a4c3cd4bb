-- ===== src/Button.antt =====
-- The front-panel buttons: packages/ugreen-sio/ug_gpio_btn.c. `Monitor` is the timer handler
-- btn_monitor, `Table` the boards that my_dmi_callback knows, `Device` the set-up, and the others what they achieve.
pub mod Monitor
pub mod Table
pub mod Device
pub mod Cycle
pub mod Reports
