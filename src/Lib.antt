-- ===== src/Lib.antt =====
-- The front-panel drivers for UGREEN storage devices: three groups of Linux kernel modules, in C.
-- This library models packages/ugreen-sio and packages/ugreen-leds-mcu, and of packages/axs-touch
-- the transfers, the touches, suspend and the firmware, and states what their code does.
--
-- Parts, and how they interact:
-- * The embedded controller. packages/ugreen-sio/it55_helper.c and it55_helper.h send commands
--   and bytes to it over two ports, polling its status. `Ec.Ports` lists the calls of the kernel
--   that this code makes, as a parameter; `Ec.Helper` has its functions under their names;
--   `Ec.Device` states as hypotheses what callers may rely on the controller for; `Ec.Transfer` and
--   `Ec.Timeout` say what the functions achieve with a controller that keeps its protocol and with
--   one that stays busy.
-- * Fans, power level, power status, wake-up settings, watchdog and backlight.
--   packages/ugreen-sio/ug_it55pro_functions.c puts files under /proc/it86 and devices in front of
--   the bytes of the controller's memory. `ProcFile` is how its write handlers take their input;
--   `Sio.Fan` (set_sys_fan, set_cpu_fan, fan_write, fan_read; `Requested` is what a text asks for),
--   `Sio.PowerLevel` (pwr_write, pwr_read), `Sio.Startup` (get_power_status, save_power_status,
--   set_power_status), `Sio.Wakeup` (g3wakeup_*, lanwakeup_*), `Sio.Watchdog` (wdt_*),
--   `Sio.Backlight` (mipi_backlight_update_status) and `Sio.Module` (functions_init,
--   functions_exit) are its handlers, each a function from the state of the world to a result and
--   the state after it.
-- * The buttons. packages/ugreen-sio/ug_gpio_btn.c reads the pins of two keys every 50 ms.
--   `Button.Monitor` has struct btn_info and btn_monitor, whose reports are an output;
--   `Button.Device` hwinit, the probe and the removal; `Button.Table` the boards that
--   my_dmi_callback knows; `Button.Cycle` and `Button.Reports` follow one press, and any sequence
--   of ticks.
-- * The beeper. packages/ugreen-sio/ug_sataio_beeper.c drives it by the controller or by the
--   ports of the PC speaker, with a timer and a delayed work. `Beeper.Speaker` has
--   superio_write_byte and the ports, `Beeper.Timer` the file's variables and the timer's handlers,
--   `Beeper.Command` the file /proc/nas/beeper, `Beeper.Steps` all of it as a state machine, and
--   `Beeper.Slots` the state of the disk slots behind /proc/nas/sata_sw.
-- * The LEDs. packages/ugreen-leds-mcu/leds-mcu.c talks to a microcontroller over SMBus.
--   `Leds.Bus` lists the calls of the bus, as a parameter; `Leds.Frame` has the bytes and their
--   checksum, `Leds.Wire` the transfers i2c_iDX601x_write_led and i2c_iDX601x_read_led,
--   `Leds.Device` the LED class operations (`Coalesce` for several calls before the work of an LED
--   runs), `Leds.Boards` the products and the probe, `Leds.Scan` the search for the adapter.
-- * The LED triggers. ledtrig-breath-ht32f52231.c, ledtrig-timer2-ht32f52231.c and
--   ledtrig-normal-ht32f52231.c in packages/ugreen-leds-mcu hand delays to the LED core, which
--   calls the driver. `Leds.Trigger` has them, the LED core being a parameter.
-- * The touch panel, packages/axs-touch/src, for the configuration of axs_config.h. `Touch.Bus`
--   has the transfers of axs_i2c.c, over the calls of the kernel that are a parameter;
--   `Touch.Registers` the commands of axs_core.c (write_cmd, axs_read_regs to
--   axs_fwupg_get_ver_in_tp), which stand in shared buffers; `Touch.Frame`
--   axs_read_parse_touchdata, which takes a frame of 15 bytes apart; `Touch.Report`
--   axs_input_report_b and axs_ts_report_thread_handler, whose calls of the input layer are an
--   output; `Touch.Power` axs_ts_interrupt, axs_irq_disable and axs_irq_enable, suspend, resume and
--   axs_fb_notifier_callback, for a kernel with CONFIG_FB.
-- * The firmware of the touch panel. axs_upgrade.c writes it to a flash, and axs_download.c to
--   the controller's memory, in packets (`Touch.Packet`). `Touch.Flash` has flash_is_ready to
--   axs_Y15205_upgrade, `Touch.Download` selectPram to axs_download_app, and `Touch.Upgrade` the
--   version check, axs_fwupg_upgrade, axs_debug_fwupg and axs_debug_download_app around them.
--   `Touch.Flash.Device` and `IsLoader` state as hypotheses what the driver may rely on the flash
--   and the controller for.
-- * The debug files of the touch panel, axs_debug.c. `Touch.Debug` has hex_to_int and hex_to_u8
--   (`Hex`), the writes of a register, axs_proc_write and axs_proc_read; `Touch.Debug.Show` what is
--   printed into a page (`Text`): registers, the tables of axs_diff_show and axs_rawdata_show, and
--   the debug string; `Touch.Debug.Firmware` the stores that take a name and start a load by hand,
--   `Touch.Debug.Version` the version and the reset. `Touch.Debug.Calls` is the sequence of these
--   calls on the two buffers.
-- * The probe and the removal of the touch panel. `Touch.Probe` has axs_ts_probe and
--   axs_ts_remove with the calls of the kernel as answers, and what the driver holds as a state.
-- * What these share. `Base` holds lists over the native numbers, results and the kernel's error
--   codes, C strings, and masks and shifts. `Tests` has devices to run the code against.
--
-- How code is translated. A function that touches hardware takes a world and gives it back after
-- the call; the world's type and the kernel's functions are parameters, and what is relied on
-- about them is a record of hypotheses (`IsController`, `IsRegister`, `IsPatient`, `IsCmos`,
-- `CallsDriver`, `IsFlash`, `IsLoader`, `KeepsLength`), each with an instance in `Tests`. The
-- number parsers of the kernel (kstrtoul, kstrtoint, sscanf) are function parameters. A negative
-- errno is an `err` or `error`; an access outside a buffer or through NULL is a `fault`, or a
-- result `none` of a function that has no other failure. Texts and blocks are lists of byte
-- values. An integer of fixed width keeps its wrap-around where the code can reach it.
--
-- Bounds and fuel. The loops with a limit in the code (five polls, three attempts, 99 adapters,
-- 2000 polls of the flash, the packets of a firmware) are recursions on the rounds that are left,
-- so that no fuel is chosen. The loop of superio_write_byte has no limit: its model takes a
-- number of rounds and gives `none` where these are not enough. The beeper's count of beats is a
-- number without the width of `int`, since 2 ^ 31 beats are out of reach; so are the sizes and
-- addresses of a firmware, which has at most 131072 bytes.
--
-- Not modelled: of the touch driver what axs_config.h compiles out (SPI, gestures, the ESD and
-- pen checks, the log's files, the upgrade and download at start); but for the touch driver the
-- registration of drivers, devices, timers and /proc entries with the kernel, and their removal;
-- the log; mutexes and spinlocks, as every function that takes one gives it back on all of its
-- paths; interleavings inside a handler; packaging and examples.
pub mod Base
pub mod Ec
pub mod ProcFile
pub mod Sio
pub mod Button
pub mod Leds
pub mod Beeper
pub mod Touch
mod Tests
