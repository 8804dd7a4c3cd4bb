-- ===== src/Sio/Watchdog.antt =====
-- The watchdog in packages/ugreen-sio/ug_it55pro_functions.c: wdt_* and the timeout that
-- it55_wdt_init sets.
pub mod Laws
use ugreen_frontpanel.Base.{
  ℕ, ◌+◌, ◌*◌, ◌/◌, ◌%◌, ◌||◌, ltb, if◌then◌else◌, bit_and, bit_or, Io, pure, ◌>>=◌, ◌>>◌, Result,
  ok, Ret,
}
use ugreen_frontpanel.Ec.Ports.{Ports}
use ugreen_frontpanel.Ec.Helper.{
  ec_request_ports, ec_release_ports, ec_read_memory, ec_write_memory,
}
use ugreen_frontpanel.Sio.Fan.{read_into}

abbrev pub default_timeout : ℕ
default_timeout = 600

abbrev pub min_timeout : ℕ
min_timeout = 1

abbrev pub max_timeout : ℕ
max_timeout = 10000

abbrev pub ec_it55_wdt_switch : ℕ
ec_it55_wdt_switch = 0x98

abbrev pub ec_it55_wdt_time_msb : ℕ
ec_it55_wdt_time_msb = 0xA2

abbrev pub ec_it55_wdt_time_lsb : ℕ
ec_it55_wdt_time_lsb = 0xA3

-- The part of `struct watchdog_device` that the driver reads and writes.
pub record WatchdogDevice : Type 0 where
  pub timeout : ℕ

-- The module parameter `timeout`, as the unsigned number that the code compares.
unfoldable pub initial_timeout : ℕ → ℕ
initial_timeout timeout =
    if ltb timeout min_timeout || ltb max_timeout timeout then default_timeout else timeout

unfoldable pub wdt_set_timeout : ℕ → WatchdogDevice → Ret × WatchdogDevice
wdt_set_timeout t wdd = (ok tt, record wdd { timeout = t })

module _ (hw : Ports) where
  unfoldable pub wdt_set_watchdog_switch : ℕ → Io hw.World Ret
  wdt_set_watchdog_switch on = ec_write_memory hw ec_it55_wdt_switch on

  -- `tmp1` and `tmp2` are what the stack holds, where a read fails.
  unfoldable pub wdt_get_counter : ℕ → ℕ → Io hw.World ℕ
  wdt_get_counter tmp1 tmp2 = do
    high ← read_into hw ec_it55_wdt_time_msb tmp1
    low ← read_into hw ec_it55_wdt_time_lsb tmp2
    pure (bit_or (bit_and (high * 256) 0xff00) (bit_and low 0xff))

  unfoldable pub wdt_update : ℕ → Io hw.World Ret
  wdt_update value =
      ec_write_memory hw ec_it55_wdt_time_msb (bit_and value 0xff00 / 256 % 256)
      >> ec_write_memory hw ec_it55_wdt_time_lsb (bit_and value 0xff)
      >> pure (ok tt)

  unfoldable pub wdt_start : WatchdogDevice → Io hw.World Ret
  wdt_start wdd = do
    ec_request_ports hw
    wdt_update wdd.timeout
    ret ← wdt_set_watchdog_switch 1
    ec_release_ports hw
    pure ret

  unfoldable pub wdt_stop : WatchdogDevice → Io hw.World Ret
  wdt_stop wdd = do
    ec_request_ports hw
    ret ← wdt_set_watchdog_switch 0
    ec_release_ports hw
    pure ret
