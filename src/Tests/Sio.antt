-- ===== src/Tests/Sio.antt =====
-- Runs of the /proc handlers, the watchdog and the backlight.
use ugreen_frontpanel.Base.{
  ℕ, ◌+◌, ◌-◌, ◌*◌, ◌/◌, ◌%◌, ◌^◌, ◌≡◌, refl, arith, true, List, [], ◌∷◌, Option, none, some, ltb,
  leb, ◌==◌, ◌&&◌, ◌||◌, if◌then◌else◌, pos, codes, ok, count, strncmp_eq, strncasecmp_eq,
}
use ugreen_frontpanel.ProcFile.{UserBuffer}
use ugreen_frontpanel.Ec.Device.{store}
use ugreen_frontpanel.Sio.Fan.{fan_read}
use ugreen_frontpanel.Sio.Fan.Laws.{fan_read_lem}
use ugreen_frontpanel.Sio.PowerLevel.{Parsed, number, malformed, past_end, pwr_write, pwr_read}
use ugreen_frontpanel.Sio.PowerLevel.Laws.{pwr_read-pwr_write}
use ugreen_frontpanel.Sio.Wakeup.{g3wakeup_write, g3wakeup_read}
use ugreen_frontpanel.Sio.Wakeup.Laws.{g3wakeup_read-write}
use ugreen_frontpanel.Sio.Watchdog.{
  WatchdogDevice, wdt_set_timeout, wdt_start, wdt_stop, wdt_get_counter,
}
use ugreen_frontpanel.Sio.Watchdog.Laws.{wdt_get_counter-wdt_start}
use ugreen_frontpanel.Sio.Startup.{PowerRegister, IsRegister, get_power_status, set_power_status}
use ugreen_frontpanel.Sio.Startup.Laws.{get_power_status-set_power_status}
use ugreen_frontpanel.Tests.Controller.{chip, chip-IsController}
use ugreen_frontpanel.Tests.Ec.{start}

-- A parser of decimal digits up to a NUL or a line feed.
abbrev digits : ℕ → List ℕ → Option ℕ
digits n [] = some n
digits n (b ∷ bs) =
    if b == 0 || b == 10
    then some n
    else if leb 48 b && leb b 57
    then digits (n * 10 + (b - 48)) bs
    else none

abbrev pub decimal : List ℕ → Option ℕ
decimal text = elim (digits 0 text) [
  | none ↦ none
  | some n ↦ if ltb n (2 ^ 64) then some n else none
]

abbrev int_digits : ℕ → List ℕ → Parsed
int_digits n [] = past_end
int_digits n (b ∷ bs) =
    let rest = int_digits (n * 10 + (b - 48)) bs in
    if b == 0 || b == 10 then number (pos n) else if leb 48 b && leb b 57 then rest else malformed

abbrev typed : List ℕ → UserBuffer
typed bytes = record { bytes = bytes; readable = true }

fan_read_lem_example :
    let r = fan_read chip 3 4 start in
    (r.0.fan1 ≡ 108 * 256 + 115)
    × (r.0.fan2 ≡ 122 * 256 + 129)
    × (r.0.fan3 ≡ 136 * 256 + 143)
    × (r.0.fan4 ≡ 150 * 256 + 157)
    × (r.1.memory ≡ start.memory)
fan_read_lem_example = fan_read_lem chip chip-IsController 3 4 start

pwr_read-pwr_write_example :
    let (r, w') = pwr_write chip (int_digits 0) (typed (codes "5")) start in
    (r ≡ count 1)
    × (w'.memory ≡ store (store start.memory 0xA0 1) 0xA1 5)
    × ((pwr_read chip w').0 ≡ 5)
pwr_read-pwr_write_example =
    pwr_read-pwr_write chip chip-IsController (int_digits 0) (typed (codes "5")) start (λ e. cc)

g3wakeup_read-write_example :
    let (r, w') = g3wakeup_write chip (typed (codes "off")) start in
    (r ≡ count 3) × (w'.memory ≡ store start.memory 0x9A 0) × ((g3wakeup_read chip w').0 ≡ ok 0)
unfolding strncmp_eq
g3wakeup_read-write_example = g3wakeup_read-write chip chip-IsController (typed (codes "off")) start

abbrev device : WatchdogDevice
device = record { timeout = 60 }

wdt_get_counter-wdt_start_example :
    let (r, w') = wdt_start chip (wdt_set_timeout 1000 device).1 start in
    let stopped = (wdt_stop chip (wdt_set_timeout 1000 device).1 w').1 in
    (r ≡ ok tt)
    × (w'.memory 0x98 ≡ 1)
    × ((wdt_get_counter chip 3 4 w').0 ≡ 1000)
    × (stopped.memory 0x98 ≡ 0)
    × ((wdt_get_counter chip 3 4 stopped).0 ≡ 1000)
wdt_get_counter-wdt_start_example =
    wdt_get_counter-wdt_start chip chip-IsController 3 4 1000 device start (omega arith)

-- A register of 32 bits.
abbrev register : PowerRegister
register = record { World = ℕ; ioread32 = λ n. (n % 2 ^ 32, n); iowrite32 = λ v n. v }

abbrev register-IsRegister : IsRegister register
register-IsRegister = record {
  value = λ n. n % 2 ^ 32;
  value_bound = λ n. omega arith;
  read_value = λ n. refl;
  read_keeps = λ n. refl;
  write_value = λ v n h. omega arith;
}

get_power_status-set_power_status_example :
    let (r, w') = set_power_status register true (typed (codes "off")) 12 in
    (r ≡ count 3)
    × ((get_power_status register true w').0 ≡ ok (codes "power off"))
    × (w' % 2 ^ 32 / 2 ≡ 6)
unfolding strncasecmp_eq
get_power_status-set_power_status_example =
    get_power_status-set_power_status register register-IsRegister (typed (codes "off")) 12 refl
      (omega arith) (omega arith)
