-- ===== src/Sio/Watchdog/Laws.antt =====
-- The watchdog: the counter that a start writes is the timeout, and the switch follows start and
-- stop.
use ugreen_frontpanel.Base.{
  ℕ, ◌+◌, ◌*◌, ◌/◌, ◌%◌, ◌≤◌, ◌<◌, ◌≡◌, ◌↔◌, ap, ◌∙◌, arith, bit_and, bit_or, bit_and-low_byte,
  bit_and-second_byte, bit_or-shift, ok,
}
use ugreen_frontpanel.Ec.Ports.{Ports}
use ugreen_frontpanel.Ec.Helper.{ec_request_ports, ec_write_memory}
use ugreen_frontpanel.Ec.Device.{Memory, store, IsController}
use ugreen_frontpanel.Ec.Transfer.{
  ec_write_memory_lem, ec_request_ports-memory, ec_release_ports-memory,
}
use ugreen_frontpanel.Sio.Fan.Laws.{read_into-value, memory_at-read_into}
use ugreen_frontpanel.Sio.Watchdog.{
  WatchdogDevice, initial_timeout, wdt_set_timeout, wdt_set_watchdog_switch, wdt_get_counter,
  wdt_update, wdt_start, wdt_stop,
}

-- Whatever the module parameter is, the timeout that the driver starts from lies in the range that
-- it announces, and it is the parameter exactly where that lies in the range.
pub initial_timeout_bounds :
    (t : ℕ)
    → (1 ≤ initial_timeout t)
      × (initial_timeout t ≤ 10000)
      × ((initial_timeout t ≡ t) ↔ ((1 ≤ t) × (t ≤ 10000)))
unfolding initial_timeout
initial_timeout_bounds t = (ground arith, ground arith, (ground arith, ground arith))

-- The two bytes that wdt_update writes and wdt_get_counter reads.
low_of : (t : ℕ) → bit_and t 0xff ≡ t % 256
low_of t = bit_and-low_byte t

high_of : (t : ℕ) → bit_and t 0xff00 / 256 % 256 ≡ t / 256 % 256
high_of t = omega (arith, bit_and-second_byte t)

join_bytes :
    (h l : ℕ) → h < 256 → l < 256 → bit_or (bit_and (h * 256) 0xff00) (bit_and l 0xff) ≡ h * 256 + l
join_bytes h l hb lb =
    let e : bit_and (h * 256) 0xff00 ≡ h * 256 = omega (arith, bit_and-second_byte (h * 256)) in
    let f : bit_and l 0xff ≡ l = omega (arith, bit_and-low_byte l) in
    rw (e, f) (bit_or-shift 8 h l lb)

module _ (hw : Ports) (ec : IsController hw) where
  open ec use {memory}

  -- The memory once the watchdog runs with timeout `t`.
  abbrev started : Memory → ℕ → Memory
  started m t = store (store (store m 0xA2 (t / 256 % 256)) 0xA3 (t % 256)) 0x98 1

  -- A start sets the counter's two bytes and the switch, and leaves the rest of the memory alone.
  pub wdt_start-memory :
      (wdd : WatchdogDevice) (w : hw.World)
      → ((wdt_start hw wdd w).0 ≡ ok tt)
        × (memory (wdt_start hw wdd w).1 ≡ started (memory w) wdd.timeout)
  unfolding wdt_start wdt_update wdt_set_watchdog_switch
  wdt_start-memory wdd w =
      let t = wdd.timeout in
      let w0 = (ec_request_ports hw w).1 in
      let w1 = (ec_write_memory hw 0xA2 (bit_and t 0xff00 / 256 % 256) w0).1 in
      let w2 = (ec_write_memory hw 0xA3 (bit_and t 0xff) w1).1 in
      let w3 = (ec_write_memory hw 0x98 1 w2).1 in
      ground (
        arith,
        low_of t,
        high_of t,
        ec_request_ports-memory hw ec w,
        ec_write_memory_lem hw ec 0xA2 (bit_and t 0xff00 / 256 % 256) w0,
        ec_write_memory_lem hw ec 0xA3 (bit_and t 0xff) w1,
        ec_write_memory_lem hw ec 0x98 1 w2,
        ec_release_ports-memory hw ec w3,
      )

  -- A stop clears the switch, and leaves the rest of the memory, the counter too, alone.
  pub wdt_stop-memory :
      (wdd : WatchdogDevice) (w : hw.World)
      → ((wdt_stop hw wdd w).0 ≡ ok tt) × (memory (wdt_stop hw wdd w).1 ≡ store (memory w) 0x98 0)
  unfolding wdt_stop wdt_set_watchdog_switch
  wdt_stop-memory wdd w =
      let w0 = (ec_request_ports hw w).1 in
      let w1 = (ec_write_memory hw 0x98 0 w0).1 in
      ground (
        arith,
        ec_request_ports-memory hw ec w,
        ec_write_memory_lem hw ec 0x98 0 w0,
        ec_release_ports-memory hw ec w1,
      )

  wdt_get_counter_lem :
      (tmp1 tmp2 h l : ℕ) (w : hw.World)
      → memory w 0xA2 ≡ h
      → memory w 0xA3 ≡ l
      → h < 256
      → l < 256
      → (wdt_get_counter hw tmp1 tmp2 w).0 ≡ h * 256 + l
  unfolding wdt_get_counter
  wdt_get_counter_lem tmp1 tmp2 h l w eh el hb lb =
      simp (read_into-value hw ec, memory_at-read_into hw ec, eh, el) (join_bytes h l hb lb)

  -- After wdt_set_timeout with a timeout of at most 65535 and wdt_start, the start has succeeded,
  -- the switch is on, and wdt_get_counter gives the timeout back, whatever its locals held; after
  -- a wdt_stop the switch is off and the counter is still the timeout.
  pub wdt_get_counter-wdt_start :
      (tmp1 tmp2 t : ℕ) (wdd : WatchdogDevice) (w : hw.World)
      → t < 65536
      → let started_device = (wdt_set_timeout t wdd).1 in
        let (r, w') = wdt_start hw started_device w in
        let stopped = (wdt_stop hw started_device w').1 in
        (r ≡ ok tt)
        × (memory w' 0x98 ≡ 1)
        × ((wdt_get_counter hw tmp1 tmp2 w').0 ≡ t)
        × (memory stopped 0x98 ≡ 0)
        × ((wdt_get_counter hw tmp1 tmp2 stopped).0 ≡ t)
  unfolding wdt_set_timeout
  wdt_get_counter-wdt_start tmp1 tmp2 t wdd w h =
      let dev = (wdt_set_timeout t wdd).1 in
      let start = wdt_start-memory dev w in
      let w' = (wdt_start hw dev w).1 in
      let stop = wdt_stop-memory dev w' in
      let stopped = (wdt_stop hw dev w').1 in
      let at : (b : ℕ) → memory w' b ≡ started (memory w) t b = λ b. ap (λ m. m b) start.1 in
      let after : (b : ℕ) → memory stopped b ≡ store (memory w') 0x98 0 b =
        λ b. ap (λ m. m b) stop.1 in
      let h : t / 256 % 256 * 256 + t % 256 ≡ t = omega arith in
      (
        start.0,
        at 0x98,
        wdt_get_counter_lem tmp1 tmp2 (t / 256 % 256) (t % 256) w' (at 0xA2) (at 0xA3) (omega arith)
              (omega arith)
            ∙ h,
        after 0x98,
        wdt_get_counter_lem tmp1 tmp2 (t / 256 % 256) (t % 256) stopped (after 0xA2 ∙ at 0xA2)
              (after 0xA3 ∙ at 0xA3) (omega arith) (omega arith)
            ∙ h,
      )
