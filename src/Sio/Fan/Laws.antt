-- ===== src/Sio/Fan/Laws.antt =====
-- What the fan functions do to the controller's memory, and what they report.
use ugreen_frontpanel.Base.{
  ℕ, ◌+◌, ◌*◌, ◌≤◌, ◌≡◌, ap, List, Option, none, some, arith, ltb, ◌==◌, if◌then◌else◌, Io, Ssize,
  count, error, fault, einval, efault, not, length, pad,
}
use ugreen_frontpanel.Ec.Ports.{Ports}
use ugreen_frontpanel.Ec.Helper.{ec_request_ports}
use ugreen_frontpanel.Ec.Device.{Memory, IsController}
use ugreen_frontpanel.Ec.Transfer.{
  ec_request_ports-memory, ec_release_ports-memory, ec_read_memory_lem,
}
use ugreen_frontpanel.ProcFile.{UserBuffer, trim_newline}
use ugreen_frontpanel.Sio.Fan.Memory.{with_sys_fan, with_cpu_fan}
use ugreen_frontpanel.Sio.Fan.Requested.{Fans, system_fans, processor_fans, requested}
use ugreen_frontpanel.Sio.Fan.{set_sys_fan, set_cpu_fan, read_into, fan_read}

module _ (hw : Ports) (ec : IsController hw) where
  open ec use {memory}

  abbrev pub with_fans : Fans → Memory → ℕ → Memory
  with_fans system_fans m duty = with_sys_fan m duty
  with_fans processor_fans m duty = with_cpu_fan m duty

  abbrev set_fans : Fans → ℕ → Io hw.World (Unit {0})
  set_fans system_fans = set_sys_fan hw
  set_fans processor_fans = set_cpu_fan hw

  -- A request that is carried out, or none, in a write of `n` bytes.
  abbrev pub Served : Option (Fans × ℕ) → ℕ → hw.World → Ssize × hw.World → Type 0
  Served none n w (r, w') = (r ≡ error einval) × (w' ≡ w)
  Served (some (fans, duty)) n w (r, w') =
      (r ≡ count n) × (duty ≤ 198) × (memory w' ≡ with_fans fans (memory w) duty)

  abbrev pub FanOutcome : (List ℕ → Option ℕ) → UserBuffer → hw.World → Ssize × hw.World → Type 0
  FanOutcome kstrtoul user w (r, w') =
      let n = length user.bytes in
      if ltb 11 n
      then (r ≡ error einval) × (w' ≡ w)
      else if not user.readable
      then (r ≡ error efault) × (w' ≡ w)
      else if n == 0
      then r ≡ fault
      else Served (requested kstrtoul (trim_newline n (pad 12 user.bytes))) n w (r, w')

  -- A handler that serves the request in every world.
  record Serves (request : Option (Fans × ℕ)) (n : ℕ) (m : Io hw.World Ssize) : Type 0 where
    served : (w : hw.World) → Served request n w (m w)

  read_into-memory :
      (a old : ℕ) (w : hw.World)
      → ((read_into hw a old w).0 ≡ memory w a) × (memory (read_into hw a old w).1 ≡ memory w)
  unfolding read_into
  read_into-memory a old w = ground (arith, ec_read_memory_lem hw ec a w)

  pub read_into-value : (a old : ℕ) (w : hw.World) → (read_into hw a old w).0 ≡ memory w a
  read_into-value a old w = (read_into-memory a old w).0

  pub memory-read_into : (a old : ℕ) (w : hw.World) → memory (read_into hw a old w).1 ≡ memory w
  memory-read_into a old w = (read_into-memory a old w).1

  pub memory_at-read_into :
      (a old b : ℕ) (w : hw.World) → memory (read_into hw a old w).1 b ≡ memory w b
  memory_at-read_into a old b w = ap (λ m. m b) (memory-read_into a old w)

  pub memory_at-request : (b : ℕ) (w : hw.World) → memory (ec_request_ports hw w).1 b ≡ memory w b
  memory_at-request b w = ap (λ m. m b) (ec_request_ports-memory hw ec w)

  -- With a controller that keeps its protocol, fan_read reports the four big-endian speed
  -- registers, whatever its locals held before, and leaves the memory alone; a fourth fan that
  -- reads 0 is given the speed of the third.
  pub fan_read_lem :
      (tmp1 tmp2 : ℕ) (w : hw.World)
      → let m = memory w in
        let r = fan_read hw tmp1 tmp2 w in
        (r.0.fan1 ≡ m 0x34 * 256 + m 0x35)
        × (r.0.fan2 ≡ m 0x36 * 256 + m 0x37)
        × (r.0.fan3 ≡ m 0x38 * 256 + m 0x39)
        × (r.0.fan4
            ≡ (if m 0x3a * 256 + m 0x3b == 0 then m 0x38 * 256 + m 0x39 else m 0x3a * 256 + m 0x3b))
        × (memory r.1 ≡ m)
  unfolding fan_read
  fan_read_lem tmp1 tmp2 w =
      simp
        (
          read_into-value,
          memory_at-read_into,
          memory_at-request,
          memory-read_into,
          ec_request_ports-memory hw ec,
          ec_release_ports-memory hw ec,
        )
        (ground arith)
