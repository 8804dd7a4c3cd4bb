-- ===== src/Sio/Fan/Stuck.antt =====
-- fan_read with a controller that stays busy.
use ugreen_frontpanel.Base.{ℕ, ◌+◌, ◌*◌, ◌≡◌, arith}
use ugreen_frontpanel.Ec.Ports.{Ports}
use ugreen_frontpanel.Ec.Timeout.{IsStuck, ec_memory_timeout}
use ugreen_frontpanel.Sio.Fan.{read_into, fan_read}

module _ (hw : Ports) (stuck : IsStuck hw) where
  read_into_stuck : (a old : ℕ) (w : hw.World) → (read_into hw a old w).0 ≡ old
  unfolding read_into
  read_into_stuck a old w = ground (arith, ec_memory_timeout hw stuck a 0 w)

  -- Where the controller stays busy, each of the four speeds that fan_read reports is made of what
  -- its two locals held on the stack, which the code never set.
  pub fan_read_stuck :
      (tmp1 tmp2 : ℕ) (w : hw.World)
      → let speeds = (fan_read hw tmp1 tmp2 w).0 in
        (speeds.fan1 ≡ tmp1 * 256 + tmp2)
        × (speeds.fan2 ≡ tmp1 * 256 + tmp2)
        × (speeds.fan3 ≡ tmp1 * 256 + tmp2)
        × (speeds.fan4 ≡ tmp1 * 256 + tmp2)
  unfolding fan_read
  fan_read_stuck tmp1 tmp2 w = simp read_into_stuck (ground arith)
