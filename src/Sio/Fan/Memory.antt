-- ===== src/Sio/Fan/Memory.antt =====
-- The controller's memory after set_sys_fan and set_cpu_fan.
use ugreen_frontpanel.Base.{ℕ, ◌≡◌}
use ugreen_frontpanel.Ec.Ports.{Ports}
use ugreen_frontpanel.Ec.Helper.{ec_request_ports, ec_release_ports, ec_write_memory}
use ugreen_frontpanel.Ec.Device.{Memory, store, IsController}
use ugreen_frontpanel.Ec.Transfer.{
  ec_request_ports-memory, ec_release_ports-memory, ec_write_memory_lem,
}
use ugreen_frontpanel.Sio.Fan.{clamp_pwm, set_sys_fan, set_cpu_fan}

-- The memory with both system fans, or both processor fans, under manual control at one duty.
abbrev pub with_sys_fan : Memory → ℕ → Memory
with_sys_fan m duty = store (store (store (store m 0xb4 1) 0xb5 duty) 0xb6 1) 0xb7 duty

abbrev pub with_cpu_fan : Memory → ℕ → Memory
with_cpu_fan m duty = store (store (store (store m 0xb0 1) 0xb1 duty) 0xb2 1) 0xb3 duty

module _ (hw : Ports) (ec : IsController hw) where
  open ec use {memory}

  -- Four writes between a request and a release of the ports.
  write_four :
      (a b c d x y : ℕ) (w : hw.World)
      → let w0 = (ec_request_ports hw w).1 in
        let w1 = (ec_write_memory hw a x w0).1 in
        let w2 = (ec_write_memory hw b y w1).1 in
        let w3 = (ec_write_memory hw c x w2).1 in
        let w4 = (ec_write_memory hw d y w3).1 in
        memory (ec_release_ports hw w4).1 ≡ store (store (store (store (memory w) a x) b y) c x) d y
  write_four a b c d x y w =
      let w0 = (ec_request_ports hw w).1 in
      let w1 = (ec_write_memory hw a x w0).1 in
      let w2 = (ec_write_memory hw b y w1).1 in
      let w3 = (ec_write_memory hw c x w2).1 in
      let w4 = (ec_write_memory hw d y w3).1 in
      cc (
        ec_request_ports-memory hw ec w,
        (ec_write_memory_lem hw ec a x w0).1,
        (ec_write_memory_lem hw ec b y w1).1,
        (ec_write_memory_lem hw ec c x w2).1,
        (ec_write_memory_lem hw ec d y w3).1,
        ec_release_ports-memory hw ec w4,
      )

  pub set_sys_fan-memory :
      (pwm : ℕ) (w : hw.World)
      → memory (set_sys_fan hw pwm w).1 ≡ with_sys_fan (memory w) (clamp_pwm pwm)
  unfolding set_sys_fan
  set_sys_fan-memory pwm w = write_four 0xb4 0xb5 0xb6 0xb7 1 (clamp_pwm pwm) w

  pub set_cpu_fan-memory :
      (pwm : ℕ) (w : hw.World)
      → memory (set_cpu_fan hw pwm w).1 ≡ with_cpu_fan (memory w) (clamp_pwm pwm)
  unfolding set_cpu_fan
  set_cpu_fan-memory pwm w = write_four 0xb0 0xb1 0xb2 0xb3 1 (clamp_pwm pwm) w
