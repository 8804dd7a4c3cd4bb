-- ===== src/Ec/Ports.antt =====
-- What packages/ugreen-sio/it55_helper.c and packages/ugreen-sio/ug_sataio_beeper.c call of the
-- kernel: port input and output, `msleep`, `mdelay`, and the reservation of an I/O region. The
-- world behind these calls is a parameter.
use ugreen_frontpanel.Base.{ℕ, Bool}

pub record Ports : Type 1 where
  pub World : Type 0
  -- `inb(port)`: the byte read, and the world after the read.
  pub inb : ℕ → World → ℕ × World
  -- `outb(value, port)`
  pub outb : ℕ → ℕ → World → World
  pub msleep : ℕ → World → World
  pub mdelay : ℕ → World → World
  -- `request_muxed_region(port, 1, name) != NULL`
  pub request_muxed_region : ℕ → World → Bool × World
  pub release_region : ℕ → World → World
