-- ===== src/Leds/Bus.antt =====
-- What packages/ugreen-leds-mcu/leds-mcu.c calls of the kernel's SMBus layer, for one client.
use ugreen_frontpanel.Base.{ℕ, List, ℤ}

pub record Smbus : Type 1 where
  pub World : Type 0
  -- `i2c_smbus_write_block_data(client, command, length, values)`
  pub write_block_data : ℕ → List ℕ → World → ℤ × World
  -- `i2c_smbus_read_byte_data(client, command)`
  pub read_byte_data : ℕ → World → ℤ × World
  -- `i2c_smbus_read_i2c_block_data(client, command, length, values)`: the result, and the contents
  -- of `values` after the call.
  pub read_i2c_block_data : ℕ → ℕ → World → ℤ × List ℕ × World
  pub msleep : ℕ → World → World
