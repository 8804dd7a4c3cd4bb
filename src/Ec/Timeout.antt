-- ===== src/Ec/Timeout.antt =====
-- The helper functions with a controller whose input buffer never empties.
use ugreen_frontpanel.Base.{ℕ, zero, suc, ◌≡◌, ◌≢◌, refl, arith, bit_and, err, etimedout}
use ugreen_frontpanel.Ec.Ports.{Ports}
use ugreen_frontpanel.Ec.Helper.{
  ec_c_port, ec_s_ibf, poll_command_ready, ec_wait_command_ready, ec_send_command, ec_read_memory,
  ec_write_memory,
}

-- The world after `n` status reads with a sleep after each, and nothing else.
abbrev pub polled : (hw : Ports) → ℕ → hw.World → hw.World
polled hw zero w = w
polled hw (suc n) w = polled hw n (hw.msleep 1 (hw.inb ec_c_port w).1)

abbrev pub IsStuck : Ports → Type 0
IsStuck hw = (w : hw.World) → bit_and (hw.inb ec_c_port w).0 ec_s_ibf ≢ 0

module _ (hw : Ports) (stuck : IsStuck hw) where
  poll_command_ready_stuck :
      (timeout : ℕ) (w : hw.World)
      → poll_command_ready hw timeout w ≡ (err etimedout, polled hw timeout w)
  unfolding poll_command_ready
  poll_command_ready_stuck zero w = refl
  poll_command_ready_stuck (suc timeout) w =
      ground (arith, stuck w, poll_command_ready_stuck timeout (hw.msleep 1 (hw.inb ec_c_port w).1))

  ec_send_command_stuck :
      (c : ℕ) (w : hw.World) → ec_send_command hw c w ≡ (err etimedout, polled hw 5 w)
  unfolding ec_send_command ec_wait_command_ready
  ec_send_command_stuck c w = ground (arith, poll_command_ready_stuck 5 w)

  -- Where the controller stays busy at every status read, a memory write and a memory read both
  -- return -ETIMEDOUT, and all that they did to the world is five status reads with a sleep
  -- after each: no byte was sent.
  pub ec_memory_timeout :
      (a v : ℕ) (w : hw.World)
      → (ec_write_memory hw a v w ≡ (err etimedout, polled hw 5 w))
        × (ec_read_memory hw a w ≡ (err etimedout, polled hw 5 w))
  unfolding ec_write_memory ec_read_memory
  ec_memory_timeout a v w =
      ground (arith, ec_send_command_stuck 0x81 w, ec_send_command_stuck 0x80 w)
