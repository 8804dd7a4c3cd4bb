-- ===== src/Leds/Wire.antt =====
-- i2c_iDX601x_write_led and i2c_iDX601x_read_led of packages/ugreen-leds-mcu/leds-mcu.c. Each of
-- their loops makes at most three attempts.
pub mod Laws
use ugreen_frontpanel.Base.{
  ℕ, zero, suc, ◌+◌, ◌%◌, Bool, true, false, List, if◌then◌else◌, ◌==◌, ℤ, pos, negsuc, is_negative,
  replicate, Io, Result, ok, err, ebusy,
}
use ugreen_frontpanel.Leds.Bus.{Smbus}
use ugreen_frontpanel.Leds.Frame.{request, is_intact, Answer, decode}

abbrev pub mcu_receive_flags : ℕ
mcu_receive_flags = 0x80

abbrev pub is_one : ℤ → Bool
is_one (pos n) = n == 1
is_one (negsuc n) = false

abbrev pub is_eleven : ℤ → Bool
is_eleven (pos n) = n == 11
is_eleven (negsuc n) = false

module _ (bus : Smbus) where
  open bus use {World, write_block_data, read_byte_data, read_i2c_block_data, msleep}

  -- The loop that writes a block, on the attempts that are left: whether one succeeded.
  unfoldable pub send_block : ℕ → ℕ → List ℕ → Io World Bool
  send_block zero select frame w = (false, w)
  send_block (suc tries) select frame w =
      let (ret, w') = write_block_data select frame w in
      let again = send_block tries select frame (msleep 5 w') in
      if is_negative ret then again else (true, w')

  -- The loop that waits for the controller's receive flag.
  unfoldable pub wait_received : ℕ → Io World Bool
  wait_received zero w = (false, w)
  wait_received (suc tries) w =
      let (ret, w') = read_byte_data mcu_receive_flags w in
      let again = wait_received tries (msleep 5 w') in if is_one ret then (true, w') else again

  -- The loop that reads an answer; `data` is what the buffer holds.
  unfoldable pub receive_block : ℕ → ℕ → List ℕ → World → Bool × List ℕ × World
  receive_block zero command bytes w = (false, bytes, w)
  receive_block (suc tries) command bytes w =
      let (ret, bytes', w') = read_i2c_block_data command 11 w in
      let again = receive_block tries command bytes' (msleep 5 w') in
      if is_eleven ret then (true, bytes', w') else again

  -- `ok n` is the positive result that the code returns, the receive flag.
  unfoldable pub i2c_idx601x_write_led : ℕ → ℕ → List ℕ → Io World (Result ℕ)
  i2c_idx601x_write_led select status payload w =
      let (sent, w') = send_block 3 select (request status payload) w in
      let (received, w'') = wait_received 3 w' in
      if sent then (if received then ok 1 else err ebusy, w'') else (err ebusy, w')

  -- The fields that the answer sets in the LED's status.
  unfoldable pub i2c_idx601x_read_led : ℕ → Io World (Result Answer)
  i2c_idx601x_read_led led_addr w =
      let (arrived, bytes, w') = receive_block 3 ((led_addr + 0x81) % 256) (replicate 11 0) w in
      let (received, w'') = wait_received 3 w' in
      if arrived
      then (
        if received then (if is_intact bytes then ok (decode bytes) else err ebusy) else err ebusy,
        w'',
      )
      else (err ebusy, w')
